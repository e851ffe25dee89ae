-- ===== src/Tests/Accounts.antt =====
-- A signer for one account, which does what the package jwt documents, and the theorems with it.
use locker.Prelude.{
  ℕ, ◌+◌, ◌-◌, ◌<◌, ◌≡◌, refl, Bool, true, false, ◌&&◌, Option, none, some, [], ◌∷◌, ◌++◌, Text,
  codes, text_eq, ltb, holds_text, eq_of_text_eq, if◌then◌else◌, arith, Bool-cases, inl, inr,
}
use mathlib.Core.Path.{ap, sym, ◌∙◌}
use locker.Prelude.Int.{pos}
use locker.Strings.{trim_space}
use locker.Table.{find}
use locker.Domain.{Admin}
use locker.Store.{Db, ok}
use locker.Service.Numbers.Decimal.{decimal}
use locker.Auth.Tokens.{MapClaims, Jwt, IsJwt, require_admin}
use locker.Auth.Login.{login, LoginAnswer, check_password, get_by_login, answer_login, has_prefix}
use locker.Auth.Admission.{login-granted, login-require_admin}
use locker.Tests.Data.{yard}

abbrev root : Admin
root = record {
  id = 1;
  login = codes "root";
  password_hash = codes "secret";
  role = codes "admin";
  is_active = true;
  created_at = 0;
  updated_at = 0;
}

abbrev pub staffed : Db
staffed = record yard { admins = root ∷ [] }

abbrev is_root : MapClaims → Bool
is_root c =
    holds_text c.sub (codes "1")
    && holds_text c.login (codes "root")
    && holds_text c.role (codes "admin")

abbrev sign_root : MapClaims → Text → Option Text
sign_root c secret = if is_root c then some ((c.exp + 100) ∷ (c.iat + 100) ∷ []) else none

abbrev root_claims : ℕ → ℕ → MapClaims
root_claims expires issued = record {
  sub = some (codes "1");
  login = some (codes "root");
  role = some (codes "admin");
  exp = expires;
  iat = issued;
}

abbrev read_root : ℕ → Text → Option MapClaims
read_root now (e ∷ i ∷ []) =
    if ltb now (e - 100) then some (root_claims (e - 100) (i - 100)) else none
read_root now _ = none

abbrev parse_root : (Bool → Option Text) → ℕ → Text → Option MapClaims
parse_root key now token = elim (key true) [ none ↦ none | some secret ↦ read_root now token ]

abbrev pub one_account : Jwt
one_account = record { sign = sign_root; parse = parse_root }

holds_same : (o : Option Text) (t : Text) → holds_text o t ≡ true → o ≡ some t
holds_same none t h = absurd (ground (arith, h))
holds_same (some s) t h = ap some (eq_of_text_eq s t h)

sign_root_root :
    (c : MapClaims) (secret : Text) {token : Text}
    → sign_root c secret ≡ some token
    → (is_root c ≡ true) × (token ≡ (c.exp + 100) ∷ (c.iat + 100) ∷ [])
sign_root_root c secret e = elim (Bool-cases (is_root c)) [
  | inr h ↦ absurd (ground (arith, h, e))
  | inl h ↦ (h, ground (arith, h, e))
]

root_claims_same : (c : MapClaims) → is_root c ≡ true → root_claims c.exp c.iat ≡ c
root_claims_same c h =
    let s = holds_same c.sub (codes "1") (ground (arith, h)) in
    let l = holds_same c.login (codes "root") (ground (arith, h)) in
    let r = holds_same c.role (codes "admin") (ground (arith, h)) in
    λ i. record { sub = (sym s) i; login = (sym l) i; role = (sym r) i; exp = c.exp; iat = c.iat }

read_back :
    (e i now : ℕ) (key : Bool → Option Text) {secret : Text}
    → key true ≡ some secret
    → now < e
    → parse_root key now ((e + 100) ∷ (i + 100) ∷ []) ≡ some (root_claims e i)
read_back e i now key k h =
    let late : e + 100 - 100 ≡ e = omega arith in
    let issued : i + 100 - 100 ≡ i = omega arith in ground (arith, k, h, late, issued)

one_account-IsJwt : IsJwt one_account
one_account-IsJwt = record {
  parse-sign = λ c secret token key now e k h.
      let (is, shape) = sign_root_root c secret e in
      rw shape (read_back c.exp c.iat now key k h ∙ ap some (root_claims_same c is));
  sign-solid =
      λ c secret token e. let (is, shape) = sign_root_root c secret e in rw shape (ground arith);
}

abbrev answer : LoginAnswer
answer = record {
  access_token = 3705 ∷ 105 ∷ [];
  expires_in = 3600;
  id = 1;
  login = codes "root";
  role = codes "admin";
}

login-granted_example :
    (a : Admin) × (get_by_login (trim_space (codes "root")) staffed ≡ some a)
    × (a.is_active ≡ true)
    × (check_password (λ hash password. false) a.password_hash (codes "secret") ≡ true)
    × (answer_login one_account (λ hash password. false) 5000000 3600000000 (codes "key") a
        ≡ ok answer)
unfolding login get_by_login find check_password has_prefix text_eq trim_space decimal answer_login
login-granted_example =
    login-granted one_account (λ hash password. false) 5000000 3600000000 (codes "key")
      (codes "root") (codes "secret") staffed {answer = answer} refl

login-require_admin_example :
    require_admin one_account 3000 (codes "key") (codes "Bearer " ++ answer.access_token)
    ≡ ok (record { admin_id = pos answer.id; login = answer.login; role = answer.role })
unfolding login get_by_login find check_password has_prefix text_eq trim_space decimal answer_login
login-require_admin_example =
    login-require_admin one_account (λ hash password. false) one_account-IsJwt 5000000 3600000000
      3000 (codes "key") (codes "root") (codes "secret") staffed answer refl (omega arith)
      (omega arith)
