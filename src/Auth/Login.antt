-- ===== src/Auth/Login.antt =====
-- `Login`, `generateToken`, `checkPassword` and `Me` of admin_service.go.
use locker.Prelude.{
  ℕ, ◌+◌, ◌/◌, Bool, true, false, ◌||◌, not, Option, none, some, [], ◌∷◌, Text, codes, text_eq,
  ◌==◌, if◌then◌else◌,
}
use locker.Prelude.Int.{ℤ, pos, negsuc}
use locker.Strings.{trim_space}
use locker.Table.{find}
use locker.Domain.{Admin}
use locker.Store.{Db, Result, ok, err, seconds, epoch, store_failed}
use locker.Service.Errors.{ServiceError, app_error, other}
use locker.Service.Numbers.Decimal.{decimal}
use locker.Auth.Tokens.{MapClaims, Jwt}

unfoldable pub has_prefix : Text → Text → Bool
has_prefix s [] = true
has_prefix [] (c ∷ p) = false
has_prefix (d ∷ s) (c ∷ p) = if d == c then has_prefix s p else false

-- `bcrypt.CompareHashAndPassword(hash, password) == nil` is a parameter; a hash that has none of
-- the prefixes is the password itself.
unfoldable pub check_password : (Text → Text → Bool) → Text → Text → Bool
check_password compare hash password =
    if has_prefix hash (codes "$2a$")
      || has_prefix hash (codes "$2b$")
      || has_prefix hash (codes "$2y$")
    then compare hash password
    else text_eq hash password

-- The lifetime of a token that `NewAdminService` keeps, in microseconds.
unfoldable pub token_ttl : ℤ → ℕ
token_ttl (pos n) = if n == 0 then seconds 3600 else n
token_ttl (negsuc n) = seconds 3600

-- `GetByLogin` and `GetByID`
unfoldable pub get_by_login : Text → Db → Option Admin
unfolding find
get_by_login login db = find (λ a. text_eq a.login login) db.admins

unfoldable pub get_by_id : ℤ → Db → Option Admin
unfolding find
get_by_id (pos id) db = find (λ a. a.id == id) db.admins
get_by_id (negsuc n) db = none

abbrev pub claims_of : Admin → ℕ → ℕ → MapClaims
claims_of a now expires = record {
  sub = some (decimal a.id);
  login = some a.login;
  role = some a.role;
  exp = epoch expires;
  iat = epoch now;
}

pub record LoginAnswer : Type 0 where
  pub access_token : Text
  pub expires_in : ℕ
  pub id : ℕ
  pub login : Text
  pub role : Text

abbrev pub invalid_credentials : ServiceError
invalid_credentials = app_error 401 (codes "INVALID_CREDENTIALS")

module _ (J : Jwt) (compare : Text → Text → Bool) where
  open J use {sign}

  -- The token and the answer with it.
  unfoldable pub answer_login : ℕ → ℕ → Text → Admin → Result ServiceError LoginAnswer
  answer_login now ttl secret a = elim (sign (claims_of a now (now + ttl)) secret) [
    | none ↦ err (other store_failed)
    | some token ↦ ok (record {
      access_token = token;
      expires_in = ttl / 1000000;
      id = a.id;
      login = a.login;
      role = a.role;
    })
  ]

  unfoldable pub login : ℕ → ℕ → Text → Text → Text → Db → Result ServiceError LoginAnswer
  unfolding answer_login
  login now ttl secret raw password db =
      let name = trim_space raw in
      if text_eq name [] || text_eq password []
      then err invalid_credentials
      else elim (get_by_login name db) [
        | none ↦ err invalid_credentials
        | some a ↦
            if not a.is_active
            then err (app_error 403 (codes "ADMIN_DISABLED"))
            else if not (check_password compare a.password_hash password)
            then err invalid_credentials
            else answer_login now ttl secret a
      ]

-- The account of the caller, whether it is active or not.
unfoldable pub me : ℤ → Db → Result ServiceError Admin
unfolding get_by_id
me id db = elim (get_by_id id db) [
  | none ↦ err (app_error 401 (codes "UNAUTHORIZED"))
  | some a ↦ ok a
]
