-- ===== src/Auth/Admission.antt =====
-- What login and the guard make of each other.
use locker.Prelude.{
  ℕ, ◌+◌, ◌<◌, ◌≡◌, refl, Bool, true, false, some, [], ◌∷◌, ◌++◌, Text, codes, text_eq, ◌==◌, All,
  arith, Option-cases, inl, inr,
}
use locker.Prelude.Int.{pos}
use locker.Strings.{trim_space, split}
use locker.Domain.{Admin}
use locker.Store.{Db, ok, epoch}
use locker.Service.Numbers.{int64_limit}
use locker.Service.Numbers.Decimal.{parse_int-decimal}
use locker.Auth.Tokens.{Jwt, IsJwt, extract_token, hmac_key, validate_token, require_admin}
use locker.Auth.Login.{check_password, get_by_login, claims_of, answer_login, LoginAnswer, login}

-- A text without the separator is one part.
split_solid : (sep : ℕ) (s : Text) → All (λ c. (c == sep) ≡ false) s → split sep s ≡ s ∷ []
unfolding split
split_solid sep [] a = refl
split_solid sep (c ∷ s) a = ground (arith, a.0, split_solid sep s a.1)

extract_token-Bearer :
    (token : Text)
    → All (λ c. (c == b' ') ≡ false) token
    → extract_token (codes "Bearer " ++ token) ≡ some token
unfolding extract_token split text_eq
extract_token-Bearer token a = rw (split_solid b' ' token a)

module _ (J : Jwt) (compare : Text → Text → Bool) where
  open J use {sign}

  -- Only an active account whose password is given logs in, and the answer is made for that account.
  pub login-granted :
      (now ttl : ℕ) (secret raw password : Text) (db : Db) {answer : LoginAnswer}
      → login J compare now ttl secret raw password db ≡ ok answer
      → (a : Admin) × (get_by_login (trim_space raw) db ≡ some a)
        × (a.is_active ≡ true)
        × (check_password compare a.password_hash password ≡ true)
        × (answer_login J compare now ttl secret a ≡ ok answer)
  unfolding login
  login-granted now ttl secret raw password db e =
      elim (Option-cases (get_by_login (trim_space raw) db)) [
        | inl h ↦ absurd (ground (arith, h, e))
        | inr (a, h) ↦ (a, h, ground (arith, h, e), ground (arith, h, e), ground (arith, h, e))
      ]

  answer_login_ok :
      (now ttl : ℕ) (secret : Text) (a : Admin) {answer : LoginAnswer}
      → answer_login J compare now ttl secret a ≡ ok answer
      → (sign (claims_of a now (now + ttl)) secret ≡ some answer.access_token)
        × (answer.id ≡ a.id)
        × (answer.login ≡ a.login)
        × (answer.role ≡ a.role)
  unfolding answer_login
  answer_login_ok now ttl secret a e =
      elim (Option-cases (sign (claims_of a now (now + ttl)) secret)) [
        | inl h ↦ absurd (ground (arith, h, e))
        | inr (t, h) ↦
            (ground (arith, h, e), ground (arith, h, e), ground (arith, h, e), ground (arith, h, e))
      ]

  -- A signed token for an account is admitted as that account until it expires.
  claims_admitted :
      IsJwt J
      → (now expires later : ℕ) (secret token : Text) (a : Admin)
      → sign (claims_of a now expires) secret ≡ some token
      → later < epoch expires
      → a.id < int64_limit
      → require_admin J later secret (codes "Bearer " ++ token)
        ≡ ok (record { admin_id = pos a.id; login = a.login; role = a.role })
  unfolding require_admin validate_token
  claims_admitted j now expires later secret token a e h small =
      let solid = j.sign-solid (claims_of a now expires) secret token e in
      let parsed =
        j.parse-sign (claims_of a now expires) secret token (hmac_key secret) later e refl h in
      rw (extract_token-Bearer token solid, parsed, parse_int-decimal a.id small)

  -- Where jwt does what `IsJwt` says, the token that a login gives is admitted until it expires, with
  -- the id, the login and the role of the login's answer, if the id is below 2^63.
  pub login-require_admin :
      IsJwt J
      → (now ttl later : ℕ) (secret raw password : Text) (db : Db) (answer : LoginAnswer)
      → login J compare now ttl secret raw password db ≡ ok answer
      → later < epoch (now + ttl)
      → answer.id < int64_limit
      → require_admin J later secret (codes "Bearer " ++ answer.access_token)
        ≡ ok (record { admin_id = pos answer.id; login = answer.login; role = answer.role })
  login-require_admin j now ttl later secret raw password db answer e h small =
      let (a, _, _, _, made) = login-granted now ttl secret raw password db e in
      let (signed, id, name, role) = answer_login_ok now ttl secret a made in
      rw (
        id,
        name,
        role,
        claims_admitted j now (now + ttl) later secret answer.access_token a signed h
            (ground (arith, id, small)),
      )
