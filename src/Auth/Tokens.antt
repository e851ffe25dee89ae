-- ===== src/Auth/Tokens.antt =====
-- Tokens: what the code uses of the packages jwt and bcrypt, which are parameters, and `ExtractToken`,
-- `ValidateToken` and `RequireAdmin` of internal/auth/middleware.go.
use locker.Prelude.{
  ℕ, ◌≡◌, ◌<◌, Bool, true, false, Option, none, some, [], ◌∷◌, Text, codes, text_eq, ◌==◌,
  if◌then◌else◌, All,
}
use locker.Prelude.Int.{ℤ}
use locker.Strings.{split}
use locker.Store.{Result, ok, err}
use locker.Service.Numbers.{parse_int}

-- `jwt.MapClaims`, with the claims that the code writes and reads; `none` is a claim that is absent
-- or no text. The times are in seconds.
pub record MapClaims : Type 0 where
  pub sub : Option Text
  pub login : Option Text
  pub role : Option Text
  pub exp : ℕ
  pub iat : ℕ

-- `NewWithClaims(SigningMethodHS256, claims).SignedString(secret)` and `jwt.Parse`, which asks the
-- key function for the key of a token by its method, HMAC or not, and checks the token's expiry
-- against the time; `none` is an error, and a token that is not valid.
pub record Jwt : Type 0 where
  pub sign : MapClaims → Text → Option Text
  pub parse : (Bool → Option Text) → ℕ → Text → Option MapClaims

-- What the package documents: `Parse` with the key returns the claims that were signed with it,
-- until they expire; a token is three parts of base64url joined by dots, so there is no space in it.
pub record IsJwt (J : Jwt) : Type 0 where
  pub parse-sign :
      (claims : MapClaims) (secret token : Text) (key : Bool → Option Text) (now : ℕ)
      → J.sign claims secret ≡ some token
      → key true ≡ some secret
      → now < claims.exp
      → J.parse key now token ≡ some claims
  pub sign-solid :
      (claims : MapClaims) (secret token : Text)
      → J.sign claims secret ≡ some token
      → All (λ c. (c == b' ') ≡ false) token

-- `Claims`
pub record Claims : Type 0 where
  pub admin_id : ℤ
  pub login : Text
  pub role : Text

-- The header's value, empty where there is none, is `Bearer`, one space and the token.
unfoldable pub extract_token : Text → Option Text
unfolding split text_eq
extract_token [] = none
extract_token (c ∷ s) = elim (split b' ' (c ∷ s)) [
  | scheme ∷ token ∷ [] ↦ if text_eq scheme (codes "Bearer") then some token else none
  | _ ↦ none
]

-- `x, _ := claims[…].(string)`
abbrev pub or_empty : Option Text → Text
or_empty none = []
or_empty (some s) = s

-- The key function of `ValidateToken`.
abbrev pub hmac_key : Text → Bool → Option Text
hmac_key secret hmac = if hmac then some secret else none

module _ (J : Jwt) where
  open J use {parse}

  unfoldable pub validate_token : ℕ → Text → Text → Option Claims
  validate_token now secret token = elim (parse (hmac_key secret) now token) [
    | none ↦ none
    | some claims ↦ elim (parse_int (or_empty claims.sub)) [
      | none ↦ none
      | some id ↦
          some
            (record { admin_id = id; login = or_empty claims.login; role = or_empty claims.role })
    ]
  ]

  -- The status that the request is refused with, or the claims that `next` finds in its context.
  unfoldable pub require_admin : ℕ → Text → Text → Result ℕ Claims
  unfolding extract_token validate_token
  require_admin now secret header = elim (extract_token header) [
    | none ↦ err 401
    | some token ↦ elim (validate_token now secret token) [
      | none ↦ err 401
      | some claims ↦ ok claims
    ]
  ]
