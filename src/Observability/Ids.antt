-- ===== src/Observability/Ids.antt =====
-- The two ids of a request that brings none: the one of `ensureRequestID` in
-- internal/observability/http_middleware.go, and the one of `requestID` in
-- internal/transport/http/locker_handler.go.
use mathlib.Core.Path.{subst}
use locker.Prelude.{
  ℕ, zero, suc, ◌+◌, ◌/◌, ◌%◌, ◌≡◌, ◌≢◌, ap, true, List, [], ◌∷◌, ◌++◌, All, Text, ltb, arith,
  Bool-cases, inl, inr,
}
use locker.Strings.{trim_space}
use locker.Service.Numbers.{is_digit}
use locker.Service.Numbers.Decimal.{digits, decimal}
use locker.Http.{request_id}
use locker.Observability.{Request, ensure_request_id}

-- `%06d` of a number below a million.
unfoldable pub six_digits : ℕ → Text
six_digits n =
    (b'0' + n / 100000)
    ∷ (b'0' + n / 10000 % 10)
    ∷ (b'0' + n / 1000 % 10)
    ∷ (b'0' + n / 100 % 10)
    ∷ (b'0' + n / 10 % 10)
    ∷ (b'0' + n % 10)
    ∷ []

-- `fmt.Sprintf("req_%d_%06d", time.Now().UnixNano(), rand.Intn(1000000))`
unfoldable pub drawn_id : ℕ → ℕ → Text
unfolding decimal six_digits
drawn_id now n = b'r' ∷ b'e' ∷ b'q' ∷ b'_' ∷ (decimal now ++ b'_' ∷ six_digits n)

digits-All :
    (k n : ℕ) (acc : Text)
    → All (λ c. is_digit c ≡ true) acc
    → All (λ c. is_digit c ≡ true) (digits k n acc)
unfolding digits is_digit
digits-All zero n acc h = h
digits-All (suc k) n acc h = elim (Bool-cases (ltb n 10)) [
  | inl small ↦ rw small (ground (arith, small), h)
  | inr large ↦ rw large (digits-All k (n / 10) ((b'0' + n % 10) ∷ acc) (ground arith, h))
]

decimal-All : (n : ℕ) → All (λ c. is_digit c ≡ true) (decimal n)
unfolding decimal
decimal-All n = digits-All (suc n) n [] tt

at_middle {ℓ κ} :
    {A : Type ℓ} (P : A → Type κ) (xs : List A) (y : A) (ys : List A) → All P (xs ++ y ∷ ys) → P y
at_middle P [] y ys h = h.0
at_middle P (x ∷ xs) y ys h = at_middle P xs y ys h.1

after_prefix : Text → Text
after_prefix (a ∷ b ∷ c ∷ d ∷ s) = s
after_prefix s = s

-- Where a request brings no id, or a blank one: the id in the header of its answer, in the context and
-- in the log is never the entry `requestId` of the answer, at whatever times the two are drawn and
-- whatever the second number.
pub ensure_request_id-ne :
    (r : Request) (now later n : ℕ)
    → trim_space r.request_header ≡ []
    → ensure_request_id now r ≢ request_id r.request_header (drawn_id later n)
unfolding ensure_request_id request_id drawn_id after_prefix is_digit
ensure_request_id-ne r now later n blank e =
    let same : b'r' ∷ b'e' ∷ b'q' ∷ b'_' ∷ decimal now ≡ drawn_id later n =
      rw (blank, ensure_request_id, request_id) at e in
    let tails : decimal now ≡ decimal later ++ b'_' ∷ six_digits n = ap after_prefix same in
    let odd : is_digit b'_' ≡ true =
      at_middle (λ c. is_digit c ≡ true) (decimal later) b'_' (six_digits n)
        (subst (All (λ c. is_digit c ≡ true)) tails (decimal-All now)) in
    cc odd
