-- ===== src/Http/Payments.antt =====
-- internal/transport/http/payment_handler.go, whose handlers cmd/api/main.go does not wire: they decode
-- and answer, and call no service. A body is what encoding/json makes of it, `none` where it fails.
use locker.Prelude.{ℕ, Option, none, some, List, [], ◌∷◌, Text, codes}
use locker.Service.Numbers.{parse_int}
use locker.Service.Size.{Float64}
use locker.Observability.Replies.{Deed, write_header, content_type}

-- `http_error` is `http.Error`.
module _ (http_error : ℕ → Text → List Deed) where
  -- The body is the amount.
  unfoldable pub create_payment : (F : Float64) → Option F.Carrier → List Deed
  create_payment F body = elim body [
    | none ↦ http_error 400 (codes "invalid request")
    | some amount ↦ content_type (codes "application/json") ∷ write_header 201 ∷ []
  ]

  -- Any JSON object.
  unfoldable pub payment_webhook : {A : Type 0} → Option A → List Deed
  payment_webhook callback = elim callback [
    | none ↦ http_error 400 (codes "invalid callback")
    | some c ↦ write_header 200 ∷ []
  ]

  -- The body is the code; the status is left to net/http.
  unfoldable pub verify_code : Text → Option Text → List Deed
  unfolding parse_int
  verify_code session body = elim (parse_int session) [
    | none ↦ http_error 400 (codes "invalid session id")
    | some n ↦ elim body [
      | none ↦ http_error 400 (codes "invalid request")
      | some code ↦ content_type (codes "application/json") ∷ []
    ]
  ]
