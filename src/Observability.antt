-- ===== src/Observability.antt =====
-- internal/observability: the middlewares around the handlers, the logger and the counters. A handler
-- is a function over any state that has the methods of `http.ResponseWriter`, so that a middleware
-- can put a writer of its own in between; a panic is a way for a handler to end.
pub mod Logger
pub mod Middleware
pub mod Replies
pub mod Recorded
pub mod Watched
pub mod Answers
pub mod Ids
use locker.Prelude.{ℕ, Option, none, some, List, [], ◌∷◌, Text, codes}
use locker.Strings.{trim_space}
use locker.Service.Numbers.Decimal.{decimal}
use locker.Observability.Logger.{Payload}

-- The methods of `http.ResponseWriter`; `write` tells how many bytes it wrote.
pub record Writer (S : Type 0) : Type 0 where
  pub set_header : Text → Text → S → S
  pub write_header : ℕ → S → S
  pub write : Text → S → ℕ × S

-- A request: the header `X-Request-Id`, the template of the route that mux has found for it, and the
-- value of its context under `requestIDContextKey`.
pub record Request : Type 0 where
  pub method : Text
  pub path : Text
  pub request_header : Text
  pub template : Option Text
  pub context_id : Option Text

pub data Outcome : Type 0 where
  returned : Outcome
  panicked : Text → Outcome

-- One increment of `httpRequestsTotal` and one observation of `httpRequestDurationSeconds`.
pub record Sample : Type 0 where
  pub method : Text
  pub path : Text
  pub status : Text
  pub duration : ℕ

-- What the logger has printed, and what the counters have counted.
pub record Telemetry : Type 0 where
  pub lines : List Payload
  pub samples : List Sample

-- `http.Handler`: `ServeHTTP(w, r)`.
abbrev pub Handler : Type 1
Handler = (S : Type 0) → Writer S → Request → S → Telemetry → Outcome × S × Telemetry

-- `ContextWithRequestID`.
abbrev pub context_with_request_id : Text → Request → Request
context_with_request_id rid r = record r { context_id = some rid }

-- `RequestIDFromContext`, with the empty text that comes along with `false`.
unfoldable pub request_id_from_context : Request → Text
request_id_from_context r = elim r.context_id [ none ↦ [] | some rid ↦ rid ]

-- `requestPathLabel`.
unfoldable pub request_path_label : Request → Text
request_path_label r = elim r.template [
  | some (c ∷ s) ↦ c ∷ s
  | _ ↦ elim r.path [ [] ↦ codes "unknown" | c ∷ s ↦ c ∷ s ]
]

-- `ensureRequestID`, at a time in nanoseconds.
unfoldable pub ensure_request_id : ℕ → Request → Text
unfolding decimal
ensure_request_id now r = elim (trim_space r.request_header) [
  | [] ↦ b'r' ∷ b'e' ∷ b'q' ∷ b'_' ∷ decimal now
  | c ∷ s ↦ c ∷ s
]
