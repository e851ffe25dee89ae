-- ===== src/Observability/Middleware.antt =====
-- internal/observability/http_middleware.go.
use locker.Prelude.{ℕ, ◌+◌, ◌/◌, [], ◌∷◌, ◌++◌, Text, codes, ◌==◌, if◌then◌else◌}
use locker.Service.Numbers.Decimal.{decimal}
use locker.Observability.{
  Writer, Request, Outcome, returned, panicked, Sample, Telemetry, Handler, context_with_request_id,
  request_id_from_context, request_path_label, ensure_request_id,
}
use locker.Observability.Logger.{Payload, Logger, text, number, thing, info, error}

-- `responseRecorder`, around a writer's state.
pub record Recorder (S : Type 0) : Type 0 where
  pub under : S
  pub status_code : ℕ
  pub bytes : ℕ

-- Its methods; `Header` is that of the writer inside.
unfoldable pub recording : {S : Type 0} → Writer S → Writer (Recorder S)
recording w = record {
  set_header = λ k v r. record r { under = w.set_header k v r.under };
  write_header = λ n r. record r { under = w.write_header n r.under; status_code = n };
  write = λ b r.
      let (n, s) = w.write b r.under in
      (
        n,
        record {
          under = s;
          status_code = if r.status_code == 0 then 200 else r.status_code;
          bytes = r.bytes + n;
        },
      );
}

abbrev pub recorder : {S : Type 0} → S → Recorder S
recorder s = record { under = s; status_code = 0; bytes = 0 }

-- `if status == 0 { status = http.StatusOK }`
abbrev pub or_ok : ℕ → ℕ
or_ok n = if n == 0 then 200 else n

unfoldable pub request_id_middleware : ℕ → Handler → Handler
unfolding ensure_request_id
request_id_middleware now next S w r s t =
    let rid = ensure_request_id now r in
    next S w (context_with_request_id rid r) (w.set_header (codes "X-Request-Id") rid s) t

abbrev pub internal_error : Text
internal_error =
    codes "{\"ok\":false,\"error\":{\"code\":\"INTERNAL_ERROR\",\"message\":\"internal error\"}}"

abbrev pub panic_line : Logger → Request → Text → Payload
panic_line l r what = error l (codes "panic recovered") (
    text (codes "request_id")
    ∷ text (request_id_from_context r)
    ∷ text (codes "method")
    ∷ text r.method
    ∷ text (codes "path")
    ∷ text r.path
    ∷ text (codes "panic")
    ∷ thing what
    ∷ [])

-- The answer that the deferred function writes.
abbrev pub recovered : {S : Type 0} → Writer S → S → S
recovered w s =
    (w.write internal_error (
      w.write_header 500
        (w.set_header (codes "Content-Type") (codes "application/json; charset=utf-8") s))).1

-- The deferred function, behind the handler: a handler that has ended, with what it has left.
abbrev pub recovering :
    {S : Type 0} → Logger → Writer S → Request → Outcome × S × Telemetry → Outcome × S × Telemetry
recovering l w r (returned, s, t) = (returned, s, t)
recovering l w r (panicked what, s, t) =
    (returned, recovered w s, record t { lines = t.lines ++ panic_line l r what ∷ [] })

unfoldable pub recovery_middleware : Logger → Handler → Handler
unfolding error request_id_from_context
recovery_middleware l next S w r s t = recovering l w r (next S w r s t)

abbrev pub request_line : Logger → Request → ℕ → ℕ → ℕ → Payload
request_line l r status took bytes = info l (codes "http_request") (
    text (codes "request_id")
    ∷ text (request_id_from_context r)
    ∷ text (codes "method")
    ∷ text r.method
    ∷ text (codes "path")
    ∷ text r.path
    ∷ text (codes "route")
    ∷ text (request_path_label r)
    ∷ text (codes "status")
    ∷ number status
    ∷ text (codes "duration_ms")
    ∷ number (took / 1000000)
    ∷ text (codes "bytes")
    ∷ number bytes
    ∷ [])

-- What stands behind the call of the handler; `took` is what `time.Since(started)` gives, in
-- nanoseconds. A panic passes it by.
abbrev pub logging :
    {S : Type 0} → Logger → ℕ → Request → Outcome × Recorder S × Telemetry → Outcome × S × Telemetry
logging l took r (returned, seen, t) = (
  returned,
  seen.under,
  record t { lines = t.lines ++ request_line l r (or_ok seen.status_code) took seen.bytes ∷ [] },
)
logging l took r (panicked what, seen, t) = (panicked what, seen.under, t)

unfoldable pub logging_middleware : Logger → ℕ → Handler → Handler
unfolding recording info request_id_from_context request_path_label
logging_middleware l took next S w r s t =
    logging l took r (next (Recorder S) (recording w) r (recorder s) t)

abbrev pub sample : Request → ℕ → ℕ → Sample
sample r status took = record {
  method = r.method;
  path = request_path_label r;
  status = decimal status;
  duration = took;
}

abbrev pub counting :
    {S : Type 0} → ℕ → Request → Outcome × Recorder S × Telemetry → Outcome × S × Telemetry
counting took r (returned, seen, t) = (
  returned,
  seen.under,
  record t { samples = t.samples ++ sample r (or_ok seen.status_code) took ∷ [] },
)
counting took r (panicked what, seen, t) = (panicked what, seen.under, t)

unfoldable pub metrics_middleware : ℕ → Handler → Handler
unfolding recording decimal request_path_label
metrics_middleware took next S w r s t =
    counting took r (next (Recorder S) (recording w) r (recorder s) t)

-- The times of one request: when its id is made, and what the two middlewares measure; and its logger.
pub record Times : Type 0 where
  pub arrived : ℕ
  pub counted : ℕ
  pub logged : ℕ
  pub logger : Logger

-- `router.Use`, four times: the first is the outermost.
unfoldable pub stack : Times → Handler → Handler
unfolding request_id_middleware recovery_middleware metrics_middleware logging_middleware
stack m next = request_id_middleware m.arrived (
    recovery_middleware m.logger
      (metrics_middleware m.counted (logging_middleware m.logger m.logged next)))
