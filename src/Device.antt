-- ===== src/Device.antt =====
-- internal/transport/device/device_handler.go, whose handlers cmd/api/main.go does not wire: they decode
-- and answer, and call no service. A body is what encoding/json makes of it, `none` where it fails.
use locker.Prelude.{ℕ, Option, none, some, List, [], ◌∷◌, Text, codes}
use locker.Prelude.Int.{ℤ}
use locker.Service.Numbers.{parse_int}
use locker.Observability.Replies.{Deed, write_header, write, content_type}

pub record ReportBody : Type 0 where
  pub status : Text
  pub error : Text

pub record EventBody : Type 0 where
  pub locker_no : ℤ
  pub event_type : Text
  pub payload : Text

pub record HeartbeatBody : Type 0 where
  pub status : Text
  pub timestamp : ℤ

-- No commands, as encoding/json writes them.
unfoldable pub get_pending_commands : Text → List Deed
get_pending_commands no_commands = content_type (codes "application/json") ∷ write no_commands ∷ []

-- `http_error` is `http.Error`.
module _ (http_error : ℕ → Text → List Deed) where
  abbrev pub decoded : {A : Type 0} → Option A → List Deed
  decoded none = http_error 400 (codes "invalid request")
  decoded (some body) = write_header 200 ∷ []

  unfoldable pub report_command_done : Text → Option ReportBody → List Deed
  unfolding parse_int
  report_command_done id body = elim (parse_int id) [
    | none ↦ http_error 400 (codes "invalid command id")
    | some n ↦ decoded body
  ]

  unfoldable pub report_event : Option EventBody → List Deed
  report_event body = decoded body

  unfoldable pub heartbeat : Option HeartbeatBody → List Deed
  heartbeat body = decoded body
