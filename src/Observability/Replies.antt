-- ===== src/Observability/Replies.antt =====
-- What a handler does with its `http.ResponseWriter`, as the list of its calls: `writeOK` and `writeErr`
-- of internal/transport/http/locker_handler.go, the file of admin_handler.go, `http.Error`, and the
-- probes of cmd/api/main.go.
use locker.Prelude.{ℕ, Bool, List, [], ◌∷◌, ◌++◌, Text, codes, if◌then◌else◌}
use locker.Http.{Response, Body, data_of, api_error, plain}
use locker.Http.Routes.{Data, file}
use locker.Observability.{Writer, Request, Outcome, Handler}

pub data Deed : Type 0 where
  set_header : Text → Text → Deed
  write_header : ℕ → Deed
  write : Text → Deed

-- The calls on a writer, in their order.
unfoldable pub play : {S : Type 0} → Writer S → List Deed → S → S
play w [] s = s
play w (set_header k v ∷ ds) s = play w ds (w.set_header k v s)
play w (write_header n ∷ ds) s = play w ds (w.write_header n s)
play w (write b ∷ ds) s = play w ds (w.write b s).1

pub record Reply : Type 0 where
  pub deeds : List Deed
  pub outcome : Outcome

-- A handler that only answers.
abbrev pub replying : (Request → Reply) → Handler
replying app S w r s t = ((app r).outcome, play w (app r).deeds s, t)

abbrev pub content_type : Text → Deed
content_type = set_header (codes "Content-Type")

abbrev pub write_json : ℕ → Text → List Deed
write_json status bytes =
    content_type (codes "application/json; charset=utf-8") ∷ write_header status ∷ write bytes ∷ []

abbrev pub write_file : ℕ → Text → Text → List Deed
write_file status bytes name =
    content_type (codes "application/vnd.openxmlformats-officedocument.spreadsheetml.sheet")
    ∷ set_header (codes "Content-Disposition")
        (codes "attachment; filename=\"" ++ name ++ codes "\"")
    ∷ write_header status
    ∷ write bytes
    ∷ []

-- How an answer is sent; `encode` is the encoder of encoding/json, and `http_error` is `http.Error`.
module _ (encode : Response Data → Text) (http_error : ℕ → Text → List Deed) where
  abbrev pub sending : Response Data → Body Data → List Deed
  sending r (data_of (file (bytes, name))) = write_file r.status bytes name
  sending r (data_of d) = write_json r.status (encode r)
  sending r (api_error code field) = write_json r.status (encode r)
  sending r (plain t) = http_error r.status t

  unfoldable pub send : Response Data → List Deed
  send r = sending r r.body

-- `GET /`, `/healthz` and `/readyz`, which asks whether the database answers.
unfoldable pub root : List Deed
root =
    content_type (codes "application/json; charset=utf-8")
    ∷ write (codes "{\"ok\":true,\"data\":{\"service\":\"LOCK'IT API\",\"version\":\"v1\"}}")
    ∷ []

unfoldable pub healthz : List Deed
healthz = write_header 200 ∷ write (codes "ok") ∷ []

unfoldable pub readyz : Bool → List Deed
readyz answers =
    if answers
    then write_header 200 ∷ write (codes "ready") ∷ []
    else write_header 503 ∷ write (codes "db not ready") ∷ []
