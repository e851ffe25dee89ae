-- ===== src/Observability/Answers.antt =====
-- The interface of internal/transport/http inside the middlewares, as cmd/api/main.go puts them together.
use locker.Prelude.{ℕ, ◌≡◌, refl, true, ◌∙◌, Bool, none, Option, List, Text, text_eq, arith}
use locker.Strings.{to_lower}
use locker.Store.{Db}
use locker.Service.Size.{Float64}
use locker.Auth.Tokens.{Jwt}
use locker.Panel.Revenue.{CellValue}
use locker.Http.{Response, Body, data_of, api_error, plain}
use locker.Http.Routes as Routes
use locker.Http.Routes.{Data, Env, serve}
use locker.Http.Honest.Served.{serve-IsHonest}
use locker.Observability.{Writer, Request, returned, Telemetry}
use locker.Observability.Middleware.{Times, stack}
use locker.Observability.Replies.{Deed, Reply, replying, send, sending}
use locker.Observability.Recorded.{is_code, IsConnection, IsOnce, Spares, recorded, or_default}
use locker.Observability.Watched.{IsWatched, stack-IsWatched, stack-status}

-- What `http.Error` documents: it gives the status once, before the text, and sets other headers.
pub record IsHttpError (http_error : ℕ → Text → List Deed) : Type 0 where
  pub once : (n : ℕ) (t : Text) → is_code n ≡ true → IsOnce (http_error n t)
  pub status : (n : ℕ) (t : Text) → is_code n ≡ true → recorded 0 (http_error n t) ≡ n
  pub spares : (n : ℕ) (t : Text) → is_code n ≡ true → Spares (http_error n t)

-- A request as mux hands it over.
abbrev pub arriving : Env → Text → Text → Option Text → Request
arriving e method path template = record {
  method = method;
  path = path;
  request_header = e.request_header;
  template = template;
  context_id = none;
}

-- A handler that answers and ends.
abbrev pub answering :
    (Response Data → Text) → (ℕ → Text → List Deed) → Response Data → Request → Reply
answering encode http_error answer r = record {
  deeds = send encode http_error answer;
  outcome = returned;
}

module _ (encode : Response Data → Text) {http_error : ℕ → Text → List Deed}
    (h : IsHttpError http_error) where
  sending-IsOnce :
      (r : Response Data) (b : Body Data)
      → is_code r.status ≡ true
      → IsOnce (sending encode http_error r b)
  sending-IsOnce r (data_of (Routes.file (bytes, name))) l = (l, tt)
  sending-IsOnce r (data_of d) l = ground (arith, l)
  sending-IsOnce r (api_error code field) l = (l, tt)
  sending-IsOnce r (plain t) l = h.once r.status t l

  sending-Spares :
      (r : Response Data) (b : Body Data)
      → is_code r.status ≡ true
      → Spares (sending encode http_error r b)
  unfolding text_eq to_lower
  sending-Spares r (data_of (Routes.file (bytes, name))) l = (refl, (refl, (l, tt)))
  sending-Spares r (data_of d) l = ground (arith, l)
  sending-Spares r (api_error code field) l = (refl, (l, tt))
  sending-Spares r (plain t) l = h.spares r.status t l

  recorded-sending :
      (r : Response Data) (b : Body Data)
      → is_code r.status ≡ true
      → recorded 0 (sending encode http_error r b) ≡ r.status
  recorded-sending r (data_of (Routes.file (bytes, name))) l = ground (arith, l)
  recorded-sending r (data_of d) l = ground (arith, l)
  recorded-sending r (api_error code field) l = ground (arith, l)
  recorded-sending r (plain t) l = h.status r.status t l

  module _ {S : Type 0} (w : Writer S) {status : S → Option ℕ} {id : S → Option Text}
      (c : IsConnection w status id) (F : Float64) (J : Jwt) (compare : Text → Text → Bool)
      (file : List (List CellValue) → Option Text) (m : Times) (e : Env) where
    -- Every request of the interface, on every branch of its handler, is served with the status of the
    -- handler's answer, and one line is logged and one sample counted with that status; the line and
    -- the answer's header have the same id.
    pub serve-IsWatched :
        (q : Routes.Request F J compare file) (db : Db) (method path : Text)
        (template : Option Text) (s : S) (t : Telemetry)
        → status s ≡ none
        → let (o, after, t') =
            stack m
              (replying (answering encode http_error (serve F J compare file e q db).0))
              S
              w
              (arriving e method path template)
              s
              t in
          IsWatched m (arriving e method path template) (status after) (id after) o t t'
          × (or_default (status after) ≡ (serve F J compare file e q db).0.status)
    unfolding send
    serve-IsWatched q db method path template s t fresh =
        let r = (serve F J compare file e q db).0 in
        let low : is_code r.status ≡ true =
          ground (arith, (serve-IsHonest F J compare file e db q).1) in
        let once = sending-IsOnce r r.body low in
        let spares = sending-Spares r r.body low in
        (
          stack-IsWatched w c m (answering encode http_error r) (arriving e method path template) s
              t fresh spares once refl,
          stack-status w c m (answering encode http_error r) (arriving e method path template) s t
                fresh spares once refl
              ∙ rw (recorded-sending r r.body low) (ground (arith, low)),
        )
