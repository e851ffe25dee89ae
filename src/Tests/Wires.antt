-- ===== src/Tests/Wires.antt =====
-- A connection that does what net/http documents, and the theorems on the middlewares over it.
use locker.Prelude.{
  ℕ, ◌≡◌, refl, Option, none, some, List, [], ◌∷◌, ◌++◌, length, Text, codes, text_eq,
  if◌then◌else◌, arith,
}
use locker.Http.{Response}
use locker.Http.Routes.{Data, serve, create_cell_selection}
use locker.Observability.{Writer, Request, panicked, Telemetry}
use locker.Observability.Middleware.{Times, stack}
use locker.Observability.Replies.{
  Deed, set_header, write_header, write, Reply, replying, play, healthz,
}
use locker.Strings.{to_lower}
use locker.Observability.Recorded.{is_code, IsConnection, or_default}
use locker.Observability.Watched.{IsWatched, IsRecovered, stack-IsRecovered}
use locker.Observability.Answers.{IsHttpError, arriving, answering, serve-IsWatched}
use locker.Tests.Data.{yard}
use locker.Tests.Requests.{whole}
use locker.Tests.Accounts.{one_account}
use locker.Tests.Web.{env, never, no_file}

-- The headers as the handler sees them, and those that went with the status.
record Conn : Type 0 where
  pub status : Option ℕ
  pub live : List (Text × Text)
  pub sent : List (Text × Text)
  pub body : Text

-- The keys are held in one case.
abbrev get_header : Text → List (Text × Text) → Option Text
get_header k [] = none
get_header k ((j, v) ∷ hs) = if text_eq j k then some v else get_header k hs

abbrev with_type : Conn → Conn
with_type c = elim (get_header (codes "content-type") c.live) [
  | none ↦ record c { live = (codes "content-type", codes "text/plain; charset=utf-8") ∷ c.live }
  | some v ↦ c
]

abbrev start_with : ℕ → Conn → Conn
start_with n c = record c { status = some n; sent = c.live }

abbrev wire : Writer Conn
wire = record {
  set_header = λ k v c. record c { live = (to_lower k, v) ∷ c.live };
  write_header =
      λ n c. elim c.status [ none ↦ if is_code n then start_with n c else c | some m ↦ c ];
  write = λ b c. (
    length b,
    elim c.status [
      | none ↦ let c' = start_with 200 (with_type c) in record c' { body = b }
      | some m ↦ record c { body = c.body ++ b }
    ],
  );
}

abbrev id_of : Conn → Option Text
id_of c = elim c.status [
  | none ↦ get_header (codes "x-request-id") c.live
  | some m ↦ get_header (codes "x-request-id") c.sent
]

wire-IsConnection : IsConnection wire (λ c. c.status) id_of
unfolding text_eq to_lower
wire-IsConnection = record {
  first_header = λ n s l e. ground (arith, l, e);
  later_header = λ n m s l e. ground (arith, e);
  first_write = λ b s e. rw e refl;
  later_write = λ b m s e. rw e e;
  same_status = λ k v s. refl;
  set_id = λ v s e. rw e refl;
  set_other = λ k v s e. ground (arith, e);
  header_kept = λ n s l. ground (arith, l);
  write_kept = λ b s. ground arith;
}

abbrev http_error : ℕ → Text → List Deed
http_error n t =
    set_header (codes "Content-Type") (codes "text/plain; charset=utf-8")
    ∷ set_header (codes "X-Content-Type-Options") (codes "nosniff")
    ∷ write_header n
    ∷ write (t ++ 10 ∷ [])
    ∷ []

http_error-IsHttpError : IsHttpError http_error
unfolding text_eq to_lower
http_error-IsHttpError = record {
  once = λ n t l. (l, tt);
  status = λ n t l. ground (arith, l);
  spares = λ n t l. (refl, (refl, (l, tt)));
}

abbrev encode : Response Data → Text
encode r = codes "{}"

abbrev times : Times
times = record {
  arrived = 1000;
  counted = 20;
  logged = 10;
  logger = record { env = codes "test"; ts = codes "now" };
}

abbrev open_conn : Conn
open_conn = record { status = none; live = []; sent = []; body = [] }

abbrev silent : Telemetry
silent = record { lines = []; samples = [] }

abbrev selecting : Request
selecting = arriving env (codes "POST") (codes "/api/v1/lockers/123/cell-selection") none

abbrev refused : Response Data
refused =
    (serve whole one_account never no_file env (create_cell_selection (codes "123") none) yard).0

serve-IsWatched_example :
    let (o, after, t) =
      stack times
        (replying (answering encode http_error refused))
        Conn
        wire
        selecting
        open_conn
        silent in
    IsWatched times selecting after.status (id_of after) o silent t
    × (or_default after.status ≡ refused.status)
serve-IsWatched_example =
    serve-IsWatched encode http_error-IsHttpError wire wire-IsConnection whole one_account never
      no_file times env (create_cell_selection (codes "123") none) yard (codes "POST")
      (codes "/api/v1/lockers/123/cell-selection") none open_conn silent refl

-- A handler that writes a header and panics.
abbrev failing : Request → Reply
failing r = record {
  deeds = set_header (codes "Content-Type") (codes "text/plain") ∷ [];
  outcome = panicked (codes "nil map");
}

stack-IsRecovered_example :
    let (o, after, t) = stack times (replying failing) Conn wire selecting open_conn silent in
    IsRecovered times selecting (codes "nil map") none after.status (id_of after) o silent t
unfolding text_eq to_lower play
stack-IsRecovered_example =
    stack-IsRecovered wire wire-IsConnection times failing selecting open_conn silent refl
      (refl, tt) refl

-- The status that is recorded, where a handler gives it twice, is the one that is not sent.
abbrev twice : List Deed
twice = write_header 200 ∷ write_header 500 ∷ []

twice_sent : or_default (play wire twice open_conn).status ≡ 200
unfolding play
twice_sent = refl

healthz_sent : (play wire healthz open_conn).body ≡ codes "ok"
unfolding play healthz
healthz_sent = refl
