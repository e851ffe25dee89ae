-- ===== src/Tests/Web.antt =====
-- Requests over the whole interface.
use locker.Prelude.{
  ◌+◌, ◌≤◌, ◌≡◌, ◌⊎◌, refl, true, false, some, none, [], ◌∷◌, List, ◌++◌, Text, codes, Option, Bool,
}
use locker.Table.{count}
use locker.Domain.{selected, active}
use locker.Store.{Db, ok, epoch}
use locker.Holding.{is_on}
use locker.Panel.Filters.{can_manage}
use locker.Panel.Revenue.{CellValue}
use locker.Auth.Tokens.{Claims, require_admin}
use locker.Http.Customers.{SelectionBody}
use locker.Http.Routes.{Env, serve, create_cell_selection, admin, manual_open_locker}
use locker.Http.Honest.{IsHonest}
use locker.Http.Honest.Served.{serve-IsHonest}
use locker.Http.Guard.{serve-admin}
use locker.Http.Runs.{unserved, served, Serves-held_once}
use locker.Start.{Driver, Server, start, server_of}
use locker.Start.Settings.{Environment, new_config}
use locker.Start.Serving.{start-held_once}
use locker.Tests.Data.{yard, at_second, first_ids}
use locker.Tests.Flow.{yard-IsConsistent}
use locker.Tests.Requests.{whole}
use locker.Tests.Accounts.{one_account}

-- At second 3000, with a token of the administrator root.
abbrev pub env : Env
env = record {
  clock = at_second 3000;
  skip = λ _. false;
  selection = codes "sel_aaaaaa";
  ids = first_ids;
  fresh = codes "req_1";
  request_header = codes "";
  authorization = codes "Bearer " ++ 3705 ∷ 105 ∷ [];
  secret = codes "key";
}

abbrev pub never : Text → Text → Bool
never hash password = false

abbrev pub no_file : List (List CellValue) → Option Text
no_file rows = none

abbrev small : SelectionBody whole
small = record { size = codes "S"; dimensions = none }

abbrev web_run : Db
web_run =
    (serve whole one_account never no_file env
      (admin (manual_open_locker (codes "1") (some (codes "jammed"))))
      (serve whole one_account never no_file env (create_cell_selection (codes "123") (some small))
        yard).1).1

Serves-held_once_example :
    count (is_on selected 1) web_run.sessions + count (is_on active 1) web_run.sessions ≤ 1
Serves-held_once_example = Serves-held_once whole one_account never no_file 1 yard-IsConsistent (
    served env (admin (manual_open_locker (codes "1") (some (codes "jammed"))))
      (served env (create_cell_selection (codes "123") (some small)) unserved tt) tt)

serve-admin_example :
    ((serve whole one_account never no_file env
        (admin (manual_open_locker (codes "1") (some (codes "jammed"))))
        yard).1
      ≡ yard)
    ⊎ ((claims : Claims) × (require_admin one_account
            (epoch env.clock.app_now)
            env.secret
            env.authorization
          ≡ ok claims)
        × (can_manage claims.role ≡ true))
serve-admin_example =
    serve-admin whole one_account never no_file env
      (manual_open_locker (codes "1") (some (codes "jammed"))) yard

serve-IsHonest_example :
    IsHonest
      (serve whole one_account never no_file env (create_cell_selection (codes "123") none) yard).0
serve-IsHonest_example =
    serve-IsHonest whole one_account never no_file env yard
      (create_cell_selection (codes "123") none)

-- Everything at its default, and a database that answers.
abbrev unset : Environment
unset key = none

abbrev sound : Driver
sound = record { connect = λ url. none; ping = λ url. none; seed = none }

abbrev started : Server
started = server_of (new_config unset) 3000 yard

abbrev started_run : Db
started_run =
    (serve whole one_account never no_file env (create_cell_selection (codes "123") (some small))
      started.db).1

start-held_once_example :
    count (is_on selected 1) started_run.sessions + count (is_on active 1) started_run.sessions ≤ 1
unfolding start count
start-held_once_example =
    start-held_once whole one_account never no_file sound (codes "now") unset 3000 yard 1
      yard-IsConsistent refl (refl, (refl, (refl, (refl, (refl, (refl, (refl, tt)))))))
      (refl, (refl, (refl, (refl, (refl, (refl, (refl, tt))))))) refl
      (served env (create_cell_selection (codes "123") (some small)) unserved tt)
