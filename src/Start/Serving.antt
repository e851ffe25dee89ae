-- ===== src/Start/Serving.antt =====
-- From the start of the server in cmd/api/main.go to its answers.
use mathlib.Core.Path.{subst}
use locker.Prelude.{ℕ, ◌+◌, ◌≤◌, ◌≡◌, sym, Bool, Option, List, Text, arith, Option-cases, inl, inr}
use locker.Table.{count}
use locker.Domain.{reserved, occupied, selected, active}
use locker.Store.{Db}
use locker.Service.Size.{Float64}
use locker.Service.Flow.{init}
use locker.Auth.Tokens.{Jwt}
use locker.Panel.Revenue.{CellValue}
use locker.Holding.{is_on, IsConsistent}
use locker.Holding.Restart.Calm.{IsAhead, Idle, ensure_demo_data-IsConsistent}
use locker.Http.Runs.{Serves, Serves-held_once}
use locker.Observability.Logger.{Payload}
use locker.Start.{Driver, Server, serving, start, db_url}
use locker.Start.Settings.{Environment, new_config}

-- The database that a server starts with.
start-init :
    (d : Driver) (ts : Text) (env : Environment) (now : ℕ) (db : Db) {server : Server}
    {lines : List Payload}
    → start d ts env now db ≡ serving server lines
    → server.db ≡ init now db
unfolding start
start-init d ts env now db e = elim (Option-cases (d.connect (db_url (new_config env)))) [
  | inr (f, h) ↦ absurd (ground (arith, e, h))
  | inl h ↦ elim (Option-cases (d.ping (db_url (new_config env)))) [
    | inr (f, k) ↦ absurd (ground (arith, e, h, k))
    | inl k ↦ elim (Option-cases d.seed) [
      | inr (f, m) ↦ absurd (ground (arith, e, h, k, m))
      | inl m ↦ ground (arith, e, h, k, m)
    ]
  ]
]

module _ (F : Float64) (J : Jwt) (compare : Text → Text → Bool)
    (write : List (List CellValue) → Option Text) where
  -- Where the server has started, over a consistent database in which no demo cell is reserved or occupied
  -- and the sequence of the cells' ids is ahead of them: whatever requests and ticks it then serves, with
  -- only active rentals ended and only empty cells changed, the selections and the active rentals on a
  -- cell are together at most one.
  pub start-held_once :
      (d : Driver) (ts : Text) (env : Environment) (now : ℕ) (db : Db) {server : Server}
      {lines : List Payload} {after : Db} (c : ℕ)
      → IsConsistent db
      → IsAhead db
      → Idle reserved db
      → Idle occupied db
      → start d ts env now db ≡ serving server lines
      → Serves F J compare write server.db after
      → count (is_on selected c) after.sessions + count (is_on active c) after.sessions ≤ 1
  unfolding init
  start-held_once d ts env now db c v ahead idle idle' e run =
      Serves-held_once F J compare write c
        (subst IsConsistent (sym (start-init d ts env now db e))
          (ensure_demo_data-IsConsistent now db v ahead idle idle'))
        run
