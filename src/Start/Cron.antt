-- ===== src/Start/Cron.antt =====
-- internal/cron/expired_selections.go: the goroutine of `StartExpiredSelectionCleanup`, over what its
-- `select` takes, in that order. A clean-up that fails changes nothing, since it is one statement.
use locker.Prelude.{
  ℕ, zero, suc, ◌≡◌, refl, ap, ◌∙◌, Bool, true, false, Option, none, some, List, [], ◌∷◌, ◌++◌, All,
  Text, codes,
}
use locker.Prelude.Int.{ℤ, pos, negsuc}
use locker.Table.{count}
use locker.Store.{Db}
use locker.Rental.Select.{is_overdue}
use locker.Rental.Sweep.{cleanup-none_overdue}
use locker.Service.Flow.{cleanup}
use locker.Holding.Reach.{Reach, next, sweep}
use locker.Observability.Logger.{Payload, Logger, thing, info, error}

-- `if interval <= 0 { interval = time.Minute }`, in nanoseconds.
unfoldable pub tick_interval : ℤ → ℕ
tick_interval (pos zero) = 60000000000
tick_interval (pos (suc n)) = suc n
tick_interval (negsuc n) = 60000000000

-- What `select` takes: the end of the context, or a tick at a time of the database, with the error of
-- the clean-up.
pub data Event : Type 0 where
  cancelled : Event
  ticked : ℕ → Option Text → Event

-- Does the goroutine wait for more?
pub record Cleaner : Type 0 where
  pub is_running : Bool
  pub db : Db
  pub lines : List Payload

unfoldable pub cleanup_loop : Logger → List Event → Db → List Payload → Cleaner
unfolding cleanup info error
cleanup_loop l [] db lines = record { is_running = true; db = db; lines = lines }
cleanup_loop l (cancelled ∷ es) db lines = record {
  is_running = false;
  db = db;
  lines = lines ++ info l (codes "expired selection cleanup stopped") [] ∷ [];
}
cleanup_loop l (ticked now none ∷ es) db lines = cleanup_loop l es (cleanup now db) lines
cleanup_loop l (ticked now (some e) ∷ es) db lines =
    cleanup_loop l es db
      (lines ++ error l (codes "expired selection cleanup failed") (thing e ∷ []) ∷ [])

abbrev pub IsTick : Event → Type 0
IsTick cancelled = ⊥
IsTick (ticked now e) = Unit

module _ (l : Logger) where
  -- Ticks alone, failed ones too, keep it running, and the events behind them find it as they left it.
  ticks_first :
      (es fs : List Event) (db : Db) (lines : List Payload)
      → All IsTick es
      → (cleanup_loop l es db lines).is_running ≡ true
        × (cleanup_loop l (es ++ fs) db lines
            ≡ cleanup_loop l fs (cleanup_loop l es db lines).db (cleanup_loop l es db lines).lines)
  unfolding cleanup_loop
  ticks_first [] fs db lines h = (refl, refl)
  ticks_first (cancelled ∷ es) fs db lines h = absurd h.0
  ticks_first (ticked now none ∷ es) fs db lines h = ticks_first es fs (cleanup now db) lines h.1
  ticks_first (ticked now (some e) ∷ es) fs db lines h = ticks_first es fs db _ h.1

  stopped :
      (fs : List Event) (db : Db) (lines : List Payload)
      → cleanup_loop l (cancelled ∷ fs) db lines ≡ record {
        is_running = false;
        db = db;
        lines = lines ++ info l (codes "expired selection cleanup stopped") [] ∷ [];
      }
  unfolding cleanup_loop
  stopped fs db lines = refl

  once_more :
      (now : ℕ) (db : Db) (lines : List Payload)
      → cleanup_loop l (ticked now none ∷ []) db lines
        ≡ record { is_running = true; db = cleanup now db; lines = lines }
  unfolding cleanup_loop
  once_more now db lines = refl

  -- The clean-up's goroutine waits for the next tick for ever, whatever ticks it has had and however
  -- many failed, until the context ends; then it is done, and no later tick changes the database.
  pub cleanup_loop_ends :
      (es fs : List Event) (db : Db) (lines : List Payload)
      → All IsTick es
      → ((cleanup_loop l es db lines).is_running ≡ true)
        × ((cleanup_loop l (es ++ cancelled ∷ fs) db lines).is_running ≡ false)
        × ((cleanup_loop l (es ++ cancelled ∷ fs) db lines).db ≡ (cleanup_loop l es db lines).db)
  cleanup_loop_ends es fs db lines h =
      let (running, behind) = ticks_first es (cancelled ∷ fs) db lines h in
      (
        running,
        ap (λ c. c.is_running) (behind ∙ stopped fs _ _),
        ap (λ c. c.db) (behind ∙ stopped fs _ _),
      )

  -- Whatever ticks were before, failed ones too: once a tick's clean-up succeeds, no selection is overdue at
  -- its time.
  pub cleanup_loop-none_overdue :
      (es : List Event) (now : ℕ) (db : Db) (lines : List Payload)
      → All IsTick es
      → count (is_overdue now) (cleanup_loop l (es ++ ticked now none ∷ []) db lines).db.sessions
        ≡ 0
  unfolding cleanup
  cleanup_loop-none_overdue es now db lines h =
      ap (λ c. count (is_overdue now) c.db.sessions)
        ((ticks_first es (ticked now none ∷ []) db lines h).1 ∙ once_more now _ _)
      ∙ cleanup-none_overdue now (cleanup_loop l es db lines).db

  -- The loop is a run of the rental flow.
  pub cleanup_loop-Reach :
      (es : List Event) {start : Db} (db : Db) (lines : List Payload)
      → Reach start db
      → Reach start (cleanup_loop l es db lines).db
  unfolding cleanup_loop cleanup
  cleanup_loop-Reach [] db lines r = r
  cleanup_loop-Reach (cancelled ∷ es) db lines r = r
  cleanup_loop-Reach (ticked now none ∷ es) db lines r =
      cleanup_loop-Reach es _ lines (next r (sweep now))
  cleanup_loop-Reach (ticked now (some e) ∷ es) db lines r = cleanup_loop-Reach es db _ r
