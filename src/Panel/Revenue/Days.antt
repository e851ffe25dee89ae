-- ===== src/Panel/Revenue/Days.antt =====
-- The range of a revenue export by calendar days, against its bounds in seconds.
use mathlib.Core.Path.{fun_ext}
use locker.Prelude.{ℕ, ◌+◌, ◌*◌, ◌/◌, ◌≡◌, Bool, ◌&&◌, ◌||◌, Option, leb, arith, ap}
use locker.Prelude.Int.{ℤ}
use locker.Table.{filter}
use locker.Table.Pages.{order_by}
use locker.Table.Sums.{has_key}
use locker.Domain.{PaymentStatus, payment_is, confirmed, Payment}
use locker.Store.{Db}
use locker.Service.Dates.{Date, day_number, difference, epoch_day, unix_of}
use locker.Panel.Sessions.{is_id}
use locker.Panel.Revenue.{
  settled_at, not_before, before, next_day, location_of_payment, is_earned, is_earned_at, groups,
  revenue_by_location,
}

-- The number of the day, in UTC, of a time in microseconds.
abbrev pub day_at : ℕ → ℕ
day_at t = t / 86400000000 + epoch_day

from_day : (d t : ℕ) → not_before (difference (d * 86400) (epoch_day * 86400)) t ≡ leb d (day_at t)
from_day d t = ground arith

until_day :
    (d t : ℕ) → before (next_day (difference (d * 86400) (epoch_day * 86400))) t ≡ leb (day_at t) d
until_day d t = ground arith

-- A payment that was paid or confirmed at a location on one of the days from the first to the last.
abbrev pub is_earned_on : Date → Date → Db → ℕ → Payment → Bool
is_earned_on from to db location p =
    (payment_is p.status PaymentStatus.paid || payment_is p.status confirmed)
    && leb (day_number from) (day_at (settled_at p))
    && leb (day_at (settled_at p)) (day_number to)
    && has_key (location_of_payment db p) location

is_earned_at_days :
    (from to : Date) (db : Db) (location : ℕ) (p : Payment)
    → is_earned_at (unix_of from) (next_day (unix_of to)) db location p
      ≡ is_earned_on from to db location p
unfolding is_earned_at is_earned unix_of
is_earned_at_days from to db location p =
    ground
      (arith, from_day (day_number from) (settled_at p), until_day (day_number to) (settled_at p))

-- The rows of an export for two dates are those of the payments on the days between them, both days
-- included.
pub revenue_by_location-days :
    (from to : Date) (location : Option ℤ) (db : Db)
    → revenue_by_location (unix_of from) (next_day (unix_of to)) location db
      ≡ groups
          (λ l. filter (is_earned_on from to db l) db.payments)
          (order_by (λ l. l.id) (filter (λ l. is_id location l.id) db.locations))
unfolding revenue_by_location
revenue_by_location-days from to location db =
    ap
      (λ (earned : ℕ → Payment → Bool).
        groups (λ l. filter (earned l) db.payments)
          (order_by (λ l. l.id) (filter (λ l. is_id location l.id) db.locations)))
      (fun_ext (λ l. fun_ext (λ p. is_earned_at_days from to db l p)))
