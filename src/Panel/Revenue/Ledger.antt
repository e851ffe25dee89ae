-- ===== src/Panel/Revenue/Ledger.antt =====
-- The rows of `RevenueByLocation` against the payments: nothing is lost and nothing counted twice.
use mathlib.Core.Path.{◌∙◌}
use locker.Prelude.{
  ℕ, ◌≤◌, ◌≡◌, refl, Bool, true, ◌&&◌, Option, List, [], ◌∷◌, ◌==◌, leb, arith, inl, inr,
  List-cases,
}
use locker.Prelude.Int.{ℤ}
use locker.Table.{filter, count, exists, sum}
use locker.Table.Pages.{in_order}
use locker.Table.Sums.{has_key, sum-in_order, count-filter_le, sum-groups}
use locker.Domain.{Location, Payment}
use locker.Store.{Db}
use locker.Panel.Sessions.{is_id}
use locker.Panel.Revenue.{
  RevenueRow, revenue_row, groups, is_earned, is_earned_at, location_of_payment,
  revenue_by_location,
}

-- The locations that the export is asked for.
abbrev pub asked : Option ℤ → Db → List Location
asked location db = filter (λ l. is_id location l.id) db.locations

-- A payment that was settled in the time, of a rental at one of those locations.
abbrev pub is_counted : ℤ → ℤ → Option ℤ → Db → Payment → Bool
is_counted from to location db p =
    is_earned from to p && exists (λ l. has_key (location_of_payment db p) l.id) (asked location db)

-- A column that is a sum over the group, summed over the rows.
sum-groups_rows :
    (column : RevenueRow → ℕ) (w : Payment → ℕ)
    → ((ps : List Payment) (l : Location) → column (revenue_row ps l) ≡ sum w ps)
    → (of_location : ℕ → List Payment) (ls : List Location)
    → sum column (groups of_location ls) ≡ sum (λ l. sum w (of_location l.id)) ls
unfolding groups sum
sum-groups_rows column w each of_location [] = refl
sum-groups_rows column w each of_location (l ∷ ls) =
    let rest = sum-groups_rows column w each of_location ls in
    elim (List-cases (of_location l.id)) [
      | inl e ↦ ground (arith, e, rest)
      | inr (p, ps, e) ↦ ground (arith, e, rest, each (p ∷ ps) l)
    ]

module _ (from to : ℤ) (location : Option ℤ) (db : Db) where
  columns :
      (column : RevenueRow → ℕ) (w : Payment → ℕ)
      → ((ps : List Payment) (l : Location) → column (revenue_row ps l) ≡ sum w ps)
      → ((c : ℕ) → count (λ l. l.id == c) db.locations ≤ 1)
      → sum column (revenue_by_location from to location db)
        ≡ sum w (filter (is_counted from to location db) db.payments)
  unfolding revenue_by_location is_earned_at
  columns column w each once =
      sum-groups_rows column w each (λ l. filter (is_earned_at from to db l) db.payments)
        (in_order (λ k l. leb k.id l.id) (asked location db))
      ∙ sum-in_order (λ k l. leb k.id l.id)
          (λ l. sum w (filter (is_earned_at from to db l.id) db.payments)) (asked location db)
      ∙ sum-groups (λ l. l.id) (location_of_payment db) (is_earned from to) w db.payments
          (asked location db)
          (λ c. omega (
            arith,
            once c,
            count-filter_le (λ l. l.id == c) (λ l. is_id location l.id) db.locations,
          ))

  count-sum : (p : Payment → Bool) (ps : List Payment) → sum (λ x. 1) (filter p ps) ≡ count p ps
  unfolding sum filter count
  count-sum p [] = refl
  count-sum p (x ∷ xs) = ground (arith, count-sum p xs)

  count_all : (ps : List Payment) → count (λ p. true) ps ≡ sum (λ p. 1) ps
  unfolding sum count
  count_all [] = refl
  count_all (p ∷ ps) = omega (arith, count_all ps)

  -- Where locations have their ids for themselves, the export counts each payment that was paid or
  -- confirmed in the time, of a rental at one of the locations asked for, exactly once, and no other:
  -- over the rows, the revenues add up to the amounts of these payments, and the numbers of payments
  -- to how many they are.
  pub revenue_by_location-sums :
      ((c : ℕ) → count (λ l. l.id == c) db.locations ≤ 1)
      → (sum (λ r. r.revenue) (revenue_by_location from to location db)
          ≡ sum (λ p. p.amount) (filter (is_counted from to location db) db.payments))
        × (sum (λ r. r.payments_count) (revenue_by_location from to location db)
            ≡ count (is_counted from to location db) db.payments)
  unfolding revenue_row
  revenue_by_location-sums once = (
    columns (λ r. r.revenue) (λ p. p.amount) (λ ps l. refl) once,
    columns (λ r. r.payments_count) (λ p. 1) (λ ps l. count_all ps) once
        ∙ count-sum (is_counted from to location db) db.payments,
  )
