-- ===== src/Panel/Locations/Totals.antt =====
-- The cells of a location by status, against their number.
use locker.Prelude.{
  ℕ, ◌+◌, ◌≡◌, refl, Bool, true, false, ◌&&◌, bit, List, [], ◌∷◌, Option, Text, All, arith,
}
use locker.Table.{count}
use locker.Table.Sorted.{All-map}
use locker.Domain.{Locker, Location}
use locker.Domain as Status
use locker.Store.{Db}
use locker.Panel.Locations.{CellsByStatus, is_at, count_in, location_item, panel_locations}

-- All the cells that the map counts.
abbrev pub counted_cells : CellsByStatus → ℕ
counted_cells m =
    m.free + m.reserved + m.occupied + m.locked + m.opened + m.maintenance + m.out_of_service

-- A cell counts under its own status alone.
bits-once :
    (b : Bool) (st : Status.LockerStatus)
    → bit (b && Status.locker_is st Status.free)
        + bit (b && Status.locker_is st Status.reserved)
        + bit (b && Status.locker_is st Status.occupied)
        + bit (b && Status.locker_is st Status.locked)
        + bit (b && Status.locker_is st Status.opened)
        + bit (b && Status.locker_is st Status.maintenance)
        + bit (b && Status.locker_is st Status.out_of_service)
      ≡ bit b
bits-once true Status.free = refl
bits-once true Status.reserved = refl
bits-once true Status.occupied = refl
bits-once true Status.locked = refl
bits-once true Status.opened = refl
bits-once true Status.maintenance = refl
bits-once true Status.out_of_service = refl
bits-once false st = refl

count_in-all :
    (location : ℕ) (ls : List Locker)
    → count_in location Status.free ls
        + count_in location Status.reserved ls
        + count_in location Status.occupied ls
        + count_in location Status.locked ls
        + count_in location Status.opened ls
        + count_in location Status.maintenance ls
        + count_in location Status.out_of_service ls
      ≡ count (is_at location) ls
unfolding count
count_in-all location [] = refl
count_in-all location (l ∷ ls) =
    omega (arith, bits-once (is_at location l) l.status, count_in-all location ls)

location_item-cells :
    (ls : List Locker) (l : Location)
    → counted_cells (location_item ls l).cells_by_status ≡ (location_item ls l).cells_total
unfolding location_item
location_item-cells ls l = count_in-all l.id ls

-- What every row has, the rows of a list have.
All-of : (P : Location → Type 0) (xs : List Location) → ((l : Location) → P l) → All P xs
All-of P [] each = tt
All-of P (l ∷ ls) each = (each l, All-of P ls each)

-- Every location that the panel lists has its cells counted under exactly one status each: the numbers
-- by status add up to the total.
pub panel_locations-cells :
    (search : Text) (in_use : Option Bool) (limit offset : ℕ) (db : Db)
    → All
        (λ i. counted_cells i.cells_by_status ≡ i.cells_total)
        (panel_locations search in_use limit offset db).0
unfolding panel_locations
panel_locations-cells search in_use limit offset db =
    All-map _ (location_item db.lockers) _ (All-of _ _ λ l. location_item-cells db.lockers l)
