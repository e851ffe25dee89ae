-- ===== src/Panel/Listing.antt =====
-- The pages of `ListLocationLockers`.
use mathlib.Core.Path.{ap, sym, ◌∙◌}
use locker.Prelude.{
  ℕ, ◌+◌, ◌≤◌, ◌≡◌, refl, Bool, Option, List, [], ◌∷◌, ◌++◌, map, Text, length, leb, arith,
}
use locker.Table.{filter}
use locker.Table.Pages.{page, order_by, length-page, page-next, page-all, length-in_order-filter}
use locker.Domain.{Locker}
use locker.Store.{Db}
use locker.Panel.Lists.{is_listed, location_lockers, locker_item}

map-append :
    (xs ys : List Locker) → map locker_item (xs ++ ys) ≡ map locker_item xs ++ map locker_item ys
map-append [] ys = refl
map-append (x ∷ xs) ys = rw (map-append xs ys) refl

length-map : (xs : List Locker) → length (map locker_item xs) ≡ length xs
length-map [] = refl
length-map (x ∷ xs) = omega (arith, length-map xs)

module _ (location : ℕ) (statuses sizes : Option (List Text)) (in_use : Option Bool) (db : Db) where
  -- The rows that match, in the order of the query.
  abbrev listed : List Locker
  listed =
      order_by (λ l. l.locker_no) (filter (is_listed location statuses sizes in_use) db.lockers)

  -- A page of cells has no more items than its limit, and a page that starts where another ends
  -- goes on with it: together they are the one page that is as long as both.
  pub location_lockers-next :
      (limit more offset : ℕ)
      → (length (location_lockers location statuses sizes in_use limit offset db).0 ≤ limit)
        × ((location_lockers location statuses sizes in_use limit offset db).0
              ++ (location_lockers location statuses sizes in_use more (offset + limit) db).0
            ≡ (location_lockers location statuses sizes in_use (limit + more) offset db).0)
  unfolding location_lockers
  location_lockers-next limit more offset = (
    omega (arith, length-map (page limit offset listed), length-page limit offset listed),
    sym (map-append (page limit offset listed) (page more (offset + limit) listed))
        ∙ ap (map locker_item) (page-next limit more offset listed),
  )

  -- The total that comes with a page is the number of items of the first page that has room for all.
  pub location_lockers-total :
      (limit offset : ℕ)
      → length
          (location_lockers location statuses sizes in_use
            (location_lockers location statuses sizes in_use limit offset db).1
            0
            db).0
        ≡ (location_lockers location statuses sizes in_use limit offset db).1
  unfolding location_lockers
  location_lockers-total limit offset =
      rw
        (sym (
          length-in_order-filter (λ k l. leb k.locker_no l.locker_no)
            (is_listed location statuses sizes in_use) db.lockers))
        (length-map (page (length listed) 0 listed) ∙ ap length (page-all listed))
