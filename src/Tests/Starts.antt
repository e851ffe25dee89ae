-- ===== src/Tests/Starts.antt =====
-- The list of locations, and a start of the server, at the small installation.
use locker.Prelude.{refl, some, ◌∷◌, [], List, codes, text_eq, All, arith}
use locker.Strings.{to_lower, to_upper}
use locker.Table.{find, filter, count, exists}
use locker.Table.Pages.{in_order}
use locker.Store.{Db}
use locker.Rental.Select.{ensure_demo_data}
use locker.Rental.Locations.{FreeCells, list_lockers, is_searched, like, free_of_size}
use locker.Rental.Locations.Selectable.{Promised, list_lockers-Promised}
use locker.Holding.Restart.Strands.{IsStranded, ensure_demo_data-strands}
use locker.Tests.Data.{site, yard, held_yard, at_second}
use locker.Tests.Rentals.{held_yard-IsConsistent}

abbrev addressed : Db
addressed = record yard { locations = record site { address = some (codes "Main 1") } ∷ [] }

abbrev listed : List FreeCells
listed = record { id = 123; street = codes "Main 1"; s = 2; m = 0; l = 0; xl = 0 } ∷ []

list_lockers-Promised_example :
    All (Promised (at_second 1000) (codes "sel_aaaaaa") addressed) listed
unfolding list_lockers count filter free_of_size text_eq to_upper to_lower is_searched like in_order
list_lockers-Promised_example =
    list_lockers-Promised (at_second 1000) (codes "sel_aaaaaa") addressed refl refl (codes "dem") 10
      0 {rows = listed} {total = 1} refl

ensure_demo_data-strands_example : IsStranded 1 held_yard (ensure_demo_data 5000000 held_yard)
unfolding find exists count
ensure_demo_data-strands_example =
    ensure_demo_data-strands 5000000 1 101 held_yard held_yard-IsConsistent refl refl refl
      (omega arith)
