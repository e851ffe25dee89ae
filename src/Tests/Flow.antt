-- ===== src/Tests/Flow.antt =====
-- One customer books and finishes, a second takes the same cell.
use locker.Prelude.{◌≡◌, refl, false, codes, text_eq, arith}
use locker.Table.{find, update, filter, count, exists}
use locker.Table.Ordered.{least}
use locker.Strings.{to_upper, to_lower}
use locker.Domain.{occupied, active}
use locker.Store.{Db}
use locker.Rental.Select.{
  create_cell_selection, cleanup_expired_selections, is_candidate, insert_selection,
}
use locker.Rental.Book.{create_booking, is_in_location}
use locker.Holding.{is_on, is_in, IsConsistent}
use locker.Holding.Reach.{Reach, here, next, select, book, Reach-IsConsistent}
use locker.Holding.Moves.{CellMoved}
use locker.Holding.Lifecycle.{Step-CellMoved}
use locker.Tests.Data.{yard, cell, at_second, first_ids}

pub yard-IsConsistent : IsConsistent yard
unfolding count
yard-IsConsistent = ground arith

abbrev chosen : Db
chosen =
    (create_cell_selection (at_second 1000) (λ _. false) (codes "sel_aaaaaa") 123 (codes "s")
      yard).1

abbrev rented : Db
rented =
    (create_booking (at_second 1010) first_ids 123 (codes "sel_aaaaaa") (codes "+79991234567")
      chosen).1

yard_run : Reach yard rented
yard_run = next (next here (select _ _ _ _ _)) (book _ _ _ _ _)

rented_cell :
    (count (is_in occupied 1) rented.lockers ≡ 1) × (count (is_on active 1) rented.sessions ≡ 1)
unfolding create_cell_selection create_booking cleanup_expired_selections is_candidate
    insert_selection count update filter exists least text_eq to_upper to_lower find is_in_location
rented_cell = (refl, refl)

Reach-IsConsistent_example : IsConsistent rented
Reach-IsConsistent_example = Reach-IsConsistent yard-IsConsistent yard_run

Step-CellMoved_example : CellMoved 1 (cell 1 101 (codes "S")) chosen
unfolding find
Step-CellMoved_example =
    Step-CellMoved 1 (cell 1 101 (codes "S")) yard-IsConsistent
      (select (at_second 1000) (λ _. false) (codes "sel_aaaaaa") 123 (codes "s")) refl
