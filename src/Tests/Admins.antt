-- ===== src/Tests/Admins.antt =====
-- Theorems on the panel and the accounts, at the small installation with one administrator.
use locker.Prelude.{refl, codes}
use locker.Table.{count}
use locker.Domain.{free}
use locker.Panel.Cells.{update_status, update_locker_status, manual_open_locker}
use locker.Panel.Outcomes.{Updates, Orders, update_locker_status-Updates, manual_open_locker-Orders}
use locker.Panel.Holds.{IsStranded, update_status-frees_held}
use locker.Tests.Data.{yard, held_yard}
use locker.Tests.Rentals.{held_yard-IsConsistent}

update_locker_status-Updates_example :
    Updates 5000000 1 (codes "operator") 1 (codes " Maintenance") (codes "leak") yard (
      update_locker_status 5000000 1
        (codes "operator")
        1
        (codes " Maintenance")
        (codes "leak")
        yard)
update_locker_status-Updates_example =
    update_locker_status-Updates 5000000 1 (codes "operator") 1 (codes " Maintenance")
      (codes "leak") yard

manual_open_locker-Orders_example :
    Orders 5000000 1
      (codes "admin")
      2
      (codes "jammed")
      yard
      (manual_open_locker 5000000 1 (codes "admin") 2 (codes "jammed") yard)
manual_open_locker-Orders_example =
    manual_open_locker-Orders 5000000 1 (codes "admin") 2 (codes "jammed") yard

update_status-frees_held_example :
    IsStranded 5000000 1 free
      (codes "")
      1
      held_yard
      held_yard-IsConsistent
      (update_status 5000000 1 free (codes "") 1 held_yard)
unfolding count
update_status-frees_held_example =
    update_status-frees_held 5000000 1 free (codes "") 1 held_yard held_yard-IsConsistent refl refl
