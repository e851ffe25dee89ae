-- ===== src/Tests/Older.antt =====
-- A manual opening at the small installation, and the command that it leaves.
use locker.Prelude.{◌≡◌, refl, some, codes, text_eq, ◌==◌}
use locker.Table.{find}
use locker.Domain.{Locker}
use locker.Store.{err, store_failed}
use locker.Panel.Cells.{device_of, manual_open_locker, manual_open}
use locker.Panel.Filters.{can_manage}
use locker.Older.Commands.{get_pending_by_device}
use locker.Older.Fetching.{manual_open_locker-unfetched}
use locker.Tests.Data.{yard}

manual_open_locker-unfetched_example :
    (cell : Locker) × (find (λ l. l.id == 2) yard.lockers ≡ some cell)
    × (get_pending_by_device
          (device_of 2 cell.hardware_id)
          (manual_open_locker 5000000 1 (codes "admin") 2 (codes "jammed") yard).1
        ≡ (
          err store_failed,
          (manual_open_locker 5000000 1 (codes "admin") 2 (codes "jammed") yard).1,
        ))
unfolding find can_manage text_eq manual_open_locker manual_open
manual_open_locker-unfetched_example =
    manual_open_locker-unfetched 5000000 1 (codes "admin") 2 (codes "jammed") yard {id = 1} refl
