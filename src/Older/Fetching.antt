-- ===== src/Older/Fetching.antt =====
-- The commands that `ManualOpenLocker` of admin_panel_repository.go leaves, against `GetPendingByDevice` of
-- device_command_repository.go.
use locker.Prelude.{
  ℕ, ◌≤◌, ◌≡◌, Bool, true, false, ◌&&◌, none, some, List, [], ◌∷◌, Text, text_eq_refl, leb, ◌==◌,
  arith, Option-cases, inl, inr,
}
use locker.Table.{find, filter, count}
use locker.Table.Pages.{order_by, count-in_order}
use locker.Domain.{Locker, DeviceCommand}
use locker.Table.Members.{count-filter}
use locker.Store.{Db, Result, ok, err, store_failed}
use locker.Service.Errors.{ServiceError}
use locker.Panel.Cells.{device_of, manual_open_locker}
use locker.Panel.Outcomes.{Orders, shut_out, missing, defunct, ordered, manual_open_locker-Orders}
use locker.Older.Rows.{scan_command, scan_all}
use locker.Older.Commands.{is_pending_for, get_pending_by_device}

abbrev pub is_unreadable : DeviceCommand → Bool
is_unreadable c = elim (scan_command c) [ none ↦ true | some e ↦ false ]

scan_all_fails :
    (cs : List DeviceCommand) → 1 ≤ count is_unreadable cs → scan_all scan_command cs ≡ none
unfolding count scan_all
scan_all_fails [] h = absurd (omega (arith, h))
scan_all_fails (c ∷ cs) h = elim (Option-cases (scan_command c)) [
  | inl e ↦ rw e
  | inr (k, e) ↦ rw (e, scan_all_fails cs (ground (arith, h, e)))
]

-- One row with a NULL among the pending commands of a device makes the list fail.
fetch_fails :
    (device : Text) (db : Db)
    → 1 ≤ count (λ c. is_pending_for device c && is_unreadable c) db.commands
    → get_pending_by_device device db ≡ (err store_failed, db)
unfolding get_pending_by_device
fetch_fails device db h =
    let rows = order_by (λ c. c.created_at) (filter (is_pending_for device) db.commands) in
    let ordered =
      count-in_order (λ x y. leb x.created_at y.created_at) is_unreadable
        (filter (is_pending_for device) db.commands) in
    let counted = count-filter is_unreadable (is_pending_for device) db.commands in
    let none_read : scan_all scan_command rows ≡ none =
      scan_all_fails rows (omega (arith, h, ordered, counted)) in
    rw none_read

module _ (now actor : ℕ) (role : Text) (locker : ℕ) (reason : Text) (db : Db) where
  unfetched :
      {out : Result ServiceError ℕ × Db} {id : ℕ}
      → Orders now actor role locker reason db out
      → out.0 ≡ ok id
      → (cell : Locker) × (find (λ l. l.id == locker) db.lockers ≡ some cell)
        × (get_pending_by_device (device_of locker cell.hardware_id) out.1
            ≡ (err store_failed, out.1))
  unfolding count scan_command
  unfetched (shut_out h) e = cc
  unfetched (missing h) e = cc
  unfetched (defunct h k) e = cc
  unfetched (ordered {db' = after} allowed o) e = (
    o.cell,
    o.found,
    fetch_fails (device_of locker o.cell.hardware_id) after
        (rw o.queued (rw (text_eq_refl (device_of locker o.cell.hardware_id)) (omega arith))),
  )

  -- Once a manual opening has succeeded, the device of the cell cannot fetch the command:
  -- `GetPendingByDevice` fails for it, since the row has no session, which `Scan` wants.
  pub manual_open_locker-unfetched :
      {id : ℕ}
      → (manual_open_locker now actor role locker reason db).0 ≡ ok id
      → (cell : Locker) × (find (λ l. l.id == locker) db.lockers ≡ some cell)
        × (get_pending_by_device
              (device_of locker cell.hardware_id)
              (manual_open_locker now actor role locker reason db).1
            ≡ (err store_failed, (manual_open_locker now actor role locker reason db).1))
  manual_open_locker-unfetched e =
      unfetched (manual_open_locker-Orders now actor role locker reason db) e
