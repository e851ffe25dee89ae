-- ===== src/Http/Keeping.antt =====
-- The handlers against the invariant of Holding: what leaves the cells and the sessions as they are, and
-- a change of a cell's status.
use locker.Prelude.{
  ℕ, ◌≡◌, refl, false, Option, some, Text, inl, inr, arith, Option-cases, Bool-cases,
}
use locker.Table.{count}
use locker.Domain.{LockerStatus, reserved, occupied, locker_is, selected, active}
use locker.Store.{Db, Result, Result-cases, RepoError, Op}
use locker.Service.Errors.{ServiceError}
use locker.Service.Numbers.{parse_int}
use locker.Auth.Tokens.{Claims}
use locker.Panel.Outcomes as Ends
use locker.Panel.Cells.{
  status_error, mapped_by, update_status, update_locker_status, manual_open_locker,
}
use locker.Panel.Holds.{update_status-IsConsistent}
use locker.Holding.{is_on, IsConsistent}
use locker.Holding.Reach.{Step-IsConsistent}
use locker.Http.{word}
use locker.Http.Admins.{StatusBody}
use locker.Prelude.Int.{ℤ}
use locker.Strings.{trim_space, to_lower}
use locker.Panel.Filters.{locker_status?, can_manage}
use locker.Http.Admins as Admins
use locker.Http.Effects.{Steps}

-- The same cells and sessions.
abbrev pub SameRows : Db → Db → Type 0
SameRows db after = (after.lockers ≡ db.lockers) × (after.sessions ≡ db.sessions)

pub keeps : {db after : Db} → IsConsistent db → SameRows db after → IsConsistent after
keeps {db} {after} v (l, s) = record {
  cell_once = λ c. rw l (v.cell_once c);
  selection_once = λ k. rw s (v.selection_once k);
  rental_once = λ k. rw s (v.rental_once k);
  reserved_held = λ c. rw (l, s) (v.reserved_held c);
  occupied_held = λ c. rw (l, s) (v.occupied_held c);
}

pub steps : {db after : Db} → IsConsistent db → Steps db after → IsConsistent after
steps v (inl e) = rw e v
steps v (inr s) = Step-IsConsistent s v

-- A manual opening writes logs and a command alone.
order-rows :
    (now actor : ℕ) (role : Text) (locker : ℕ) (reason : Text) (db : Db)
    → SameRows db (manual_open_locker now actor role locker reason db).1
order-rows now actor role locker reason db =
    ended (Ends.manual_open_locker-Orders now actor role locker reason db)
  where
    ended :
        {out : Result ServiceError ℕ × Db}
        → Ends.Orders now actor role locker reason db out
        → SameRows db out.1
    ended (Ends.shut_out h) = (refl, refl)
    ended (Ends.missing h) = (refl, refl)
    ended (Ends.defunct h f) = (refl, refl)
    ended (Ends.ordered may m) = (m.same_lockers, m.same_sessions)

pub open-rows :
    (now : ℕ) (rid : Text) (c : Claims) (locker : Text) (body : Option Text) (db : Db)
    → SameRows db (Admins.manual_open_locker now rid (some c) locker body db).1
unfolding Admins.manual_open_locker
open-rows now rid c locker body db = elim (Option-cases (parse_int locker)) [
  | inl h ↦ (ground (arith, h), ground (arith, h))
  | inr (id, h) ↦ elim (Option-cases body) [
    | inl k ↦ (ground (arith, h, k), ground (arith, h, k))
    | inr (b, k) ↦
        let (l, s) = order-rows now (word c.admin_id) c.role (word id) b db in
        (ground (arith, h, k, l), ground (arith, h, k, s))
  ]
]

pub steady : {db after : Db} → after ≡ db → IsConsistent db → IsConsistent after
steady e v = rw e v

mapped_by-db :
    {A : Type 0} (f : RepoError → ServiceError) (op : Op A) (db : Db)
    → (mapped_by f op db).1 ≡ (op db).1
mapped_by-db f op db = elim (Result-cases (op db).0) [
  | inl (e, h) ↦ ground (arith, h)
  | inr (a, h) ↦ ground (arith, h)
]

-- A change of status that concerns a cell that nobody holds, to a status that stands for no hold.
abbrev pub IsEmptyMove : Db → Text → Option StatusBody → Type 0
IsEmptyMove db locker body =
    (id : ℤ) (b : StatusBody) (status : LockerStatus)
    → parse_int locker ≡ some id
    → body ≡ some b
    → locker_status? (trim_space (to_lower b.status)) ≡ some status
    → (count (is_on selected (word id)) db.sessions ≡ 0)
      × (count (is_on active (word id)) db.sessions ≡ 0)
      × (locker_is status reserved ≡ false)
      × (locker_is status occupied ≡ false)

update-IsConsistent :
    (now actor : ℕ) (role : Text) (id : ℕ) (raw reason : Text) (db : Db)
    → IsConsistent db
    → ((status : LockerStatus)
        → locker_status? (trim_space (to_lower raw)) ≡ some status
        → IsConsistent (update_status now id status (trim_space reason) actor db).1)
    → IsConsistent (update_locker_status now actor role id raw reason db).1
unfolding update_locker_status
update-IsConsistent now actor role id raw reason db v moved = elim (Bool-cases (can_manage role)) [
  | inr h ↦ steady (ground (arith, h)) v
  | inl h ↦ elim (Option-cases (locker_status? (trim_space (to_lower raw)))) [
    | inl k ↦ steady (ground (arith, h, k)) v
    | inr (status, k) ↦
        steady
          (ground (
            arith,
            h,
            k,
            mapped_by-db status_error (update_status now id status (trim_space reason) actor) db,
          ))
          (moved status k)
  ]
]

pub patch-IsConsistent :
    (now : ℕ) (rid : Text) (c : Claims) (locker : Text) (body : Option StatusBody) (db : Db)
    → IsConsistent db
    → IsEmptyMove db locker body
    → IsConsistent (Admins.patch_locker_status now rid (some c) locker body db).1
unfolding Admins.patch_locker_status
patch-IsConsistent now rid c locker body db v calm = elim (Option-cases (parse_int locker)) [
  | inl h ↦ steady (ground (arith, h)) v
  | inr (id, h) ↦ elim (Option-cases body) [
    | inl k ↦ steady (ground (arith, h, k)) v
    | inr (b, k) ↦ steady (ground (arith, h, k)) (
        update-IsConsistent now (word c.admin_id) c.role (word id) b.status b.reason db v
          (λ status l.
            let (s, a, r, o) = calm id b status h k l in
            update_status-IsConsistent now (word id) status (trim_space b.reason) (word c.admin_id)
              db v s a r o))
  ]
]
