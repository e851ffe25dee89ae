-- ===== src/Older/Lockers.antt =====
-- internal/repository/locker_repository.go and internal/service/locker_service.go.
use locker.Prelude.{
  ℕ, ◌+◌, Bool, ◌&&◌, ◌||◌, Option, none, some, List, [], ◌∷◌, ◌++◌, Text, codes, text_eq, ◌==◌,
  holds_text, not,
}
use locker.Table.{find, filter, update, exists}
use locker.Table.Pages.{order_by}
use locker.Domain.{LockerStatus, free, locker_is, Locker}
use locker.Store.{
  Db, Result, RepoError, ok, err, store_failed, Op, ◌>>=◌, ◌>>◌, pure, gets, fail_if, exec, or_fail,
}
use locker.Auth.Accounts.{now_unix}

-- A `Scan` into the entity, whose `HardwareID` and `LastEventAt` are plain variables.
unfoldable pub scan_locker : Locker → Option Locker
scan_locker l = elim l.hardware_id [
  | none ↦ none
  | some h ↦ elim l.last_event_at [ none ↦ none | some t ↦ some l ]
]

-- The loop over the rows.
unfoldable pub scan_lockers : List Locker → Option (List Locker)
unfolding scan_locker
scan_lockers [] = some []
scan_lockers (l ∷ ls) = elim (scan_locker l) [
  | none ↦ none
  | some k ↦ elim (scan_lockers ls) [ none ↦ none | some ks ↦ some (k ∷ ks) ]
]

-- `sql.ErrNoRows` is passed on like any other error.
unfoldable pub get_by_id : ℕ → Op Locker
unfolding find scan_locker
get_by_id id = do
  row ← gets (λ db. find (λ l. l.id == id) db.lockers)
  l ← or_fail row store_failed
  or_fail (scan_locker l) store_failed

unfoldable pub get_by_location_id : ℕ → Op (List Locker)
unfolding filter scan_lockers
get_by_location_id location = do
  rows ←
      gets (λ db. order_by (λ l. l.locker_no) (filter (λ l. l.location_id == location) db.lockers))
  or_fail (scan_lockers rows) store_failed

abbrev pub is_free_of : ℕ → Text → Locker → Bool
is_free_of location size l =
    l.location_id == location && text_eq l.size size && locker_is l.status free && l.is_active

unfoldable pub get_free_by_size : ℕ → Text → Op Locker
unfolding find scan_locker text_eq
get_free_by_size location size = do
  row ← gets (λ db. find (is_free_of location size) db.lockers)
  l ← or_fail row store_failed
  or_fail (scan_locker l) store_failed

unfoldable pub update_locker : ℕ → LockerStatus → Op (Unit {0})
unfolding update
update_locker id status = exec (λ db. record db {
  lockers =
      update (λ l. l.id == id) (λ l. record l { status = status; updated_at = now_unix })
        db.lockers;
})

-- The columns that are UNIQUE: the number in its location, and the hardware's id.
abbrev pub clashes : Locker → Locker → Bool
clashes l k = (k.location_id == l.location_id && k.locker_no == l.locker_no) || elim l.hardware_id [
  | none ↦ holds_text k.hardware_id []
  | some h ↦ holds_text k.hardware_id h
]

-- The row that `Create` inserts: an id of the hardware that the entity leaves empty is an empty text.
abbrev pub inserted : ℕ → Locker → Locker
inserted id l = record l {
  id = id;
  hardware_id = elim l.hardware_id [ none ↦ some [] | some h ↦ some h ];
  updated_at = now_unix;
  last_event_at = none;
}

-- The location has to be there.
unfoldable pub create : Locker → Op ℕ
unfolding exists text_eq
create l = do
  known ← gets (λ db. exists (λ k. k.id == l.location_id) db.locations)
  fail_if (not known) store_failed
  taken ← gets (λ db. exists (clashes l) db.lockers)
  fail_if taken store_failed
  id ← gets (λ db. db.next_locker)
  exec (λ db. record db {
    lockers = db.lockers ++ inserted id l ∷ [];
    next_locker = db.next_locker + 1;
  })
  pure id

-- `LockerService`; the error of `GetFreeLocker` is a text.
unfoldable pub locker_service_get : ℕ → Op Locker
locker_service_get id = get_by_id id

unfoldable pub get_location_lockers : ℕ → Op (List Locker)
get_location_lockers location = get_by_location_id location

abbrev pub or_no_free : Result RepoError Locker → Result Text Locker
or_no_free (ok l) = ok l
or_no_free (err e) = err (codes "no free locker available")

unfoldable pub get_free_locker : ℕ → Text → Db → Result Text Locker
unfolding get_free_by_size
get_free_locker location size db = or_no_free (get_free_by_size location size db).0

unfoldable pub create_locker : Locker → Op ℕ
unfolding create
create_locker l = create (record l { status = free })
