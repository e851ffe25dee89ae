-- ===== src/Rental/Locations.antt =====
-- `ListLockers`: the locations, each with its free cells by size.
pub mod Selectable
use locker.Prelude.{
  ℕ, Bool, true, false, ◌&&◌, ◌||◌, Option, none, some, List, [], ◌∷◌, ◌++◌, Text, codes, text_eq,
  ◌==◌, if◌then◌else◌,
}
use locker.Strings.{to_lower, to_upper}
use locker.Table.{filter, count}
use locker.Table.Pages.{order_by, page}
use locker.Domain.{free, locker_is, Location, Locker}
use locker.Store.{store_failed, Op, ◌>>=◌, pure, gets, or_fail}

-- Does it hold of the text or of a part that is left at its end?
abbrev pub any_end : (Text → Bool) → Text → Bool
any_end f [] = f []
any_end f (c ∷ s) = if f (c ∷ s) then true else any_end f s

abbrev pub is_empty : Text → Bool
is_empty [] = true
is_empty (c ∷ s) = false

-- One byte, as it stands, then the rest.
abbrev pub same_then : ℕ → (Text → Bool) → Text → Bool
same_then c f [] = false
same_then c f (d ∷ s) = if d == c then f s else false

abbrev pub any_then : (Text → Bool) → Text → Bool
any_then f [] = false
any_then f (d ∷ s) = f s

-- SQL's `text LIKE pattern`: `%` is any text, `_` any byte, and a backslash takes the byte behind it
-- as it stands; the flag says that the last byte was that backslash.
unfoldable pub like : Bool → Text → Text → Bool
like escaped [] s = is_empty s
like true (c ∷ p) s = same_then c (like false p) s
like false (c ∷ p) s =
    let rest = like false p in
    let quoted = like true p in
    if c == b'%'
    then any_end rest s
    else if c == b'_'
    then any_then rest s
    else if c == b'\\'
    then quoted s
    else same_then c rest s

-- `LOWER(column) LIKE '%' || $1 || '%'`, which is not true of NULL.
abbrev pub has_part : Text → Option Text → Bool
has_part part none = false
has_part part (some s) = like false (codes "%" ++ part ++ codes "%") (to_lower s)

unfoldable pub is_searched : Text → Location → Bool
unfolding like text_eq
is_searched city l = text_eq city [] || has_part city (some l.name) || has_part city l.address

-- A row of the answer; its `updatedAt` is the time of the call and is left out.
pub record FreeCells : Type 0 where
  pub id : ℕ
  pub street : Text
  pub s : ℕ
  pub m : ℕ
  pub l : ℕ
  pub xl : ℕ

-- `SUM(CASE WHEN UPPER(k.size)=… AND k.status='free' THEN 1 ELSE 0 END)` over the location's cells.
unfoldable pub free_of_size : ℕ → Text → List Locker → ℕ
unfolding count text_eq
free_of_size location size ls =
    count
      (λ k. k.location_id == location && text_eq (to_upper k.size) size && locker_is k.status free)
      ls

-- A row; an address that is NULL makes the `Scan` fail.
unfoldable pub free_cells : List Locker → Location → Option FreeCells
unfolding free_of_size
free_cells ls l = elim l.address [
  | none ↦ none
  | some street ↦ some (record {
    id = l.id;
    street = street;
    s = free_of_size l.id (codes "S") ls;
    m = free_of_size l.id (codes "M") ls;
    l = free_of_size l.id (codes "L") ls;
    xl = free_of_size l.id (codes "XL") ls;
  })
]

-- The loop over the rows.
unfoldable pub scan_rows : List Locker → List Location → Option (List FreeCells)
unfolding free_cells
scan_rows ls [] = some []
scan_rows ls (l ∷ rest) = elim (free_cells ls l) [
  | none ↦ none
  | some row ↦ elim (scan_rows ls rest) [ none ↦ none | some rows ↦ some (row ∷ rows) ]
]

unfoldable pub list_lockers : Text → ℕ → ℕ → Op (List FreeCells × ℕ)
unfolding is_searched scan_rows page filter count
list_lockers city limit offset = do
  found ← gets (λ db.
      scan_rows db.lockers
        (page limit offset (order_by (λ l. l.id) (filter (is_searched city) db.locations))))
  rows ← or_fail found store_failed
  total ← gets (λ db. count (is_searched city) db.locations)
  pure (rows, total)
