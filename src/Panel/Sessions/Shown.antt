-- ===== src/Panel/Sessions/Shown.antt =====
-- What a page of `ListSessions` shows, and in which order.
use mathlib.Core.List.{Mem}
use locker.Prelude.{
  ℕ, ◌≤◌, ◌≡◌, refl, ap, ◌∙◌, Bool, true, false, ◌&&◌, leb, ◌==◌, Option, none, some, List, [], ◌∷◌,
  map, holds_num, arith, All, All-mono, Option-cases, Bool-cases, inl, inr,
}
use locker.Table.{find, filter, count, exists}
use locker.Table.Counting.{find-true, All-filter}
use locker.Table.Members.{All-Mem, All-pair, find-Mem, count-filter, count-map}
use locker.Table.Pages.{order_down, page-all, in_order-All, count-in_order, length-in_order-filter}
use locker.Table.Sorted.{
  IsSorted, IsSorted-page, IsSorted-map, in_order-IsSorted, All-page, All-map,
}
use locker.Table.Ordered.{filter-All}
use locker.Domain.{StorageSession, Locker}
use locker.Store.{Db}
use locker.Panel.Sessions.{
  Stay, SessionFilter, is_chosen, SessionItem, session_item, cell_of_session, stays, panel_sessions,
}

-- The item shows a session of the database beside the cell that it is on, and the filter chooses both.
pub record Shows (f : SessionFilter) (db : Db) (i : SessionItem) : Type 0 where
  pub session : StorageSession
  pub cell : Locker
  pub of_sessions : Mem session db.sessions
  pub of_lockers : Mem cell db.lockers
  pub joined : session.locker_cell_id ≡ some cell.id
  pub chosen : is_chosen f (record { session = session; cell = cell }) ≡ true
  pub item : i ≡ session_item (record { session = session; cell = cell })

-- The last started first.
abbrev pub NotLater : SessionItem → SessionItem → Type 0
NotLater i j = j.started_at ≤ i.started_at

-- The session is on the cell, and both make a row that a test holds of.
abbrev pub pairs : (Stay → Bool) → StorageSession → Locker → Bool
pairs p s l = holds_num s.locker_cell_id l.id && p (record { session = s; cell = l })

-- A row of the join, by its parts.
abbrev IsJoined : Db → Stay → Type 0
IsJoined db r =
    Mem r.session db.sessions × Mem r.cell db.lockers × (r.session.locker_cell_id ≡ some r.cell.id)

cell-IsJoined :
    (db : Db) (s : StorageSession) {l : Locker}
    → cell_of_session db.lockers s ≡ some l
    → Mem l db.lockers × (s.locker_cell_id ≡ some l.id)
unfolding cell_of_session
cell-IsJoined db s {l} e = elim (Option-cases s.locker_cell_id) [
  | inl n ↦ absurd (ground (arith, e, n))
  | inr (c, h) ↦
      let row : find (λ k. k.id == c) db.lockers ≡ some l = ground (arith, e, h) in
      let same : c ≡ l.id = ground (arith, find-true (λ k. k.id == c) db.lockers row) in
      (find-Mem (λ k. k.id == c) db.lockers row, h ∙ ap some same)
]

stays-IsJoined :
    (db : Db) (ss : List StorageSession)
    → All (λ s. Mem s db.sessions) ss
    → All (IsJoined db) (stays db.lockers ss)
unfolding stays
stays-IsJoined db [] m = tt
stays-IsJoined db (s ∷ ss) m = elim (Option-cases (cell_of_session db.lockers s)) [
  | inl n ↦ rw (n, All) (stays-IsJoined db ss m.1)
  | inr (l, e) ↦
      let (there, at) = cell-IsJoined db s e in
      rw (e, All) ((m.0, there, at), stays-IsJoined db ss m.1)
]

abbrev found : (Locker → Bool) → Option Locker → Bool
found p none = false
found p (some l) = p l

-- Where a cell has its id for itself, to look for a cell of the id and the test is to test that cell.
module _ (p : Locker → Bool) (c : ℕ) where
  none_other :
      (ls : List Locker) → count (λ l. l.id == c) ls ≡ 0 → exists (λ l. c == l.id && p l) ls ≡ false
  unfolding count exists
  none_other [] h = refl
  none_other (l ∷ ls) h = ground (arith, h, none_other ls)

  exists_found :
      (ls : List Locker)
      → count (λ l. l.id == c) ls ≤ 1
      → exists (λ l. c == l.id && p l) ls ≡ found p (find (λ l. l.id == c) ls)
  unfolding count exists find
  exists_found [] h = refl
  exists_found (l ∷ ls) h = elim (Bool-cases (l.id == c)) [
    | inl hit ↦ ground (arith, hit, h, none_other ls)
    | inr miss ↦ ground (arith, miss, h, exists_found ls)
  ]

exists_at :
    (q : Locker → Bool) (ls : List Locker) (at : Option ℕ)
    → ((c : ℕ) → count (λ l. l.id == c) ls ≤ 1)
    → exists (λ l. holds_num at l.id && q l) ls
      ≡ found q (elim at [ none ↦ none | some c ↦ find (λ l. l.id == c) ls ])
unfolding exists
exists_at q ls none once = nobody ls
  where
    nobody : (ks : List Locker) → exists (λ l. false) ks ≡ false
    nobody [] = refl
    nobody (k ∷ ks) = nobody ks
exists_at q ls (some c) once = exists_found q c ls (once c)

exists_pairs :
    (p : Stay → Bool) (ls : List Locker) (s : StorageSession)
    → ((c : ℕ) → count (λ l. l.id == c) ls ≤ 1)
    → exists (pairs p s) ls
      ≡ found (λ l. p (record { session = s; cell = l })) (cell_of_session ls s)
unfolding cell_of_session
exists_pairs p ls s once =
    exists_at (λ l. p (record { session = s; cell = l })) ls s.locker_cell_id once

-- No row of the join is lost or doubled.
count-stays :
    (p : Stay → Bool) (ls : List Locker) (ss : List StorageSession)
    → ((c : ℕ) → count (λ l. l.id == c) ls ≤ 1)
    → count p (stays ls ss) ≡ count (λ s. exists (pairs p s) ls) ss
unfolding stays count
count-stays p ls [] once = refl
count-stays p ls (s ∷ ss) once =
    let rest = count-stays p ls ss once in
    let here = exists_pairs p ls s once in
    elim (Option-cases (cell_of_session ls s)) [
      | inl n ↦ ground (arith, n, rest, here)
      | inr (l, e) ↦ ground (arith, e, rest, here)
    ]

module _ (f : SessionFilter) (limit offset : ℕ) (db : Db) where
  abbrev rows : List Stay
  rows = filter (is_chosen f) (stays db.lockers db.sessions)

  abbrev ordered : List Stay
  ordered = order_down (λ r. r.session.started_at) rows

  rows-Shows : All (λ r. Shows f db (session_item r)) rows
  rows-Shows =
      All-mono (λ r. IsJoined db r × (is_chosen f r ≡ true)) _ rows
        (λ r h. record {
          session = r.session;
          cell = r.cell;
          of_sessions = h.0.0;
          of_lockers = h.0.1;
          joined = h.0.2;
          chosen = h.1;
          item = refl;
        })
        (All-pair (IsJoined db) (λ r. is_chosen f r ≡ true) rows
          (All-filter (IsJoined db) (is_chosen f) (stays db.lockers db.sessions)
            (stays-IsJoined db db.sessions (All-Mem db.sessions)))
          (filter-All (is_chosen f) (stays db.lockers db.sessions)))

  -- The page with room for all rows has all of them.
  count-panel_sessions :
      (p : SessionItem → Bool)
      → ((c : ℕ) → count (λ l. l.id == c) db.lockers ≤ 1)
      → count p (panel_sessions f (panel_sessions f limit offset db).1 0 db).0
        ≡ count
            (λ s. exists (pairs (λ r. is_chosen f r && p (session_item r)) s) db.lockers)
            db.sessions
  unfolding panel_sessions session_item
  count-panel_sessions p once =
      let total =
        length-in_order-filter (λ x y. leb y.session.started_at x.session.started_at) (is_chosen f)
          (stays db.lockers db.sessions) in
      rw (← total) (
        ap (λ rs. count p (map session_item rs)) (page-all ordered)
        ∙ count-map p session_item ordered
        ∙ count-in_order (λ x y. leb y.session.started_at x.session.started_at)
            (λ r. p (session_item r)) rows
        ∙ count-filter (λ r. p (session_item r)) (is_chosen f) (stays db.lockers db.sessions)
        ∙ count-stays (λ r. is_chosen f r && p (session_item r)) db.lockers db.sessions once)

  -- Where cells have their ids for themselves: each item of a page shows a session of the database with
  -- its own cell, which the filter chooses; those that were started later stand first; and the page
  -- with room for the total has each session with a cell that the filter chooses exactly once, by any
  -- test that counts items.
  pub panel_sessions-IsSorted :
      (p : SessionItem → Bool)
      → ((c : ℕ) → count (λ l. l.id == c) db.lockers ≤ 1)
      → All (Shows f db) (panel_sessions f limit offset db).0
        × IsSorted NotLater (panel_sessions f limit offset db).0
        × (count p (panel_sessions f (panel_sessions f limit offset db).1 0 db).0
            ≡ count
                (λ s. exists (pairs (λ r. is_chosen f r && p (session_item r)) s) db.lockers)
                db.sessions)
  unfolding panel_sessions session_item
  panel_sessions-IsSorted p once = (
    All-map (Shows f db) session_item _ (
        All-page (λ r. Shows f db (session_item r)) limit offset ordered
          (in_order-All _ _ rows rows-Shows)),
    IsSorted-map NotLater session_item _ (
        IsSorted-page _ limit offset ordered (
          in_order-IsSorted (λ x y. leb y.session.started_at x.session.started_at) _
            (λ x y h. ground (arith, h)) (λ x y h. ground (arith, h))
            (λ x y z a b. omega (arith, a, b)) rows)),
    count-panel_sessions p once,
  )
