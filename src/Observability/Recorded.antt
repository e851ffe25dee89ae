-- ===== src/Observability/Recorded.antt =====
-- What `responseRecorder` has seen, against what the connection has sent.
use locker.Strings.{to_lower}
use locker.Prelude.{
  ℕ, ◌≡◌, refl, Bool, true, false, ◌&&◌, leb, ltb, codes, Option, none, some, List, [], ◌∷◌, Text,
  text_eq, ◌==◌, if◌then◌else◌, arith,
}
use locker.Observability.{Writer}
use locker.Observability.Middleware.{Recorder, recording, or_ok}
use locker.Observability.Replies.{Deed, set_header, write_header, write, play}

abbrev pub id_header : Text
id_header = codes "X-Request-Id"

-- The key of a header is `X-Request-Id`, in whatever case its letters are.
abbrev pub names_id : Text → Bool
names_id k = text_eq (to_lower k) (codes "x-request-id")

-- A status of three digits that is not an informational one.
abbrev pub is_code : ℕ → Bool
is_code n = leb 200 n && ltb n 1000

-- What net/http documents of a connection's `http.ResponseWriter`, by the status that it has sent and by
-- the value of `X-Request-Id` in the headers that go with it, or that have been set so far: the first
-- `WriteHeader` with such a status sends it, a `Write` before it sends 200, later ones send none. Nothing
-- is asked for another status, with which `WriteHeader` panics or goes on, or for the other headers,
-- such as the `Content-Type` that a `Write` finds out.
pub record IsConnection {S : Type 0} (w : Writer S) (status : S → Option ℕ) (id : S → Option Text)
    : Type 0 where
  pub first_header :
      (n : ℕ) (s : S) → is_code n ≡ true → status s ≡ none → status (w.write_header n s) ≡ some n
  pub later_header :
      (n m : ℕ) (s : S)
      → is_code n ≡ true
      → status s ≡ some m
      → status (w.write_header n s) ≡ some m
  pub first_write : (b : Text) (s : S) → status s ≡ none → status (w.write b s).1 ≡ some 200
  pub later_write : (b : Text) (m : ℕ) (s : S) → status s ≡ some m → status (w.write b s).1 ≡ some m
  pub same_status : (k v : Text) (s : S) → status (w.set_header k v s) ≡ status s
  pub set_id : (v : Text) (s : S) → status s ≡ none → id (w.set_header id_header v s) ≡ some v
  pub set_other : (k v : Text) (s : S) → names_id k ≡ false → id (w.set_header k v s) ≡ id s
  pub header_kept : (n : ℕ) (s : S) → is_code n ≡ true → id (w.write_header n s) ≡ id s
  pub write_kept : (b : Text) (s : S) → id (w.write b s).1 ≡ id s

-- No status is given any more.
abbrev pub IsRest : List Deed → Type 0
IsRest [] = Unit
IsRest (set_header k v ∷ ds) = IsRest ds
IsRest (write_header n ∷ ds) = ⊥
IsRest (write b ∷ ds) = IsRest ds

-- The status is given at most once, and before the first byte.
abbrev pub IsOnce : List Deed → Type 0
IsOnce [] = Unit
IsOnce (set_header k v ∷ ds) = IsOnce ds
IsOnce (write_header n ∷ ds) = (is_code n ≡ true) × IsRest ds
IsOnce (write b ∷ ds) = IsRest ds

-- The calls leave the header of the id alone, and give only such statuses.
abbrev pub Spares : List Deed → Type 0
Spares [] = Unit
Spares (set_header k v ∷ ds) = (names_id k ≡ false) × Spares ds
Spares (write_header n ∷ ds) = (is_code n ≡ true) × Spares ds
Spares (write b ∷ ds) = Spares ds

-- The status that a sequence of calls leaves in a recorder.
abbrev pub recorded : ℕ → List Deed → ℕ
recorded c [] = c
recorded c (set_header k v ∷ ds) = recorded c ds
recorded c (write_header n ∷ ds) = recorded n ds
recorded c (write b ∷ ds) = recorded (if c == 0 then 200 else c) ds

module _ {S : Type 0} (w : Writer S) where
  -- A recorder passes every call on.
  pub under-play :
      (ds : List Deed) (r : Recorder S) → (play (recording w) ds r).under ≡ play w ds r.under
  unfolding play recording
  under-play [] r = refl
  under-play (set_header k v ∷ ds) r = under-play ds (record r { under = w.set_header k v r.under })
  under-play (write_header n ∷ ds) r =
      under-play ds (record r { under = w.write_header n r.under; status_code = n })
  under-play (write b ∷ ds) r = under-play ds ((recording w).write b r).1

  pub status_code-play :
      (ds : List Deed) (r : Recorder S)
      → (play (recording w) ds r).status_code ≡ recorded r.status_code ds
  unfolding play recording
  status_code-play [] r = refl
  status_code-play (set_header k v ∷ ds) r =
      status_code-play ds (record r { under = w.set_header k v r.under })
  status_code-play (write_header n ∷ ds) r =
      status_code-play ds (record r { under = w.write_header n r.under; status_code = n })
  status_code-play (write b ∷ ds) r = status_code-play ds ((recording w).write b r).1

recorded_rest : (c : ℕ) (ds : List Deed) → is_code c ≡ true → IsRest ds → recorded c ds ≡ c
recorded_rest c [] l h = refl
recorded_rest c (set_header k v ∷ ds) l h = recorded_rest c ds l h
recorded_rest c (write_header n ∷ ds) l h = absurd h
recorded_rest c (write b ∷ ds) l h = ground (arith, l, recorded_rest c ds l h)

-- The status that the client gets: net/http sends 200 where none is sent.
abbrev pub or_default : Option ℕ → ℕ
or_default none = 200
or_default (some n) = n

module _ {S : Type 0} (w : Writer S) {status : S → Option ℕ} {id : S → Option Text}
    (c : IsConnection w status id) where
  status_rest :
      (ds : List Deed) (m : ℕ) (s : S)
      → IsRest ds
      → status s ≡ some m
      → status (play w ds s) ≡ some m
  unfolding play
  status_rest [] m s h e = e
  status_rest (set_header k v ∷ ds) m s h e = status_rest ds m _ h (rw (c.same_status k v s) e)
  status_rest (write_header n ∷ ds) m s h e = absurd h
  status_rest (write b ∷ ds) m s h e = status_rest ds m _ h (c.later_write b m s e)

  -- What is recorded is what is sent.
  pub sent-play :
      (ds : List Deed) (s : S)
      → IsOnce ds
      → status s ≡ none
      → or_default (status (play w ds s)) ≡ or_ok (recorded 0 ds)
  unfolding play
  sent-play [] s h e = rw e
  sent-play (set_header k v ∷ ds) s h e = sent-play ds _ h (rw (c.same_status k v s) e)
  sent-play (write_header n ∷ ds) s h e =
      rw (status_rest ds n _ h.1 (c.first_header n s h.0 e))
        (ground (arith, h.0, recorded_rest n ds h.0 h.1))
  sent-play (write b ∷ ds) s h e =
      rw (status_rest ds 200 _ h (c.first_write b s e), recorded_rest 200 ds refl h)

  -- The id stays.
  pub id-play : (ds : List Deed) (s : S) → Spares ds → id (play w ds s) ≡ id s
  unfolding play
  id-play [] s h = refl
  id-play (set_header k v ∷ ds) s h = rw (← c.set_other k v s h.0) (id-play ds _ h.1)
  id-play (write_header n ∷ ds) s h = rw (← c.header_kept n s h.0) (id-play ds _ h.1)
  id-play (write b ∷ ds) s h = rw (← c.write_kept b s) (id-play ds _ h)
