-- ===== src/Service/Phone/Normal.antt =====
-- A normalised phone: what it looks like, that it is stable, and what its mask shows.
use locker.Prelude.{
  ℕ, suc, ◌≡◌, refl, inl, inr, true, none, some, [], ◌∷◌, ◌++◌, Text, codes, ◌==◌, zero,
  length-append, if◌then◌else◌, Option, length, drop, All, arith, Bool-cases,
}
use locker.Service.Numbers.{is_digit}
use locker.Service.Phone.{digits_of, normal_head, normalize_phone, mask_phone}

digits_of-All : (s : Text) → All (λ c. is_digit c ≡ true) (digits_of s)
unfolding digits_of
digits_of-All [] = tt
digits_of-All (c ∷ s) = elim (Bool-cases (is_digit c)) [
  | inl e ↦ rw e (e, digits_of-All s)
  | inr e ↦ rw e (digits_of-All s)
]

digits_of_solid : (s : Text) → All (λ c. is_digit c ≡ true) s → digits_of s ≡ s
unfolding digits_of
digits_of_solid [] a = refl
digits_of_solid (c ∷ s) a = rw (a.0, digits_of_solid s a.1)

abbrev IsNormal : Text → Type 0
IsNormal q = (d : Text) × (q ≡ b'+' ∷ b'7' ∷ d) × (length d ≡ 10) × All (λ c. is_digit c ≡ true) d

normal_head-IsNormal :
    (ds : Text) {q : Text}
    → All (λ c. is_digit c ≡ true) ds
    → (if length ds == 11 then normal_head ds else none) ≡ some q
    → IsNormal q
normal_head-IsNormal [] a e = elim (no_text e) [ ]
  where
    no_text : {t : Text} → Path (Option Text) none (some t) → ⊥
    no_text h = cc
normal_head-IsNormal (c ∷ ds) a e = (ds, ground arith, ground arith, a.1)

-- A phone that is accepted becomes +7 and ten digits.
pub normalize_phone-shape :
    (phone : Text) {q : Text}
    → normalize_phone phone ≡ some q
    → (d : Text) × (q ≡ b'+' ∷ b'7' ∷ d) × (length d ≡ 10) × All (λ c. is_digit c ≡ true) d
unfolding normalize_phone
normalize_phone-shape phone e = normal_head-IsNormal (digits_of phone) (digits_of-All phone) e

normalize_normal :
    (d : Text)
    → length d ≡ 10
    → All (λ c. is_digit c ≡ true) d
    → normalize_phone (b'+' ∷ b'7' ∷ d) ≡ some (b'+' ∷ b'7' ∷ d)
unfolding normalize_phone is_digit
normalize_normal d n a = rw (digits_of_solid d a) (ground (arith, n))

-- Normalising a phone again changes nothing.
pub normalize_phone_idem :
    (phone : Text) {q : Text} → normalize_phone phone ≡ some q → normalize_phone q ≡ some q
normalize_phone_idem phone e =
    let (d, shape, n, a) = normalize_phone-shape phone e in rw shape (normalize_normal d n a)

-- The Russian prefixes 8 and +7 stand for each other before ten digits.
pub normalize_phone-prefix :
    (d : Text)
    → All (λ c. is_digit c ≡ true) d
    → normalize_phone (b'8' ∷ d) ≡ normalize_phone (b'+' ∷ b'7' ∷ d)
unfolding normalize_phone is_digit
normalize_phone-prefix d a = rw (digits_of_solid d a) (ground arith)

drop_at : (k : ℕ) (m t : Text) → length m ≡ k → drop k (m ++ t) ≡ t
drop_at zero [] t n = refl
drop_at zero (c ∷ m) t n = absurd (omega arith)
drop_at (suc k) [] t n = absurd (omega arith)
drop_at (suc k) (c ∷ m) t n = drop_at k m t (omega arith)

-- The mask of a phone of the normal length shows +7, the digit behind it and the last two; the seven
-- between do not show.
pub mask_phone-normal :
    (a y z : ℕ) (m : Text)
    → length m ≡ 7
    → mask_phone (b'+' ∷ b'7' ∷ a ∷ (m ++ y ∷ z ∷ []))
      ≡ b'+' ∷ b'7' ∷ a ∷ (codes "******" ++ y ∷ z ∷ [])
unfolding mask_phone
mask_phone-normal a y z m n =
    let nine : length (m ++ y ∷ z ∷ []) ≡ 9 = omega (arith, length-append m (y ∷ z ∷ []), n) in
    rw nine (rw (drop_at 7 m (y ∷ z ∷ []) n))
