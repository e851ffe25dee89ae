-- ===== src/Service/Dates/Printed.antt =====
-- `Format("2006-01-02")`, against `Parse`.
use locker.Prelude.{
  ℕ, ◌+◌, ◌*◌, ◌/◌, ◌%◌, ◌<◌, ◌≡◌, refl, Option, none, some, [], ◌∷◌, ◌++◌, Text, arith,
  Option-cases, inl, inr,
}
use locker.Service.Numbers.{is_digit}
use locker.Service.Dates.{Date, skip, two_digits, four_digits, read_date, parse_date, ◌>>=◌}

-- The text of a date, in the layout `2006-01-02`.
unfoldable pub digit_of : ℕ → ℕ
digit_of n = b'0' + n % 10

unfoldable pub date_text : Date → Text
unfolding digit_of
date_text d =
    digit_of (d.year / 1000)
    ∷ digit_of (d.year / 100)
    ∷ digit_of (d.year / 10)
    ∷ digit_of d.year
    ∷ b'-'
    ∷ digit_of (d.month / 10)
    ∷ digit_of d.month
    ∷ b'-'
    ∷ digit_of (d.day / 10)
    ∷ digit_of d.day
    ∷ []

two_digits-text :
    (s r : Text) (n : ℕ) → two_digits s ≡ some (n, r) → s ≡ digit_of (n / 10) ∷ digit_of n ∷ r
unfolding two_digits is_digit digit_of
two_digits-text [] r n e = cc
two_digits-text (a ∷ []) r n e = cc
two_digits-text (a ∷ b ∷ s) r n e = ground (arith, e)

two_digits-small : (s r : Text) (n : ℕ) → two_digits s ≡ some (n, r) → n < 100
unfolding two_digits is_digit
two_digits-small [] r n e = absurd cc
two_digits-small (a ∷ []) r n e = absurd cc
two_digits-small (a ∷ b ∷ s) r n e = ground (arith, e)

-- The digits of a number of four, from those of its halves.
high :
    (h l : ℕ)
    → h < 100
    → l < 100
    → (digit_of ((h * 100 + l) / 1000) ≡ digit_of (h / 10))
      × (digit_of ((h * 100 + l) / 100) ≡ digit_of h)
unfolding digit_of
high h l a b = (omega (arith, a, b), omega (arith, a, b))

low :
    (h l : ℕ)
    → h < 100
    → l < 100
    → (digit_of ((h * 100 + l) / 10) ≡ digit_of (l / 10)) × (digit_of (h * 100 + l) ≡ digit_of l)
unfolding digit_of
low h l a b = (omega (arith, a, b), omega (arith, a, b))

skip-text : (c : ℕ) (s r : Text) → skip c s ≡ some r → s ≡ c ∷ r
skip-text c [] r e = cc
skip-text c (d ∷ s) r e = ground (arith, e)

-- A chain that returns has returned at each step.
bind-some :
    {A B : Type 0} (m : Option A) (f : A → Option B) {b : B}
    → (m >>= f) ≡ some b
    → (a : A) × (m ≡ some a) × (f a ≡ some b)
bind-some none f e = absurd cc
bind-some (some a) f e = (a, refl, e)

four_digits-text :
    (s r : Text) (n : ℕ)
    → four_digits s ≡ some (n, r)
    → s ≡ digit_of (n / 1000) ∷ digit_of (n / 100) ∷ digit_of (n / 10) ∷ digit_of n ∷ r
unfolding four_digits
four_digits-text s r n e =
    let ((h, t), z, e) = bind-some (two_digits s) _ e in
    let ((l, u), y, e) = bind-some (two_digits t) _ e in
    let a = two_digits-small s t h z in
    let b = two_digits-small t u l y in
    ground (arith, e, two_digits-text s t h z, two_digits-text t u l y, high h l a b, low h l a b)

-- What a date is read from, and what is left.
read_date-text : (s : Text) (d : Date) (r : Text) → read_date s ≡ some (d, r) → s ≡ date_text d ++ r
unfolding read_date date_text
read_date-text s d r e =
    let ((y, s1), a, e) = bind-some (four_digits s) _ e in
    let (s2, b, e) = bind-some (skip b'-' s1) _ e in
    let ((m, s3), c, e) = bind-some (two_digits s2) _ e in
    let (s4, f, e) = bind-some (skip b'-' s3) _ e in
    let ((n, s5), g, e) = bind-some (two_digits s4) _ e in
    ground (
      arith,
      e,
      four_digits-text s s1 y a,
      skip-text b'-' s1 s2 b,
      two_digits-text s2 s3 m c,
      skip-text b'-' s3 s4 f,
      two_digits-text s4 s5 n g,
    )

-- A text that is read as a date is that date's text: four digits, two and two, with dashes.
pub parse_date-date_text : (s : Text) (d : Date) → parse_date s ≡ some d → s ≡ date_text d
unfolding parse_date date_text
parse_date-date_text s d e = elim (Option-cases (read_date s)) [
  | inl z ↦ absurd (ground (arith, e, z))
  | inr ((d', []), z) ↦ ground (arith, e, z, read_date-text s d' [] z)
  | inr ((d', c ∷ r), z) ↦ absurd (ground (arith, e, z))
]
