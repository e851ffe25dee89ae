-- ===== src/Service/Flow/Codes.antt =====
-- The codes that `genAccessCode` draws, as a customer types them.
use locker.Prelude.{
  ℕ, suc, zero, ◌≡◌, refl, Option, false, none, some, List, [], ◌∷◌, Text, All, length, get_elem?,
  arith, Option-cases, inl, inr,
}
use mathlib.Core.Path.{subst, sym}
use locker.Strings.{to_lower, to_upper, trim_space, upper_byte, lower_byte, is_space}
use locker.Strings.Case.{to_upper-to_lower, trim_space_solid}
use locker.Rental.Ids.{draw_letters, code_letters, letter, gen_access_code}
use locker.Service.Flow.{normal_code}

-- A byte of a code: upper case already, and no space, in either case.
abbrev IsPlain : ℕ → Type 0
IsPlain c = (upper_byte c ≡ c) × (is_space (lower_byte c) ≡ false)

code_letters-All : All IsPlain code_letters
unfolding upper_byte lower_byte is_space
code_letters-All = ground arith

All-get_elem? : (xs : List ℕ) (i : ℕ) {c : ℕ} → All IsPlain xs → get_elem? xs i ≡ some c → IsPlain c
All-get_elem? [] i a e = absurd (no_elem e)
  where
    no_elem : {x : ℕ} → Path (Option ℕ) none (some x) → ⊥
    no_elem h = cc
All-get_elem? (x ∷ xs) zero {c} a e = let same : x ≡ c = ground arith in subst IsPlain same a.0
All-get_elem? (x ∷ xs) (suc i) a e = All-get_elem? xs i a.1 e

-- A text of plain bytes, one for each draw.
abbrev IsCode : List ℕ → Text → Type 0
IsCode draws code = All IsPlain code × (length code ≡ length draws)

draw_letters-IsCode :
    (draws : List ℕ) {code : Text} → draw_letters code_letters draws ≡ some code → IsCode draws code
unfolding draw_letters
draw_letters-IsCode [] {code} e =
    let same : code ≡ [] = ground arith in subst (IsCode []) (sym same) (tt, refl)
draw_letters-IsCode (i ∷ is) {code} e = elim (Option-cases (letter code_letters i)) [
  | inl h ↦ absurd (ground (arith, h, e))
  | inr (c, h) ↦ elim (Option-cases (draw_letters code_letters is)) [
    | inl h' ↦ absurd (ground (arith, h, h', e))
    | inr (rest, h') ↦
        let same : code ≡ c ∷ rest = ground (arith, h, h', e) in
        let (plain, long) = draw_letters-IsCode is h' in
        subst (IsCode (i ∷ is)) (sym same)
          ((All-get_elem? code_letters i code_letters-All h, plain), omega (arith, long))
  ]
]

trim_plain : (code : Text) → All IsPlain code → trim_space (to_lower code) ≡ to_lower code
unfolding to_lower
trim_plain code plain = trim_space_solid (to_lower code) (solid code plain)
  where
    solid : (s : Text) → All IsPlain s → All (λ c. is_space c ≡ false) (to_lower s)
    solid [] a = tt
    solid (c ∷ s) a = (a.0.1, solid s a.1)

upper_plain : (code : Text) → All IsPlain code → to_upper code ≡ code
unfolding to_upper
upper_plain [] a = refl
upper_plain (c ∷ s) a = ground (arith, upper_plain s a.1, a.0.0)

-- A code that six draws give has six bytes, which is what `CheckAccessCode` asks for, and the code
-- is what that check reads where the customer types it in lower case.
pub gen_access_code-normal_code :
    (draws : List ℕ) {code : Text}
    → length draws ≡ 6
    → gen_access_code draws ≡ some code
    → (length code ≡ 6) × (normal_code (to_lower code) ≡ code)
unfolding gen_access_code normal_code
gen_access_code-normal_code draws {code} six e =
    let (plain, long) = draw_letters-IsCode draws e in
    (
      omega (arith, long, six),
      rw (trim_plain code plain, to_upper-to_lower code, upper_plain code plain),
    )
