-- ===== src/Rental/Ids.antt =====
-- `genID` and `genAccessCode`. The draws of `rand.Intn(len(letters))` are an argument.
use locker.Prelude.{ℕ, Option, none, some, List, [], ◌∷◌, ◌++◌, Text, codes, get_elem?}

abbrev pub id_letters : Text
id_letters = codes "abcdefghijklmnopqrstuvwxyz0123456789"

abbrev pub code_letters : Text
code_letters = codes "ABCDEFGHIJKLMNOPQRSTUVWXYZ0123456789"

-- `letters[i]`; an index past the end, which `Intn` does not give, would panic.
abbrev pub letter : Text → ℕ → Option ℕ
letter letters i = get_elem? letters i

-- The loop over `b`: one draw for each byte; `none` is the panic.
unfoldable pub draw_letters : Text → List ℕ → Option Text
draw_letters letters [] = some []
draw_letters letters (i ∷ is) = elim (letter letters i) [
  | none ↦ none
  | some c ↦ elim (draw_letters letters is) [ none ↦ none | some s ↦ some (c ∷ s) ]
]

unfoldable pub gen_id : Text → List ℕ → Option Text
unfolding draw_letters
gen_id prefix draws = elim (draw_letters id_letters draws) [
  | none ↦ none
  | some s ↦ some (prefix ++ b'_' ∷ s)
]

-- The source makes six bytes, so there are six draws.
unfoldable pub gen_access_code : List ℕ → Option Text
unfolding draw_letters
gen_access_code draws = draw_letters code_letters draws
