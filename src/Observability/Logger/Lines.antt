-- ===== src/Observability/Logger/Lines.antt =====
-- The fields that a line of the logger shows.
use locker.Prelude.{
  ◌≡◌, refl, false, Option, some, List, [], ◌∷◌, ◌++◌, All, Text, text_eq, eq_of_text_eq,
  text_eq_refl, if◌then◌else◌, arith, Bool-cases, inl, inr,
}
use locker.Observability.Logger.{
  Value, text, thing, Payload, put, field, key_of, with_fields, Logger, written, base,
}

-- The arguments of a call with keys and values.
abbrev pub in_pairs : List (Text × Value) → List Value
in_pairs [] = []
in_pairs ((k, v) ∷ ps) = text k ∷ v ∷ in_pairs ps

-- The last value of a key, or another.
abbrev pub last_value : Text → List (Text × Value) → Option Value → Option Value
last_value k [] old = old
last_value k ((j, v) ∷ ps) old = last_value k ps (if text_eq j k then some v else old)

abbrev pub HasKey : Text × Value → Type 0
HasKey (k, v) = text_eq k [] ≡ false

field-put :
    (k j : Text) (v : Value) (m : Payload)
    → field k (put j v m) ≡ (if text_eq j k then some v else field k m)
unfolding field put
field-put k j v [] = refl
field-put k j v ((i, w) ∷ m) = elim (Bool-cases (text_eq i j)) [
  | inl same ↦
      rw (same, eq_of_text_eq i j same)
        (elim (Bool-cases (text_eq j k)) [ inl e ↦ rw e | inr e ↦ rw e ])
  | inr other ↦ elim (Bool-cases (text_eq i k)) [
    | inl e ↦ elim (Bool-cases (text_eq j k)) [
      | inl d ↦
          absurd (ground (arith, other, eq_of_text_eq i k e, eq_of_text_eq j k d, text_eq_refl k))
      | inr d ↦ rw (other, e, d)
    ]
    | inr e ↦ rw (other, field, e) (field-put k j v m)
  ]
]

field-with_fields :
    (k : Text) (ps : List (Text × Value)) (m : Payload)
    → All HasKey ps
    → field k (with_fields (in_pairs ps) m) ≡ last_value k ps (field k m)
unfolding with_fields
field-with_fields k [] m h = refl
field-with_fields k (([], v) ∷ ps) m h = absurd (ground (arith, h.0))
field-with_fields k ((c ∷ j, v) ∷ ps) m h =
    rw (← field-put k (c ∷ j) v m) (field-with_fields k ps (put (c ∷ j) v m) h.1)

-- A line with keys and values shows, for each key, the value that was given last, and otherwise what
-- every line shows under it: the time, the level, the message and the environment.
pub field-written :
    (l : Logger) (level msg k : Text) (ps : List (Text × Value))
    → All HasKey ps
    → field k (written l level msg (in_pairs ps)) ≡ last_value k ps (field k (base l level msg))
unfolding written
field-written l level msg k ps h = field-with_fields k ps (base l level msg) h

lost :
    (ps : List (Text × Value)) (e e' : Text) (m : Payload)
    → with_fields (in_pairs ps ++ thing e ∷ []) m ≡ with_fields (in_pairs ps ++ thing e' ∷ []) m
unfolding with_fields
lost [] e e' m = refl
lost ((k, v) ∷ ps) e e' m = lost ps e e' (put (key_of (text k)) v m)

-- An error that is given without a key, as the last argument, does not show in the line: the line is the
-- same for every error.
pub written_lost :
    (l : Logger) (level msg : Text) (ps : List (Text × Value)) (e e' : Text)
    → written l level msg (in_pairs ps ++ thing e ∷ [])
      ≡ written l level msg (in_pairs ps ++ thing e' ∷ [])
unfolding written
written_lost l level msg ps e e' = lost ps e e' (base l level msg)
