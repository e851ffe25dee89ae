-- ===== src/Observability/Logger.antt =====
-- internal/observability/logger.go: the fields of a line. `json.Marshal`, and the text of a value, are
-- left out: a line is the map that is printed, and its time comes from outside.
pub mod Lines
use locker.Prelude.{ℕ, Bool, Option, none, some, List, [], ◌∷◌, Text, codes, text_eq, if◌then◌else◌}

-- What is given to the logger: a string, a number, or any other value, such as an error.
pub data Value : Type 0 where
  text : Text → Value
  number : ℕ → Value
  thing : Text → Value

-- `map[string]interface{}`.
abbrev pub Payload : Type 0
Payload = List (Text × Value)

-- `payload[key] = v`.
unfoldable pub put : Text → Value → Payload → Payload
unfolding text_eq
put k v [] = (k, v) ∷ []
put k v ((j, w) ∷ m) = if text_eq j k then (k, v) ∷ m else (j, w) ∷ put k v m

unfoldable pub field : Text → Payload → Option Value
unfolding text_eq
field k [] = none
field k ((j, w) ∷ m) = if text_eq j k then some w else field k m

abbrev pub key_of : Value → Text
key_of (text (c ∷ k)) = c ∷ k
key_of (text []) = codes "field"
key_of (number n) = codes "field"
key_of (thing e) = codes "field"

-- The loop over the fields, by two.
unfoldable pub with_fields : List Value → Payload → Payload
unfolding put
with_fields [] m = m
with_fields (k ∷ []) m = put (key_of k) (text (codes "(missing)")) m
with_fields (k ∷ v ∷ fs) m = with_fields fs (put (key_of k) v m)

-- `Logger`, with the time of the line.
pub record Logger : Type 0 where
  pub env : Text
  pub ts : Text

-- What every line shows.
abbrev pub base : Logger → Text → Text → Payload
base l level msg =
    (codes "ts", text l.ts)
    ∷ (codes "level", text level)
    ∷ (codes "msg", text msg)
    ∷ (codes "env", text l.env)
    ∷ []

-- `write`.
unfoldable pub written : Logger → Text → Text → List Value → Payload
unfolding with_fields
written l level msg fields = with_fields fields (base l level msg)

unfoldable pub info : Logger → Text → List Value → Payload
unfolding written
info l = written l (codes "INFO")

unfoldable pub error : Logger → Text → List Value → Payload
unfolding written
error l = written l (codes "ERROR")

unfoldable pub warn : Logger → Text → List Value → Payload
unfolding written
warn l = written l (codes "WARN")

-- The variable DEBUG of the environment.
unfoldable pub debug : Option Text → Logger → Text → List Value → Option Payload
unfolding written text_eq
debug env l msg fields = elim env [
  | none ↦ none
  | some v ↦ if text_eq v (codes "1") then some (written l (codes "DEBUG") msg fields) else none
]
