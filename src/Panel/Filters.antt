-- ===== src/Panel/Filters.antt =====
-- The checks of admin_service.go on roles, on the words that a request gives, and on its filters.
use locker.Prelude.{
  ℕ, Bool, true, false, ◌||◌, Option, none, some, List, [], ◌∷◌, map, Text, codes, text_eq,
  if◌then◌else◌,
}
use locker.Prelude.Int.{ℤ, to_ℕ?}
use locker.Strings.{to_lower, to_upper, trim_space, split}
use locker.Table.{filter}
use locker.Domain.{
  LockerStatus, free, reserved, occupied, locked, opened, maintenance, out_of_service,
}
use locker.Domain.Rules.{role_admin, role_operator}
use locker.Store.{Result, ok, err}
use locker.Service.Errors.{ServiceError, app_error}
use locker.Service.Numbers.{parse_int}

unfoldable pub can_manage : Text → Bool
can_manage role = text_eq role role_admin || text_eq role role_operator

-- A status's word in the column and in the answers.
unfoldable pub status_word : LockerStatus → Text
status_word free = codes "free"
status_word reserved = codes "reserved"
status_word occupied = codes "occupied"
status_word locked = codes "locked"
status_word opened = codes "open"
status_word maintenance = codes "maintenance"
status_word out_of_service = codes "out_of_service"

-- `validLockerStatus`, with the status that a valid word names.
unfoldable pub locker_status? : Text → Option LockerStatus
locker_status? s =
    if text_eq s (codes "free")
    then some free
    else if text_eq s (codes "reserved")
    then some reserved
    else if text_eq s (codes "occupied")
    then some occupied
    else if text_eq s (codes "locked")
    then some locked
    else if text_eq s (codes "open")
    then some opened
    else if text_eq s (codes "maintenance")
    then some maintenance
    else if text_eq s (codes "out_of_service")
    then some out_of_service
    else none

-- One of `limit` and `offset`: blank is the default; the text is not trimmed where it is read.
abbrev pub counted : ℕ → Text → Text → Result ServiceError ℕ
counted default code raw = elim (trim_space raw) [
  | [] ↦ ok default
  | _ ∷ _ ↦ elim (parse_int raw) [
    | none ↦ err (app_error 422 code)
    | some v ↦ elim (to_ℕ? v) [ none ↦ err (app_error 422 code) | some n ↦ ok n ]
  ]
]

unfoldable pub parse_limit_offset : Text → Text → Result ServiceError (ℕ × ℕ)
parse_limit_offset limit offset = elim (counted 50 (codes "INVALID_LIMIT") limit) [
  | err e ↦ err e
  | ok l ↦ elim (counted 0 (codes "INVALID_OFFSET") offset) [ err e ↦ err e | ok o ↦ ok (l, o) ]
]

-- The outer `none` is the error, `some none` the filter that is not given.
unfoldable pub parse_optional_bool : Text → Option (Option Bool)
parse_optional_bool raw =
    let word = trim_space (to_lower raw) in
    if text_eq word []
    then some none
    else if text_eq word (codes "true") || text_eq word (codes "1")
    then some (some true)
    else if text_eq word (codes "false") || text_eq word (codes "0")
    then some (some false)
    else none

unfoldable pub parse_optional_int64 : Text → Option (Option ℤ)
parse_optional_int64 raw = elim (trim_space raw) [
  | [] ↦ some none
  | c ∷ s ↦ elim (parse_int (c ∷ s)) [ none ↦ none | some v ↦ some (some v) ]
]

abbrev pub is_entry : Text → Bool
is_entry [] = false
is_entry (c ∷ s) = true

-- The loop over the parts, shared by `splitCSVLower` and `splitCSVUpper`; `none` is `nil`.
unfoldable pub split_csv : (Text → Text) → Text → Option (List Text)
split_csv case raw = elim (trim_space raw) [
  | [] ↦ none
  | c ∷ s ↦ elim (filter is_entry (map (λ p. case (trim_space p)) (split b',' (c ∷ s)))) [
    | [] ↦ none
    | p ∷ ps ↦ some (p ∷ ps)
  ]
]

unfoldable pub split_csv_lower : Text → Option (List Text)
unfolding split_csv
split_csv_lower raw = split_csv to_lower raw

unfoldable pub split_csv_upper : Text → Option (List Text)
unfolding split_csv
split_csv_upper raw = split_csv to_upper raw
