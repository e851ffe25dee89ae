-- ===== src/Domain/Rules.antt =====
-- The methods of the entities of internal/domain.
use locker.Prelude.{ℕ, Bool, false, none, some, ltb, ◌&&◌, ◌||◌, not, Text, codes, text_eq}
use locker.Domain.{
  free, maintenance, out_of_service, locker_is, confirmed, payment_is, active, session_is,
  SessionStatus, StorageSession, Locker, Payment, Admin,
}

abbrev pub role_admin : Text
role_admin = codes "admin"

abbrev pub role_operator : Text
role_operator = codes "operator"

abbrev pub role_support : Text
role_support = codes "support"

unfoldable pub can_manual_open : Admin → Bool
can_manual_open a = text_eq a.role role_admin || text_eq a.role role_operator

unfoldable pub can_view_revenue : Admin → Bool
can_view_revenue a = text_eq a.role role_admin

unfoldable pub can_open_for_session : Locker → Bool
can_open_for_session l = locker_is l.status free && l.is_active

unfoldable pub is_functional : Locker → Bool
is_functional l =
    l.is_active && not (locker_is l.status out_of_service) && not (locker_is l.status maintenance)

unfoldable pub is_paid : Payment → Bool
is_paid p = payment_is p.status confirmed

-- `timeNow`, which is no clock.
abbrev pub time_now : ℕ
time_now = 0

-- `IsActive` of a session.
unfoldable pub session_is_active : StorageSession → Bool
session_is_active s = session_is s.status active || session_is s.status SessionStatus.paid

-- A time that is not there is 0 in the entity.
unfoldable pub can_use_access_code : StorageSession → Bool
can_use_access_code s =
    session_is s.status SessionStatus.paid
    && elim s.paid_until [ none ↦ false | some t ↦ ltb time_now t ]
