-- ===== src/Tests/Dates.antt =====
-- Dates and times of the calendar.
use locker.Prelude.{◌≡◌, refl, some, none, codes}
use locker.Prelude.Int.{pos, negsuc}
use locker.Service.Dates.{parse_date, unix_of, parse_rfc3339}

new_year : parse_rfc3339 (codes "2024-03-01T1:02:03.5+03:00") ≡ some (pos 1709244123)
unfolding parse_rfc3339
new_year = refl

before_epoch : unix_of (record { year = 1969; month = 12; day = 31 }) ≡ negsuc 86399
unfolding unix_of
before_epoch = refl

no_such_day : parse_date (codes "2023-02-29") ≡ none
unfolding parse_date
no_such_day = refl
