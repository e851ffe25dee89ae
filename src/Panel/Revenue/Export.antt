-- ===== src/Panel/Revenue/Export.antt =====
-- What `RevenueExport` answers.
use locker.Prelude.{
  ◌≤◌, ◌≡◌, refl, sym, ap, ◌∙◌, false, Option, some, List, ◌++◌, Text, codes, text_eq,
  eq_of_text_eq, arith, Bool-cases, Option-cases, inl, inr,
}
use locker.Prelude.Int.{ℤ}
use locker.Strings.{trim_space}
use locker.Domain.Rules.{role_admin}
use locker.Store.{Db, ok}
use locker.Service.Dates.{Date, day_number, parse_date, unix_of}
use locker.Table.{filter}
use locker.Table.Pages.{order_by}
use locker.Panel.Sessions.{is_id}
use locker.Panel.Revenue.Days.{is_earned_on, revenue_by_location-days}
use locker.Service.Dates.Printed.{parse_date-date_text}
use locker.Panel.Filters.{parse_optional_int64}
use locker.Panel.Revenue.{
  CellValue, is_less, next_day, file_name, groups, sheet, revenue_by_location, revenue_export,
}

file_name-text :
    (s t : Text) (from to : Date)
    → parse_date s ≡ some from
    → parse_date t ≡ some to
    → file_name from to ≡ codes "revenue_" ++ s ++ codes "_" ++ t ++ codes ".xlsx"
unfolding file_name
file_name-text s t from to a b =
    rw (parse_date-date_text s from a, parse_date-date_text t to b) refl

ordered :
    (from to : Date) → is_less (unix_of to) (unix_of from) ≡ false → day_number from ≤ day_number to
unfolding unix_of
ordered from to h = ground (arith, h)

module _ (write : List (List CellValue) → Option Text) (role from_raw to_raw location_raw : Text)
    (db : Db) where
  -- What a file that is given out rests on.
  pub record IsExport (file name : Text) : Type 0 where
    pub by_admin : role ≡ role_admin
    pub from : Date
    pub to : Date
    pub location : Option ℤ
    pub from_read : parse_date (trim_space from_raw) ≡ some from
    pub to_read : parse_date (trim_space to_raw) ≡ some to
    pub in_order : day_number from ≤ day_number to
    pub location_read : parse_optional_int64 location_raw ≡ some location
    pub written :
        write (
          sheet (
            groups
              (λ l. filter (is_earned_on from to db l) db.payments)
              (order_by (λ l. l.id) (filter (λ l. is_id location l.id) db.locations))))
        ≡ some file
    pub named :
        name
        ≡ codes "revenue_" ++ trim_space from_raw ++ codes "_" ++ trim_space to_raw ++ codes ".xlsx"

  -- A revenue file is given out to the role admin alone, for two dates of which the first is not after
  -- the second: it is the sheet of the payments that were paid or confirmed on the days from the first
  -- to the second, both included, and its name has the two dates as the request writes them, without the blanks around them.
  pub revenue_export-IsExport :
      (file name : Text)
      → revenue_export write role from_raw to_raw location_raw db ≡ ok (file, name)
      → IsExport file name
  unfolding revenue_export
  revenue_export-IsExport file name e = elim (Bool-cases (text_eq role role_admin)) [
    | inr a ↦ absurd (ground (arith, e, a))
    | inl a ↦ elim (Option-cases (parse_date (trim_space from_raw))) [
      | inl b ↦ absurd (ground (arith, e, a, b))
      | inr (from, b) ↦ elim (Option-cases (parse_date (trim_space to_raw))) [
        | inl c ↦ absurd (ground (arith, e, a, b, c))
        | inr (to, c) ↦ elim (Bool-cases (is_less (unix_of to) (unix_of from))) [
          | inl d ↦ absurd (ground (arith, e, a, b, c, d))
          | inr d ↦ elim (Option-cases (parse_optional_int64 location_raw)) [
            | inl f ↦ absurd (ground (arith, e, a, b, c, d, f))
            | inr (location, f) ↦
                elim (Option-cases (
                  write (
                    sheet
                      (revenue_by_location (unix_of from) (next_day (unix_of to)) location db)))) [
                        | inl g ↦ absurd (ground (arith, e, a, b, c, d, f, g))
                        | inr (out, g) ↦ record {
                          by_admin = eq_of_text_eq role role_admin a;
                          from = from;
                          to = to;
                          location = location;
                          from_read = b;
                          to_read = c;
                          in_order = ordered from to d;
                          location_read = f;
                          written =
                              ap (λ rows. write (sheet rows))
                                (sym (revenue_by_location-days from to location db))
                              ∙ ground (arith, e, a, b, c, d, f, g);
                          named = ground (
                            arith,
                            e,
                            a,
                            b,
                            c,
                            d,
                            f,
                            g,
                            file_name-text (trim_space from_raw) (trim_space to_raw) from to b c,
                          );
                        }
                      ]
          ]
        ]
      ]
    ]
  ]
