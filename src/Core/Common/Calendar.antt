-- ===== src/Core/Common/Calendar.antt =====
-- Python's `datetime.isoformat(timespec="microseconds")`, on the proleptic Gregorian calendar, as
-- core/effects.py uses it on checked values.
use digital_colleagues.Base.{
  ℕ, zero, suc, ◌+◌, ◌-◌, ◌*◌, ◌/◌, ◌%◌, Bool, not, ◌&&◌, ◌||◌, List, [], ◌∷◌, String, ◌==◌, nat_eq,
  string_eq, option_eq, list_eq, ltb, if◌then◌else◌,
}
use Prim.Native.String.{◌++◌ as join}
use digital_colleagues.Core.Common.{DateTime}

pick : List String → ℕ → String
pick [] n = ""
pick (text ∷ texts) zero = text
pick (text ∷ texts) (suc n) = pick texts n

unfoldable pub digit : ℕ → String
unfolding pick
digit n = pick ("0" ∷ "1" ∷ "2" ∷ "3" ∷ "4" ∷ "5" ∷ "6" ∷ "7" ∷ "8" ∷ "9" ∷ []) n

-- The last `width` decimal digits of a number.
digits : ℕ → ℕ → String
unfolding digit
digits zero n = ""
digits (suc width) n = join (digits width (n / 10)) (digit (n % 10))

is_leap : ℕ → Bool
is_leap year = year % 4 == 0 && (not (year % 100 == 0) || year % 400 == 0)

month_lengths : ℕ → List ℕ
unfolding is_leap
month_lengths year =
    31 ∷ (if is_leap year then 29 else 28) ∷ 31 ∷ 30 ∷ 31 ∷ 30 ∷ 31 ∷ 31 ∷ 30 ∷ 31 ∷ 30 ∷ 31 ∷ []

-- The month and the day of the month, from a day of the year that counts from 0.
month_of : List ℕ → ℕ → ℕ → ℕ × ℕ
month_of [] month day = (month, day + 1)
month_of (length ∷ lengths) month day =
    let rest = month_of lengths (month + 1) (day - length) in
    if ltb day length then (month, day + 1) else rest

-- The year, from the days since 0001-01-01: whole cycles of 400, 100, 4 and 1 years; the last day
-- of a cycle of 400 or of 4 years falls in its last year.
year_of : ℕ → ℕ × ℕ
year_of days =
    let in_400 = days % 146097 in
    let hundreds = if ltb 3 (in_400 / 36524) then 3 else in_400 / 36524 in
    let in_100 = in_400 - hundreds * 36524 in
    let in_4 = in_100 % 1461 in
    let ones = if ltb 3 (in_4 / 365) then 3 else in_4 / 365 in
    (days / 146097 * 400 + hundreds * 100 + in_100 / 1461 * 4 + ones + 1, in_4 - ones * 365)

date_text : ℕ → String
unfolding year_of month_of month_lengths digits
date_text days =
    let (year, day_of_year) = year_of days in
    let (month, day) = month_of (month_lengths year) 1 day_of_year in
    join (digits 4 year) (join "-" (join (digits 2 month) (join "-" (digits 2 day))))

-- `_datetime_to_canonical_z` of core/effects.py
unfoldable pub datetime_to_canonical_z : DateTime → String
unfolding date_text digits
datetime_to_canonical_z value =
    let time = value.clock % 86400000000 in
    join (date_text (value.clock / 86400000000)) (
      join "T" (
        join (digits 2 (time / 3600000000)) (
          join ":" (
            join (digits 2 (time / 60000000 % 60)) (
              join ":" (
                join (digits 2 (time / 1000000 % 60))
                  (join "." (join (digits 6 (time % 1000000)) "Z"))))))))
