-- ===== src/Billing/Calendar.antt =====
-- Dates, and `add_months`, `first_day_of_month` and `last_day_of_month` of billing/services.py.
pub mod Months
use Prim.Native.Nat.{min}
use internet_ms.Base.{
  ℕ, suc, ◌+◌, ◌-◌, ◌*◌, ◌/◌, ◌%◌, Bool, true, false, not, ◌&&◌, ◌||◌, Option, none, some, ◌==◌,
  ltb, leb, if◌then◌else◌,
}
use internet_ms.Base.Int.{ℤ, pos, negsuc}

-- `datetime.date`
pub record Date : Type 0 where
  pub year : ℕ
  pub month : ℕ
  pub day : ℕ

-- `a <= b`
abbrev pub leb_date : Date → Date → Bool
leb_date a b =
    ltb a.year b.year
    || (a.year == b.year && (ltb a.month b.month || (a.month == b.month && leb a.day b.day)))

abbrev pub ltb_date : Date → Date → Bool
ltb_date a b = not (leb_date b a)

-- `a == b`
abbrev pub same_date : Date → Date → Bool
same_date a b = a.year == b.year && a.month == b.month && a.day == b.day

-- `calendar.isleap`
abbrev pub is_leap : ℕ → Bool
is_leap year = year % 4 == 0 && (not (year % 100 == 0) || year % 400 == 0)

-- `calendar.monthrange(year, month)[1]`
unfoldable pub days_in_month : ℕ → ℕ → ℕ
days_in_month year month =
    if month == 2
    then (if is_leap year then 29 else 28)
    else if month == 4 || month == 6 || month == 9 || month == 11
    then 30
    else 31

-- `date(year, month, day)` of a month and a day that fit; it raises beyond the year 9999.
abbrev pub make_date : ℕ → ℕ → ℕ → Option Date
make_date year month day =
    if leb year 9999 then some (record { year = year; month = month; day = day }) else none

unfoldable pub add_months : Date → ℕ → Option Date
unfolding days_in_month
add_months value months =
    let month = value.month - 1 + months in
    let year = value.year + month / 12 in
    let next = month % 12 + 1 in make_date year next (min value.day (days_in_month year next))

-- `add_months` by a negative number; before the year 1 `date` raises too.
abbrev pub months_back : Date → ℕ → Option Date
months_back value months =
    let month = 12 * value.year + (value.month - 1) - months in
    let year = month / 12 in
    let next = month % 12 + 1 in
    if leb 1 year then make_date year next (min value.day (days_in_month year next)) else none

-- `add_months` by any number.
unfoldable pub shift_months : Date → ℤ → Option Date
unfolding add_months days_in_month
shift_months value (pos months) = add_months value months
shift_months value (negsuc months) = months_back value (suc months)

abbrev pub first_day_of_month : Date → Date
first_day_of_month value = record { year = value.year; month = value.month; day = 1 }

unfoldable pub last_day_of_month : Date → Date
unfolding days_in_month
last_day_of_month value = record {
  year = value.year;
  month = value.month;
  day = days_in_month value.year value.month;
}
