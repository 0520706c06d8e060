-- ===== src/Billing/Calendar/Months.antt =====
-- Adding months to a date: billing/services.py.
use Prim.Native.Nat.{min}
use internet_ms.Base.{
  ℕ, ◌+◌, ◌-◌, ◌*◌, ◌/◌, ◌%◌, ◌≤◌, ◌≡◌, ◌∙◌, sym, ap, Option, some, some-eq, leb, arith, Bool-cases,
  inl, inr,
}
use internet_ms.Billing.Calendar.{Date, days_in_month, make_date, add_months}

-- A day of the calendar, up to the year 9999.
abbrev pub IsDay : Date → Type 0
IsDay d =
    (d.year ≤ 9999)
    × (1 ≤ d.month)
    × (d.month ≤ 12)
    × (1 ≤ d.day)
    × (d.day ≤ days_in_month d.year d.month)

days_in_month_bounds :
    (year month : ℕ) → (28 ≤ days_in_month year month) × (days_in_month year month ≤ 31)
unfolding days_in_month
days_in_month_bounds year month = (ground arith, ground arith)

make_date-some :
    (year month day : ℕ) (d : Date)
    → make_date year month day ≡ some d
    → (year ≤ 9999) × (d.year ≡ year) × (d.month ≡ month) × (d.day ≡ day)
make_date-some year month day d h = elim (Bool-cases (leb year 9999)) [
  | inl e ↦
      let same = some-eq (rw e at h) in
      (
        ground (arith, e),
        sym (ap (λ x. x.year) same),
        sym (ap (λ x. x.month) same),
        sym (ap (λ x. x.day) same),
      )
  | inr e ↦ let missing = rw e at h in cc
]

-- The date that is `months` months after a day is a day, that many months later in the count of months, and
-- on the same day of the month or on the month's last, whichever is earlier.
pub add_months-IsDay :
    (d : Date) (months : ℕ) (r : Date)
    → add_months d months ≡ some r
    → IsDay d
    → IsDay r
      × (12 * r.year + r.month ≡ 12 * d.year + d.month + months)
      × (r.day ≡ min d.day (days_in_month r.year r.month))
unfolding add_months
add_months-IsDay d months r h valid =
    let m = d.month - 1 + months in
    let (small, year, month, day) =
      make_date-some (d.year + m / 12) (m % 12 + 1)
        (min d.day (days_in_month (d.year + m / 12) (m % 12 + 1))) r h in
    let least = (days_in_month_bounds (d.year + m / 12) (m % 12 + 1)).0 in
    let fits = valid.3 in
    let low = valid.1 in
    let days : r.day ≡ min d.day (days_in_month r.year r.month) = rw (year, month) day in
    let least' = (days_in_month_bounds r.year r.month).0 in
    (
      (
        omega (arith, small, year),
        omega (arith, month),
        omega (arith, month),
        omega (arith, days, least', fits),
        omega (arith, days),
      ),
      omega (arith, year, month, low),
      days,
    )

abbrev on_day : ℕ → ℕ → ℕ → Option Date
on_day day year month = make_date year month (min day (days_in_month year month))

-- From the first day of a month, adding months in two steps is adding them at once.
pub add_months_twice :
    (d : Date) (a b : ℕ) (r : Date)
    → IsDay d
    → d.day ≡ 1
    → add_months d a ≡ some r
    → add_months r b ≡ add_months d (a + b)
unfolding add_months
add_months_twice d a b r valid first h =
    let m = d.month - 1 + a in
    let (small, year, month, day) =
      make_date-some (d.year + m / 12) (m % 12 + 1)
        (min d.day (days_in_month (d.year + m / 12) (m % 12 + 1))) r h in
    let least = (days_in_month_bounds (d.year + m / 12) (m % 12 + 1)).0 in
    let first_too : r.day ≡ d.day = omega (arith, day, least, first) in
    let low = valid.1 in
    let years : r.year + (r.month - 1 + b) / 12 ≡ d.year + (d.month - 1 + (a + b)) / 12 =
      omega (arith, year, month, low) in
    let months : (r.month - 1 + b) % 12 + 1 ≡ (d.month - 1 + (a + b)) % 12 + 1 =
      omega (arith, month, low) in
    ap (λ y. on_day r.day y ((r.month - 1 + b) % 12 + 1)) years
    ∙ ap (λ n. on_day r.day (d.year + (d.month - 1 + (a + b)) / 12) n) months
    ∙ ap (λ x. on_day x (d.year + (d.month - 1 + (a + b)) / 12) ((d.month - 1 + (a + b)) % 12 + 1))
        first_too
