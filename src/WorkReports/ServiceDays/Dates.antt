-- ===== src/WorkReports/ServiceDays/Dates.antt =====
-- The dates that pass `_validated_service_days`: work_reports/services.py.
use internet_ms.Base.{
  ℕ, suc, ◌≤◌, ◌<◌, ◌≡◌, ◌≢◌, ◌∙◌, refl, ap, Bool, false, ◌||◌, none, some, List, [], ◌∷◌, ◌==◌,
  leb, length, any, All, All-map, Distinct, arith, Bool-cases, Option-cases, inl, inr,
}
use internet_ms.Base.Text.{strip, is_empty}
use internet_ms.Base.Result.{ok, Result-cases}
use internet_ms.WorkReports.ServiceDays.{
  Day, DayRow, normalize, insert_day, sort_days, validated_service_days,
}

abbrev pub has_date : ℕ → List Day → Bool
has_date date days = any (λ d. d.service_date == date) days

abbrev pub row_has_date : ℕ → DayRow → Bool
row_has_date date row = elim row.service_date [ none ↦ false | some d ↦ d == date ]

-- Each date is later than the one before.
pub Ascending : List Day → Type 0
Ascending [] = Unit
Ascending (d ∷ ds) = All (λ e. d.service_date < e.service_date) ds × Ascending ds

abbrev pub IsFresh : List ℕ → Day → Type 0
IsFresh seen d = any (λ e. e == d.service_date) seen ≡ false

abbrev pub Fits : ℕ → Day → Type 0
Fits today d = (d.service_date ≤ today) × (length d.activity_note ≤ 500)

-- A row that passes, and the rest.
normalize_row :
    (today : ℕ) (seen : List ℕ) (row : DayRow) (rows : List DayRow) (ds : List Day)
    → normalize today seen (row ∷ rows) ≡ ok ds
    → (date : ℕ) × (rest : List Day) × (row.service_date ≡ some date)
      × (date ≤ today)
      × (any (λ d. d == date) seen ≡ false)
      × (length (strip row.activity_note) ≤ 500)
      × (normalize today (date ∷ seen) rows ≡ ok rest)
      × (ds ≡ (record { service_date = date; activity_note = strip row.activity_note }) ∷ rest)
unfolding normalize
normalize_row today seen row rows ds h = elim (Option-cases row.service_date) [
  | inl missing ↦ absurd (ground arith)
  | inr (date, given) ↦ elim (Result-cases (normalize today (date ∷ seen) rows)) [
    | inl (rest, passes) ↦
        (date, rest, given, ground arith, ground arith, ground arith, passes, ground arith)
    | inr (e, fails) ↦ absurd (ground arith)
  ]
]

normalized :
    (today : ℕ) (seen : List ℕ) (rows : List DayRow) (ds : List Day)
    → normalize today seen rows ≡ ok ds
    → All (λ d. Fits today d × IsFresh seen d) ds
      × Distinct (λ d. d.service_date) ds
      × (length ds ≡ length rows)
      × ((date : ℕ) → has_date date ds ≡ any (row_has_date date) rows)
unfolding Distinct normalize
normalized today seen [] ds h = let same : ds ≡ [] = cc in rw same (tt, tt, refl, λ on. refl)
normalized today seen (row ∷ rows) ds h =
    let (date, rest, given, past, fresh, short, passes, same) =
      normalize_row today seen row rows ds h in
    let (fits, distinct, long, dates) = normalized today (date ∷ seen) rows rest passes in
    rw same (
      (((past, short), fresh), All-map _ _ rest (λ d x. (x.0, ground arith)) fits),
      (All-map _ _ rest (λ d x. ground arith) fits, distinct),
      ap suc long,
      λ on. rw (given, dates on) refl,
    )

insert_day-All :
    (P : Day → Type 0) (d : Day) (ds : List Day) → P d → All P ds → All P (insert_day d ds)
insert_day-All P d [] p h = (p, tt)
insert_day-All P d (x ∷ xs) p h = elim (Bool-cases (leb d.service_date x.service_date)) [
  | inl e ↦ rw e (p, h)
  | inr e ↦ rw e (h.0, insert_day-All P d xs p h.1)
]

insert_day-any :
    (p : Day → Bool) (d : Day) (ds : List Day) → any p (insert_day d ds) ≡ (p d || any p ds)
insert_day-any p d [] = refl
insert_day-any p d (x ∷ xs) = ground (arith, insert_day-any p d xs)

insert_day-length : (d : Day) (ds : List Day) → length (insert_day d ds) ≡ suc (length ds)
insert_day-length d [] = refl
insert_day-length d (x ∷ xs) = ground (arith, insert_day-length d xs)

insert_day-Ascending :
    (d : Day) (ds : List Day)
    → All (λ e. e.service_date ≢ d.service_date) ds
    → Ascending ds
    → Ascending (insert_day d ds)
unfolding Ascending
insert_day-Ascending d [] other h = (tt, tt)
insert_day-Ascending d (x ∷ xs) other h = elim (Bool-cases (leb d.service_date x.service_date)) [
  | inl e ↦
      let before : d.service_date < x.service_date = grind (arith, other.0) in
      rw e ((before, All-map _ _ xs (λ y le. omega arith) h.0), h)
  | inr e ↦
      let after : x.service_date < d.service_date = ground arith in
      rw e (
        insert_day-All (λ y. x.service_date < y.service_date) d xs after h.0,
        insert_day-Ascending d xs other.1 h.1,
      )
]

sort_days-All : (P : Day → Type 0) (ds : List Day) → All P ds → All P (sort_days ds)
unfolding sort_days
sort_days-All P [] h = tt
sort_days-All P (d ∷ ds) h = insert_day-All P d (sort_days ds) h.0 (sort_days-All P ds h.1)

sort_days-any : (p : Day → Bool) (ds : List Day) → any p (sort_days ds) ≡ any p ds
unfolding sort_days
sort_days-any p [] = refl
sort_days-any p (d ∷ ds) =
    insert_day-any p d (sort_days ds) ∙ ap (λ b. p d || b) (sort_days-any p ds)

sort_days-length : (ds : List Day) → length (sort_days ds) ≡ length ds
unfolding sort_days
sort_days-length [] = refl
sort_days-length (d ∷ ds) = insert_day-length d (sort_days ds) ∙ ap suc (sort_days-length ds)

sort_days-Ascending : (ds : List Day) → Distinct (λ d. d.service_date) ds → Ascending (sort_days ds)
unfolding sort_days Distinct Ascending
sort_days-Ascending [] h = tt
sort_days-Ascending (d ∷ ds) h =
    insert_day-Ascending d (sort_days ds)
      (sort_days-All (λ e. e.service_date ≢ d.service_date) ds h.0) (sort_days-Ascending ds h.1)

nonempty : (rows : List DayRow) → is_empty rows ≡ false → 1 ≤ length rows
nonempty [] h = cc
nonempty (r ∷ rows) h = omega arith

-- Work dates that pass the validation: there is at least one, as many as there are rows, none lies in
-- the future, no note is longer than 500 characters, each date is later than the one before, and the
-- dates are those of the rows.
pub validated_dates :
    (today : ℕ) (rows : List DayRow) (ds : List Day)
    → validated_service_days today rows ≡ ok ds
    → (1 ≤ length ds)
      × (length ds ≡ length rows)
      × All (Fits today) ds
      × Ascending ds
      × ((date : ℕ) → has_date date ds ≡ any (row_has_date date) rows)
unfolding validated_service_days
validated_dates today rows ds h = elim (Result-cases (normalize today [] rows)) [
  | inl (found, passes) ↦
      let (fits, distinct, long, dates) = normalized today [] rows found passes in
      let some_row : is_empty rows ≡ false = ground arith in
      let same : ds ≡ sort_days found = ground arith in
      let count = sort_days-length found ∙ long in
      rw same (
        rw count (nonempty rows some_row),
        count,
        sort_days-All (Fits today) found (All-map _ _ found (λ d x. x.0) fits),
        sort_days-Ascending found distinct,
        λ date. sort_days-any (λ d. d.service_date == date) found ∙ dates date,
      )
  | inr (e, fails) ↦ absurd (ground arith)
]
