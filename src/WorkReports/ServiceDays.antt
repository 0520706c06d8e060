-- ===== src/WorkReports/ServiceDays.antt =====
-- work_reports/services.py: the work dates of a report.
pub mod Dates
use internet_ms.Base.{
  ℕ, Bool, true, false, not, ◌&&◌, ◌||◌, Option, none, some, List, [], ◌∷◌, ◌++◌, ◌==◌, ltb, leb,
  length, any, filter, find, if◌then◌else◌,
}
use internet_ms.Base.Text.{Text, strip, is_empty}
use internet_ms.Base.Result.{Result, ok, ◌>>=◌, ◌>>◌, raise_if, or_raise}
use internet_ms.WorkReports.Models.{
  Report, ServiceDay, Store, WorkError, no_work_date, missing_date, future_date, repeated_date,
  long_note, days_immutable, is_draft, is_rejected,
}

-- A row of the form: `row.get(…)` may be empty.
pub record DayRow : Type 0 where
  pub service_date : Option ℕ
  pub activity_note : Text

-- A normalized row.
pub record Day : Type 0 where
  pub service_date : ℕ
  pub activity_note : Text

-- The loop over the rows, with the dates seen.
unfoldable pub normalize : ℕ → List ℕ → List DayRow → Result WorkError (List Day)
normalize today seen [] = ok []
normalize today seen (row ∷ rows) = do
  let note = strip row.activity_note
  service_date ← or_raise row.service_date missing_date
  raise_if (ltb today service_date) future_date
  raise_if (any (λ d. d == service_date) seen) repeated_date
  raise_if (ltb 500 (length note)) long_note
  rest ← normalize today (service_date ∷ seen) rows
  ok ((record { service_date = service_date; activity_note = note }) ∷ rest)

abbrev pub insert_day : Day → List Day → List Day
insert_day d [] = d ∷ []
insert_day d (x ∷ xs) =
    let rest = insert_day d xs in if leb d.service_date x.service_date then d ∷ x ∷ xs else x ∷ rest

-- `sorted(normalized, key=…)`
unfoldable pub sort_days : List Day → List Day
sort_days [] = []
sort_days (d ∷ ds) = insert_day d (sort_days ds)

unfoldable pub validated_service_days : ℕ → List DayRow → Result WorkError (List Day)
unfolding normalize sort_days
validated_service_days today service_days = do
  raise_if (is_empty service_days) no_work_date
  normalized ← normalize today [] service_days
  ok (sort_days normalized)

-- A form without rows may still hold the one date of older callers.
unfoldable pub service_days_from_legacy : Option ℕ → Option (List DayRow) → Option (List DayRow)
service_days_from_legacy (some legacy_date) none =
    some ((record { service_date = some legacy_date; activity_note = [] }) ∷ [])
service_days_from_legacy _ service_days = service_days

abbrev pub as_row : Day → DayRow
as_row d = record { service_date = some d.service_date; activity_note = d.activity_note }

abbrev pub as_rows : List Day → List DayRow
as_rows [] = []
as_rows (d ∷ ds) = as_row d ∷ as_rows ds

abbrev pub day_of : Report → Day → ServiceDay
day_of report d = record {
  tenant_id = report.tenant_id;
  report_id = report.pk;
  service_date = d.service_date;
  activity_note = d.activity_note;
}

abbrev pub days_of : Report → List Day → List ServiceDay
days_of report [] = []
days_of report (d ∷ ds) = day_of report d ∷ days_of report ds

abbrev pub is_day_of : Report → ServiceDay → Bool
is_day_of report d = d.tenant_id == report.tenant_id && d.report_id == report.pk

-- `WorkReportServiceDay.save` looks at the status of the report's row.
abbrev pub takes_days : Option Report → Bool
takes_days none = false
takes_days (some r) = is_draft r.status || is_rejected r.status

-- The rows are checked again, and replace those of the report.
unfoldable pub replace_service_days : ℕ → Report → List Day → Bool → Store → Result WorkError Store
unfolding validated_service_days
replace_service_days today report service_days approved_correction s = do
  rows ← validated_service_days today (as_rows service_days)
  raise_if (not approved_correction && not (takes_days (find (λ r. r.pk == report.pk) s.reports)))
      days_immutable
  ok (record s {
    service_days = filter (λ d. not (is_day_of report d)) s.service_days ++ days_of report rows;
  })
