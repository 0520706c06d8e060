-- ===== src/WorkReports/Reports/Moves.antt =====
-- What each step of the lifecycle does to the table of reports: work_reports/services.py.
use internet_ms.Base.{
  ℕ, suc, ◌≡◌, ◌∙◌, sym, ap, Bool, true, false, Option, none, some, List, [], ◌∷◌, ◌++◌, ◌==◌, find,
  update, arith,
}
use internet_ms.Base.Text.{Text}
use internet_ms.Base.Result.{Result, ok, ◌>>=◌, >>=-eq-ok}
use internet_ms.Users.Models.{Membership}
use internet_ms.WorkReports.Models.{
  Report, ReportStatus, ReportEvent, Store, WorkError, clean, is_approved,
}
use internet_ms.WorkReports.ServiceDays.{Day, replace_service_days}
use internet_ms.WorkReports.Reports.{history, save, insert_report, replace_optional}

module _ (valid_fields : Report → Bool) where
  save_effect :
      (today : ℕ) (correction : Bool) (r : Report) (s s' : Store)
      → save valid_fields today correction r s ≡ ok s'
      → (clean today s r ≡ true)
        × (s'.reports ≡ update (λ x. x.pk == r.pk) (λ _. r) s.reports)
        × (s'.service_days ≡ s.service_days)
        × (s'.next_id ≡ s.next_id)
        × (s'.payments ≡ s.payments)
  unfolding save
  save_effect today correction r s s' h =
      (ground arith, ground arith, ground arith, ground arith, ground arith)

history_effect :
    (r : Report) (m : Membership) (event : ReportEvent) (from : Option ReportStatus) (reason : Text)
    (s s' : Store)
    → history r m event from reason s ≡ ok s'
    → (s'.reports ≡ s.reports)
      × (s'.service_days ≡ s.service_days)
      × (s'.next_id ≡ s.next_id)
      × (s'.payments ≡ s.payments)
unfolding history
history_effect r m event from reason s s' h =
    (ground arith, ground arith, ground arith, ground arith)

replace_effect :
    (today : ℕ) (r : Report) (days : List Day) (correction : Bool) (s s' : Store)
    → replace_service_days today r days correction s ≡ ok s'
    → (s'.reports ≡ s.reports) × (s'.next_id ≡ s.next_id) × (s'.payments ≡ s.payments)
unfolding replace_service_days
replace_effect today r days correction s s' h = (ground arith, ground arith, ground arith)

-- The new row, in place of the old one.
abbrev pub put : Report → List Report → List Report
put r = update (λ x. x.pk == r.pk) (λ _. r)

-- A report that was found is replaced by a row with its key, which passes `clean`.
unfoldable pub IsReplaced : ℕ → Report → Report → Store → Store → Type 0
IsReplaced today old r s s' =
    (r.pk ≡ old.pk)
    × (clean today s r ≡ true)
    × (s'.reports ≡ put r s.reports)
    × (s'.next_id ≡ s.next_id)
    × (s'.payments ≡ s.payments)

-- An approval is kept: who approved, and when.
abbrev pub KeepsApproval : Report → Report → Type 0
KeepsApproval old r =
    is_approved old.status ≡ true
    → (r.approved_by_id ≡ old.approved_by_id) × (r.approved_at ≡ old.approved_at)

-- A step of the lifecycle from a report that is found, by the status before and the one after.
unfoldable pub HasMoved : ℕ → (ReportStatus → ReportStatus → Bool) → Report → Store → Store → Type 0
HasMoved today allowed r s s' =
    (q : Report → Bool) × (old : Report) × (find q s.reports ≡ some old)
    × (allowed old.status r.status ≡ true)
    × KeepsApproval old r
    × IsReplaced today old r s s'

-- A new draft under the next key.
unfoldable pub HasCreated : ℕ → Report → Store → Store → Type 0
HasCreated today r s s' =
    (r.pk ≡ s.next_id)
    × (r.status ≡ ReportStatus.draft)
    × (clean today s r ≡ true)
    × (s'.reports ≡ s.reports ++ r ∷ [])
    × (s'.next_id ≡ suc s.next_id)
    × (s'.payments ≡ s.payments)

module _ (valid_fields : Report → Bool) where
  abbrev save_and_log :
      ℕ
      → Bool
      → Report
      → Membership
      → ReportEvent
      → Option ReportStatus
      → Text
      → Store
      → Result WorkError (Report × Store)
  save_and_log today correction report m event from reason s = do
    saved ← save valid_fields today correction report s
    logged ← history report m event from reason saved
    ok (report, logged)

  abbrev save_replace_and_log :
      ℕ
      → Bool
      → Report
      → Option (List Day)
      → Membership
      → ReportEvent
      → Option ReportStatus
      → Text
      → Store
      → Result WorkError (Report × Store)
  save_replace_and_log today correction report rows m event from reason s = do
    saved ← save valid_fields today correction report s
    replaced ← replace_optional today report rows correction saved
    logged ← history report m event from reason replaced
    ok (report, logged)

  pub logged_effect :
      (today : ℕ) (correction : Bool) (old report : Report) (m : Membership) (event : ReportEvent)
      (from : Option ReportStatus) (reason : Text) (s : Store) (r : Report) (s' : Store)
      → report.pk ≡ old.pk
      → save_and_log today correction report m event from reason s ≡ ok (r, s')
      → (report ≡ r) × IsReplaced today old r s s'
  unfolding IsReplaced
  logged_effect today correction old report m event from reason s r s' key h =
      let (saved, saves, h1) = >>=-eq-ok (save valid_fields today correction report s) _ _ h in
      let (logged, logs, h2) = >>=-eq-ok (history report m event from reason saved) _ _ h1 in
      let kept = save_effect valid_fields today correction report s saved saves in
      let log = history_effect report m event from reason saved logged logs in
      let same : report ≡ r = cc in
      let tables : logged ≡ s' = cc in
      (
        same,
        (
          ap (λ x. x.pk) (sym same) ∙ key,
          rw (sym same) kept.0,
          ap (λ x. x.reports) (sym tables) ∙ log.0 ∙ kept.1 ∙ ap (λ x. put x s.reports) same,
          ap (λ x. x.next_id) (sym tables) ∙ log.2 ∙ kept.3,
          ap (λ x. x.payments) (sym tables) ∙ log.3 ∙ kept.4,
        ),
      )

  pub rewritten_effect :
      (today : ℕ) (correction : Bool) (old report : Report) (rows : Option (List Day))
      (m : Membership) (event : ReportEvent) (from : Option ReportStatus) (reason : Text)
      (s : Store) (r : Report) (s' : Store)
      → report.pk ≡ old.pk
      → save_replace_and_log today correction report rows m event from reason s ≡ ok (r, s')
      → (report ≡ r) × IsReplaced today old r s s'
  unfolding IsReplaced
  rewritten_effect today correction old report none m event from reason s r s' key h =
      logged_effect today correction old report m event from reason s r s' key h
  rewritten_effect today correction old report (some rows) m event from reason s r s' key h =
      let (saved, saves, h1) = >>=-eq-ok (save valid_fields today correction report s) _ _ h in
      let (replaced, replaces, h2) =
        >>=-eq-ok (replace_service_days today report rows correction saved) _ _ h1 in
      let (logged, logs, h3) = >>=-eq-ok (history report m event from reason replaced) _ _ h2 in
      let kept = save_effect valid_fields today correction report s saved saves in
      let days = replace_effect today report rows correction saved replaced replaces in
      let log = history_effect report m event from reason replaced logged logs in
      let same : report ≡ r = cc in
      let tables : logged ≡ s' = cc in
      (
        same,
        (
          ap (λ x. x.pk) (sym same) ∙ key,
          rw (sym same) kept.0,
          ap (λ x. x.reports) (sym tables)
              ∙ log.0
              ∙ days.0
              ∙ kept.1
              ∙ ap (λ x. put x s.reports) same,
          ap (λ x. x.next_id) (sym tables) ∙ log.2 ∙ days.1 ∙ kept.3,
          ap (λ x. x.payments) (sym tables) ∙ log.3 ∙ days.2 ∙ kept.4,
        ),
      )

  insert_effect :
      (today : ℕ) (r : Report) (s s' : Store)
      → insert_report valid_fields today r s ≡ ok s'
      → (clean today s r ≡ true)
        × (s'.reports ≡ s.reports ++ r ∷ [])
        × (s'.next_id ≡ suc s.next_id)
        × (s'.payments ≡ s.payments)
  unfolding insert_report
  insert_effect today r s s' h = (ground arith, ground arith, ground arith, ground arith)

  abbrev insert_replace_and_log :
      ℕ → Report → List Day → Membership → Store → Result WorkError (Report × Store)
  insert_replace_and_log today report rows m s = do
    saved ← insert_report valid_fields today report s
    replaced ← replace_service_days today report rows false saved
    logged ← history report m ReportEvent.created none [] replaced
    ok (report, logged)

  pub inserted_effect :
      (today : ℕ) (report : Report) (rows : List Day) (m : Membership) (s : Store) (r : Report)
      (s' : Store)
      → report.pk ≡ s.next_id
      → report.status ≡ ReportStatus.draft
      → insert_replace_and_log today report rows m s ≡ ok (r, s')
      → HasCreated today r s s'
  unfolding HasCreated
  inserted_effect today report rows m s r s' key draft h =
      let (saved, saves, h1) = >>=-eq-ok (insert_report valid_fields today report s) _ _ h in
      let (replaced, replaces, h2) =
        >>=-eq-ok (replace_service_days today report rows false saved) _ _ h1 in
      let (logged, logs, h3) =
        >>=-eq-ok (history report m ReportEvent.created none [] replaced) _ _ h2 in
      let kept = insert_effect today report s saved saves in
      let new_days = replace_effect today report rows false saved replaced replaces in
      let log = history_effect report m ReportEvent.created none [] replaced logged logs in
      let same : report ≡ r = cc in
      let tables : logged ≡ s' = cc in
      (
        ap (λ x. x.pk) (sym same) ∙ key,
        ap (λ x. x.status) (sym same) ∙ draft,
        rw (sym same) kept.0,
        ap (λ x. x.reports) (sym tables)
            ∙ log.0
            ∙ new_days.0
            ∙ kept.1
            ∙ ap (λ x. s.reports ++ x ∷ []) same,
        ap (λ x. x.next_id) (sym tables) ∙ log.2 ∙ new_days.1 ∙ kept.2,
        ap (λ x. x.payments) (sym tables) ∙ log.3 ∙ new_days.2 ∙ kept.3,
      )
