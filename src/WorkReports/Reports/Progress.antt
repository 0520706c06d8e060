-- ===== src/WorkReports/Reports/Progress.antt =====
-- The way of a report from draft to approval: work_reports/services.py.
use internet_ms.Base.{
  ℕ, ◌≡◌, ◌∙◌, refl, ap, Bool, true, false, ◌&&◌, Option, none, some, List, [], ◌∷◌, ◌++◌, ◌==◌,
  ==_iff, any, find, find-key, arith, if◌then◌else◌, find-satisfies, some-eq, Bool-cases, inl, inr,
}
use internet_ms.Base.Result.{ok}
use internet_ms.Users.PermissionCode
use internet_ms.Users.Models.{Membership}
use internet_ms.WorkReports.Models.{
  Report, ReportStatus, ReportEvent, Store, HistoryEntry, clean, is_rejected, is_approved,
}
use internet_ms.WorkReports.ServiceDays.{is_day_of}
use internet_ms.WorkReports.Reports.{
  is_own_report, is_editable, require, history, save, manager_report, submit_report, approve_report,
}
use internet_ms.WorkReports.Reports.Moves.{put}
use internet_ms.WorkReports.Reports.Validity.{IsValid}
use internet_ms.WorkReports.Reports.Lifecycle.{find-put}

abbrev pub submitted_row : ℕ → Report → Report
submitted_row now r = record r {
  status = ReportStatus.submitted;
  submitted_at = some now;
  rejection_reason = [];
}

abbrev pub approved_row : ℕ → Membership → Report → Report
approved_row now m r = record r {
  status = ReportStatus.approved;
  approved_by_id = some m.pk;
  approved_at = some now;
  rejection_reason = [];
}

abbrev sending : ReportStatus → ReportEvent
sending status = if is_rejected status then ReportEvent.resubmitted else ReportEvent.submitted

abbrev entry : Report → Membership → ReportEvent → Option ReportStatus → HistoryEntry
entry r m event from = record {
  report_id = r.pk;
  actor_membership_id = m.pk;
  event = event;
  from_status = from;
  to_status = r.status;
  reason = [];
}

abbrev logged_store : Report → Membership → ReportEvent → Option ReportStatus → Store → Store
logged_store r m event from s = record s {
  reports = put r s.reports;
  history = s.history ++ entry r m event from ∷ [];
}

module _ (valid_fields : Report → Bool) where
  approve-succeeds :
      (now today : ℕ) (m : Membership) (s : Store) (r : Report)
      → find (λ x. x.pk == r.pk) s.reports ≡ some r
      → find (λ x. x.pk == r.pk && x.tenant_id == m.tenant_id) s.reports ≡ some r
      → r.status ≡ ReportStatus.submitted
      → require s m PermissionCode.technician_work_reports_approve m.tenant_id ≡ ok tt
      → valid_fields (approved_row now m r) ≡ true
      → clean today s (approved_row now m r) ≡ true
      → approve_report valid_fields now today r.pk m none s
        ≡ ok (
          approved_row now m r,
          logged_store (approved_row now m r) m ReportEvent.approved (some r.status) s,
        )
  unfolding approve_report manager_report save history
  approve-succeeds now today m s r here found state permitted valid cleaned =
      let own : (m.tenant_id == r.tenant_id) ≡ true = ground (
        arith,
        find-satisfies (λ x. x.pk == r.pk && x.tenant_id == m.tenant_id) s.reports r found,
      ) in
      rw (permitted, found, here, valid, cleaned, own, state) refl

  submit-succeeds :
      (now today : ℕ) (w : Membership) (s : Store) (r : Report)
      → find (λ x. x.pk == r.pk) s.reports ≡ some r
      → find (is_own_report r.pk w) s.reports ≡ some r
      → is_editable r.status ≡ true
      → any (is_day_of r) s.service_days ≡ true
      → require s w PermissionCode.technician_work_reports_submit_own w.tenant_id ≡ ok tt
      → valid_fields (submitted_row now r) ≡ true
      → clean today s (submitted_row now r) ≡ true
      → submit_report valid_fields now today r.pk w s
        ≡ ok (
          submitted_row now r,
          logged_store (submitted_row now r) w (sending r.status) (some r.status) s,
        )
  unfolding submit_report save history
  submit-succeeds now today w s r here found editable dated permitted valid cleaned =
      let own : (w.tenant_id == r.tenant_id) ≡ true =
        ground (arith, find-satisfies (is_own_report r.pk w) s.reports r found) in
      let open_still : is_approved r.status ≡ false = ground (arith, editable) in
      rw (permitted, found, here, editable, dated, valid, cleaned, own, open_still) refl

submitted-clean :
    (now today : ℕ) (s : Store) (r : Report)
    → clean today s r ≡ true
    → is_editable r.status ≡ true
    → clean today s (submitted_row now r) ≡ true
unfolding clean
submitted-clean now today s r h editable = ground (arith, h)

approved-clean :
    (now today : ℕ) (s : Store) (m : Membership) (r : Report)
    → clean today s r ≡ true
    → find (λ x. x.pk == m.pk) s.memberships ≡ some m
    → r.tenant_id ≡ m.tenant_id
    → clean today s (approved_row now m r) ≡ true
unfolding clean
approved-clean now today s m r h member tenant = rw member (ground (arith, h, tenant))

find-both :
    (k : ℕ) (test : Report → Bool) (rows : List Report) (x : Report)
    → find (λ y. y.pk == k) rows ≡ some x
    → test x ≡ true
    → find (λ y. y.pk == k && test y) rows ≡ some x
find-both k test [] x h t = cc
find-both k test (y ∷ rows) x h t = elim (Bool-cases (y.pk == k)) [
  | inl e ↦
      let same : y ≡ x = some-eq (rw e at h) in
      let passes : test y ≡ true = ap test same ∙ t in rw (e, passes) (ap some same)
  | inr e ↦ let later = rw e at h in rw e (find-both k test rows x later t)
]

module _ (valid_fields : Report → Bool) where
  -- A draft or rejected report of a valid table can be brought to approval, by two calls: its technician, who
  -- may submit it, submits it, and then a member of the tenant who may approve it approves it; both succeed. It has a work day,
  -- its row passes `clean`, and the validation of single fields passes for rows with its details. The
  -- approved report has its details, and names the member.
  pub draft_can_be_approved :
      (now later today : ℕ) (w m : Membership) (s : Store) (r : Report)
      → IsValid s
      → find (is_own_report r.pk w) s.reports ≡ some r
      → is_editable r.status ≡ true
      → any (is_day_of r) s.service_days ≡ true
      → require s w PermissionCode.technician_work_reports_submit_own w.tenant_id ≡ ok tt
      → m.tenant_id ≡ w.tenant_id
      → find (λ x. x.pk == m.pk) s.memberships ≡ some m
      → require s m PermissionCode.technician_work_reports_approve m.tenant_id ≡ ok tt
      → clean today s r ≡ true
      → ((x : Report) → x.details ≡ r.details → valid_fields x ≡ true)
      → (sent : Report) × (middle : Store) × (done : Report) × (last : Store) × (submit_report
            valid_fields now today r.pk w s
          ≡ ok (sent, middle))
        × (approve_report valid_fields later today r.pk m none middle ≡ ok (done, last))
        × (find (λ x. x.pk == r.pk) last.reports ≡ some done)
        × (done.status ≡ ReportStatus.approved)
        × (done.details ≡ r.details)
        × (done.approved_by_id ≡ some m.pk)
  unfolding require clean
  draft_can_be_approved now later today w m s r valid found editable dated may_submit tenant member
        may_approve cleaned fields =
      let here = find-key (λ x. x.pk) (is_own_report r.pk w) s.reports r valid.distinct found in
      let own : r.tenant_id ≡ m.tenant_id =
        ground (arith, find-satisfies (is_own_report r.pk w) s.reports r found, tenant) in
      let sent = submitted_row now r in
      let clean_sent = submitted-clean now today s r cleaned editable in
      let middle = logged_store sent w (sending r.status) (some r.status) s in
      let self : (r.pk == r.pk) ≡ true = (==_iff r.pk r.pk).1 refl in
      let there : find (λ x. x.pk == r.pk) middle.reports ≡ some sent =
        find-put r.pk sent r s.reports here ∙ rw self refl in
      let in_tenant : (sent.tenant_id == m.tenant_id) ≡ true =
        (==_iff r.tenant_id m.tenant_id).1 own in
      let done = approved_row later m sent in
      let last = logged_store done m ReportEvent.approved (some sent.status) middle in
      let submits =
        submit-succeeds valid_fields now today w s r here found editable dated may_submit
          (fields sent refl) clean_sent in
      let approves =
        approve-succeeds valid_fields later today m middle sent there
          (find-both r.pk (λ x. x.tenant_id == m.tenant_id) middle.reports sent there in_tenant)
          refl may_approve (fields done refl)
          (approved-clean later today s m sent clean_sent member own) in
      (
        sent,
        middle,
        done,
        last,
        submits,
        approves,
        find-put r.pk done sent middle.reports there ∙ rw self refl,
        refl,
        refl,
        refl,
      )
