-- ===== src/WorkReports/Reports/Validity.antt =====
-- Valid tables of reports, and that a move keeps them valid: work_reports/models.py, `clean`.
use internet_ms.Base.{
  ℕ, ◌<◌, ◌≡◌, sym, subst, Bool, true, false, [], ◌∷◌, ◌==◌, All, All-map, All-append, All-of,
  All-update, Distinct, update-Distinct, append-Distinct, ==_iff, arith, find-All,
}
use internet_ms.Base.Text.{strip, is_empty}
use internet_ms.WorkReports.Models.{
  Report, ReportStatus, Store, clean, is_rejected, is_approved, is_some,
}
use internet_ms.WorkReports.Reports.Moves.{IsReplaced, HasMoved, HasCreated}

-- An approved report names its approver and the moment, a rejected one has a reason.
abbrev pub IsReviewed : Report → Type 0
IsReviewed r =
    (is_approved r.status ≡ true
      → (is_some r.approved_by_id ≡ true) × (is_some r.approved_at ≡ true))
    × (is_rejected r.status ≡ true → is_empty (strip r.rejection_reason) ≡ false)

pub record IsValid (s : Store) : Type 0 where
  pub distinct : Distinct (λ r. r.pk) s.reports
  pub below : All (λ r. r.pk < s.next_id) s.reports
  pub reviewed : All IsReviewed s.reports

pub clean-IsReviewed : (today : ℕ) (s : Store) (r : Report) → clean today s r ≡ true → IsReviewed r
unfolding clean
clean-IsReviewed today s r h = ((λ k. (ground arith, ground arith)), (λ k. ground arith))

pub moved-IsValid :
    (today : ℕ) (allowed : ReportStatus → ReportStatus → Bool) (r : Report) (s s' : Store)
    → HasMoved today allowed r s s'
    → IsValid s
    → IsValid s'
unfolding HasMoved IsReplaced
moved-IsValid today allowed r s s' (q, old, found, _, _, (key, cleaned, rows, next, _)) valid =
    record {
      distinct = rw rows (
          update-Distinct (λ x. x.pk) (λ x. x.pk == r.pk) (λ _. r) s.reports
            (All-of _ s.reports (λ d e. sym ((==_iff d.pk r.pk).0 e))) valid.distinct);
      below =
          rw (rows, next)
            (All-update (λ x. x.pk) (λ x. x.pk < s.next_id) (λ x. x.pk == r.pk) (λ _. r) s.reports
              (All-of _ s.reports (λ d e.
                subst (λ n. n < s.next_id) (sym key)
                  (find-All (λ x. x.pk < s.next_id) q s.reports old valid.below found)))
              valid.below);
      reviewed = rw rows (
          All-update (λ x. x.pk) IsReviewed (λ x. x.pk == r.pk) (λ _. r) s.reports
            (All-of _ s.reports (λ d e. clean-IsReviewed today s r cleaned)) valid.reviewed);
    }

pub created-IsValid :
    (today : ℕ) (r : Report) (s s' : Store) → HasCreated today r s s' → IsValid s → IsValid s'
unfolding HasCreated
created-IsValid today r s s' (key, draft, cleaned, rows, next, _) valid = record {
  distinct =
      rw rows (append-Distinct (λ x. x.pk) s.next_id s.reports r valid.distinct valid.below key);
  below =
      rw (rows, next)
        (All-append _ s.reports (r ∷ [])
          (All-map (λ x. x.pk < s.next_id) _ s.reports (λ x b. omega arith) valid.below)
          (omega arith, tt));
  reviewed = rw rows (
      All-append IsReviewed s.reports (r ∷ []) valid.reviewed
        (clean-IsReviewed today s r cleaned, tt));
}
