-- ===== src/WorkReports/Settlement/Steps.antt =====
-- Calls of the report services and of the payment services in any order: work_reports/services.py.
use internet_ms.Base.{
  ℕ, ◌≡◌, ◌∙◌, refl, sym, ap, Bool, true, false, not, ◌&&◌, List, [], ◌∷◌, some, find, any, All,
  All-both, All-map, All-of, Distinct, find-All, find-satisfies, find-append_some, found_unique,
  arith, ◌==◌, ==_iff, if◌then◌else◌, Bool-cases, inl, inr,
}
use internet_ms.Base.Int.{eq_ℤ, eq_ℤ_iff}
use internet_ms.WorkReports.PaymentRows.{Payment}
use internet_ms.WorkReports.Models.{Report, ReportStatus, Store, is_approved}
use internet_ms.WorkReports.Reports.Moves.{IsReplaced, HasMoved, HasCreated}
use internet_ms.WorkReports.Reports.Validity.{IsValid}
use internet_ms.WorkReports.Reports.Lifecycle.{find-put}
use internet_ms.WorkReports.Settlement.{IsAgreed, IsSettled}

-- A report with a payment stays approved, for its amount.
abbrev KeepsTerms : Report → Report → Payment → Type 0
KeepsTerms old r p =
    p.report_id ≡ old.pk
    → old.status ≡ ReportStatus.approved
    → (r.status ≡ ReportStatus.approved) × (r.details.agreed_amount ≡ old.details.agreed_amount)

replaced-IsAgreed :
    (today : ℕ) (q : Report → Bool) (old r : Report) (s s' : Store) (p : Payment)
    → Distinct (λ x. x.pk) s.reports
    → find q s.reports ≡ some old
    → IsReplaced today old r s s'
    → KeepsTerms old r p × IsAgreed s p
    → IsAgreed s' p
unfolding IsReplaced
replaced-IsAgreed today q old r s s' p distinct found (key, _, rows, _, _)
      (keeps, (x, here, approved, amount)) =
    let there : find (λ y. y.pk == p.report_id) s'.reports ≡ some (if x.pk == r.pk then r else x) =
      rw rows (find-put p.report_id r x s.reports here) in
    elim (Bool-cases (x.pk == r.pk)) [
      | inl same ↦
          let is_old : x ≡ old =
            find-All _ (λ y. y.pk == p.report_id) s.reports x
              (found_unique (λ y. y.pk) q s.reports old distinct found) here (rw (sym key) same) in
          let named : p.report_id ≡ old.pk =
            sym (
              (==_iff x.pk p.report_id).0
                (find-satisfies (λ y. y.pk == p.report_id) s.reports x here))
            ∙ ap (λ y. y.pk) is_old in
          let terms = keeps named (ap (λ y. y.status) (sym is_old) ∙ approved) in
          (
            r,
            there ∙ rw same refl,
            terms.0,
            amount ∙ ap (λ y. y.details.agreed_amount) is_old ∙ sym terms.1,
          )
      | inr other ↦ (x, there ∙ rw other refl, approved, amount)
    ]

replaced-IsSettled :
    (today : ℕ) (q : Report → Bool) (old r : Report) (s s' : Store)
    → Distinct (λ x. x.pk) s.reports
    → find q s.reports ≡ some old
    → IsReplaced today old r s s'
    → All (KeepsTerms old r) s.payments
    → IsSettled s
    → IsSettled s'
unfolding IsReplaced
replaced-IsSettled today q old r s s' distinct found replaced keeps settled =
    let next = replaced.3 in
    let payments = replaced.4 in
    record {
      distinct = rw payments settled.distinct;
      below = rw (payments, next) settled.below;
      one_active = rw payments settled.one_active;
      agreed = rw payments (
          All-map _ (IsAgreed s') s.payments
            (λ p h. replaced-IsAgreed today q old r s s' p distinct found replaced h)
            (All-both _ _ s.payments keeps settled.agreed));
    }

-- A report that is not approved has no payment to keep.
pub moved_IsSettled :
    (today : ℕ) (allowed : ReportStatus → ReportStatus → Bool) (r : Report) (s s' : Store)
    → ((a b : ReportStatus) → allowed a b ≡ true → is_approved a ≡ false)
    → HasMoved today allowed r s s'
    → IsValid s
    → IsSettled s
    → IsSettled s'
unfolding HasMoved
moved_IsSettled today allowed r s s' before (q, old, found, allows, _, replaced) valid settled =
    replaced-IsSettled today q old r s s' valid.distinct found replaced
      (All-of _ s.payments
        (λ p _ approved. absurd (ground (arith, before old.status r.status allows, approved))))
      settled

pub created-IsSettled :
    (today : ℕ) (r : Report) (s s' : Store) → HasCreated today r s s' → IsSettled s → IsSettled s'
unfolding HasCreated
created-IsSettled today r s s' (_, _, _, rows, next, payments) settled = record {
  distinct = rw payments settled.distinct;
  below = rw (payments, next) (All-map _ _ s.payments (λ p b. omega (arith, b)) settled.below);
  one_active = rw payments settled.one_active;
  agreed = rw payments (
      All-map (IsAgreed s) (IsAgreed s') s.payments
        (λ p h. (h.0, rw rows (find-append_some _ s.reports (r ∷ []) h.0 h.1), h.2, h.3))
        settled.agreed);
}

pub corrected_IsSettled :
    (today : ℕ) (q : Report → Bool) (old r : Report) (s s' : Store)
    → IsValid s
    → find q s.reports ≡ some old
    → IsReplaced today old r s s'
    → (is_approved old.status && is_approved r.status) ≡ true
    → (not (eq_ℤ r.details.agreed_amount old.details.agreed_amount)
        && any (λ p. p.report_id == old.pk) s.payments)
      ≡ false
    → IsSettled s
    → IsSettled s'
corrected_IsSettled today q old r s s' valid found replaced approved unpaid settled =
    replaced-IsSettled today q old r s s' valid.distinct found replaced (terms s.payments unpaid)
      settled
  where
    terms :
        (ps : List Payment)
        → (not (eq_ℤ r.details.agreed_amount old.details.agreed_amount)
            && any (λ p. p.report_id == old.pk) ps)
          ≡ false
        → All (KeepsTerms old r) ps
    terms [] h = tt
    terms (p ∷ ps) h = (
      (λ named _. (
        ground (arith, approved),
        (eq_ℤ_iff r.details.agreed_amount old.details.agreed_amount).0 (ground (arith, h, named)),
      )),
      terms ps (ground (arith, h)),
    )
