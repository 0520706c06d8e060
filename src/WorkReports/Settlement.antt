-- ===== src/WorkReports/Settlement.antt =====
-- What holds of the table of technician payments between two calls: work_reports/services.py.
pub mod Primitives
pub mod Keeping
pub mod Payments
mod BatchParts
pub mod Batches
pub mod Steps
pub mod Refusals
pub mod Runs
mod Tests
use internet_ms.Base.{
  ℕ, suc, ◌<◌, ◌≡◌, ◌≢◌, Bool, true, false, not, ◌&&◌, List, [], ◌∷◌, some, All, Distinct,
}
use internet_ms.WorkReports.PaymentRows.{Payment, is_voided}
use internet_ms.WorkReports.Models.{Report, ReportStatus, Store}
use internet_ms.WorkReports.PaymentChecks.{report_of}

abbrev pub is_active : Payment → Bool
is_active p = not (is_voided p.lifecycle.status)

-- No report has two payments that are not voided.
unfoldable pub OneActive : List Payment → Type 0
OneActive [] = Unit
OneActive (p ∷ ps) =
    All (λ q. is_active p ≡ true → is_active q ≡ true → q.report_id ≢ p.report_id) ps × OneActive ps

-- The report that a payment pays is there and approved, for the amount that the payment was agreed at.
abbrev pub IsAgreed : Store → Payment → Type 0
IsAgreed s p =
    (r : Report) × (report_of s p.report_id ≡ some r)
    × (r.status ≡ ReportStatus.approved)
    × (p.agreed_amount_snapshot ≡ r.details.agreed_amount)

pub record IsSettled (s : Store) : Type 0 where
  pub distinct : Distinct (λ p. p.pk) s.payments
  pub below : All (λ p. p.pk < s.next_id) s.payments
  pub one_active : OneActive s.payments
  pub agreed : All (IsAgreed s) s.payments
