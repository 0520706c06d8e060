-- ===== src/Billing/Invoices.antt =====
-- billing/services.py: voiding an invoice, also through its subscription period.
pub mod Effects
use internet_ms.Base.{
  ℕ, Bool, true, false, not, ◌&&◌, ◌||◌, Option, none, some, ◌==◌, ltb, length, any, find, update,
}
use internet_ms.Base.Text.{Text, strip, codes, is_empty}
use internet_ms.Base.Result.{Result, ok, ◌>>=◌, ◌>>◌, raise_if, or_raise}
use internet_ms.Billing.Errors.{
  BillingError, reason_required, linked_period, not_voidable, period_not_found,
  period_without_invoice, period_paid, period_not_open, invoice_not_found, not_an_invoice,
}
use internet_ms.Billing.Models.{Document, Status, Period, PeriodStatus, is_invoice, is_paid_period}
use internet_ms.Billing.Ledger.{Ledger, update_document, log_action}
use internet_ms.Billing.ActionState.{get_invoice_action_state}
use internet_ms.Billing.Documents.{require_same_tenant, resolve_invoice}
use internet_ms.Users.Models.{same_key}

abbrev pub is_period_of : ℕ → ℕ → Period → Bool
is_period_of organization invoice p =
    p.organization_id == organization && same_key p.invoice_id (some invoice)

abbrev pub void_document : ℕ → Document → Document
void_document now d = record d { status = Status.void; voided_at = some now }

unfoldable pub void_invoice :
    ℕ → ℕ → ℕ → Text → Bool → Ledger → Result BillingError (Document × Ledger)
void_invoice now organization invoice_id reason allow_linked_subscription_period l = do
  raise_if (ltb (length (strip reason)) 5) reason_required
  invoice ← resolve_invoice organization invoice_id l
  raise_if
      (not allow_linked_subscription_period && any (is_period_of organization invoice.pk) l.periods)
      linked_period
  raise_if (not (get_invoice_action_state l.documents organization invoice).can_void) not_voidable
  ok (
    void_document now invoice,
    log_action "invoice_voided" invoice.pk (update_document invoice.pk (void_document now) l),
  )

unfoldable pub cancel_invoice : ℕ → ℕ → ℕ → Ledger → Result BillingError (Document × Ledger)
unfolding void_invoice
cancel_invoice now organization invoice_id =
    void_invoice now organization invoice_id (codes "Legacy cancel action converted to void.") false

abbrev pub is_voidable_period : PeriodStatus → Bool
is_voidable_period PeriodStatus.invoiced = true
is_voidable_period PeriodStatus.overdue = true
is_voidable_period _ = false

abbrev pub has_key : Option ℕ → Bool
has_key none = false
has_key (some _) = true

abbrev pub update_period : ℕ → (Period → Period) → Ledger → Ledger
update_period pk f l = record l { periods = update (λ p. p.pk == pk) f l.periods }

abbrev pub cancel_period : Period → Period
cancel_period p = record p { status = PeriodStatus.cancelled }

-- The invoice of a period is a foreign key, so its row is there.
unfoldable pub void_subscription_invoice :
    ℕ → ℕ → ℕ → Text → Ledger → Result BillingError (Period × Ledger)
void_subscription_invoice now organization period_id reason l = do
  raise_if (is_empty (strip reason)) reason_required
  period ←
      or_raise (find (λ p. p.pk == period_id && p.organization_id == organization) l.periods)
        period_not_found
  invoice_id ← or_raise period.invoice_id period_without_invoice
  raise_if (has_key period.receipt_id || is_paid_period period.status) period_paid
  raise_if (not (is_voidable_period period.status)) period_not_open
  invoice ← or_raise (find (λ d. d.pk == invoice_id) l.documents) invoice_not_found
  require_same_tenant organization invoice
  raise_if (not (is_invoice invoice.document_type)) not_an_invoice
  (_, voided) ← void_invoice now organization invoice.pk (strip reason) true l
  ok (
    cancel_period period,
    log_action "subscription.invoice_voided" invoice.pk
        (update_period period.pk cancel_period voided),
  )
