-- ===== src/Billing/Ledger.antt =====
-- billing/services.py: the tables that the billing services work on, and the balances that they
-- derive from them. A service that raises rolls its transaction back, so it returns no new tables.
pub mod Sums
use internet_ms.Base.{
  ℕ, String, Bool, true, false, ◌&&◌, Option, some, List, [], ◌∷◌, ◌++◌, ◌==◌, filter, find, update,
  if◌then◌else◌,
}
use internet_ms.Base.Int.{ℤ, pos, ◌+ℤ◌, ◌-ℤ◌, neg_ℤ, max_ℤ}
use internet_ms.Billing.Models.{
  Document, DocumentType, Status, Period, Subscription, is_invoice, is_receipt, is_credit_note,
  is_issued,
}
use internet_ms.Users.Models.{same_key}

-- A row of the audit log that `_log_action` writes; the snapshots are left out.
pub record AuditEntry : Type 0 where
  pub action : String
  pub document_id : ℕ

pub record Ledger : Type 0 where
  pub documents : List Document
  pub periods : List Period
  pub subscriptions : List Subscription
  pub audit : List AuditEntry
  pub next_id : ℕ

unfoldable pub total_sum : List Document → ℤ
total_sum [] = pos 0
total_sum (d ∷ ds) = d.total +ℤ total_sum ds

abbrev pub is_receipt_of : ℕ → ℕ → Document → Bool
is_receipt_of organization invoice d =
    d.organization_id == organization
    && is_receipt d.document_type
    && same_key d.invoice_id (some invoice)

abbrev pub is_credit_of : ℕ → ℕ → Document → Bool
is_credit_of organization invoice d =
    d.organization_id == organization
    && is_credit_note d.document_type
    && same_key d.corrected_invoice_id (some invoice)
    && is_issued d.status

unfoldable pub invoice_paid_total : List Document → ℕ → Document → ℤ
invoice_paid_total documents organization invoice =
    total_sum (filter (is_receipt_of organization invoice.pk) documents)

unfoldable pub invoice_credited_total : List Document → ℕ → Document → ℤ
invoice_credited_total documents organization invoice =
    max_ℤ (neg_ℤ (total_sum (filter (is_credit_of organization invoice.pk) documents))) (pos 0)

unfoldable pub invoice_remaining_balance : List Document → ℕ → Document → ℤ
invoice_remaining_balance documents organization invoice =
    max_ℤ
      (invoice.total
        -ℤ invoice_paid_total documents organization invoice
        -ℤ invoice_credited_total documents organization invoice)
      (pos 0)

unfoldable pub invoice_credit_capacity : List Document → ℕ → Document → ℤ
unfolding invoice_remaining_balance
invoice_credit_capacity = invoice_remaining_balance

-- `filter(pk=…)` with the document type
abbrev pub find_document : (DocumentType → Bool) → ℕ → List Document → Option Document
find_document is_type pk documents = find (λ d. d.pk == pk && is_type d.document_type) documents

-- `filter(pk=…).update(…)`
abbrev pub update_document : ℕ → (Document → Document) → Ledger → Ledger
update_document pk f l = record l { documents = update (λ d. d.pk == pk) f l.documents }

abbrev pub log_action : String → ℕ → Ledger → Ledger
log_action action document_id l = record l {
  audit = l.audit ++ (record { action = action; document_id = document_id }) ∷ [];
}

-- `documents.filter(…)` of `customer_open_invoice_balance`
abbrev pub is_open_account : Status → Bool
is_open_account Status.sent = true
is_open_account Status.issued = true
is_open_account Status.partially_paid = true
is_open_account Status.approved = true
is_open_account _ = false

abbrev pub is_open_invoice_of : ℕ → ℕ → Option ℕ → Document → Bool
is_open_invoice_of organization customer excluded d =
    d.organization_id == organization
    && d.customer_id == customer
    && (if d.is_walk_in_sale then false else true)
    && is_invoice d.document_type
    && is_open_account d.status
    && (if same_key (some d.pk) excluded then false else true)

unfoldable pub balance_sum : List Document → ℕ → List Document → ℤ
unfolding invoice_remaining_balance
balance_sum documents organization [] = pos 0
balance_sum documents organization (d ∷ ds) =
    invoice_remaining_balance documents organization d +ℤ balance_sum documents organization ds

unfoldable pub customer_open_invoice_balance : List Document → ℕ → ℕ → Option ℕ → ℤ
unfolding balance_sum
customer_open_invoice_balance documents organization customer exclude_invoice_id =
    balance_sum documents organization
      (filter (is_open_invoice_of organization customer exclude_invoice_id) documents)
