-- ===== src/Billing/Examples.antt =====
-- A concrete ledger for the runs of the billing services.
use internet_ms.Base.{true, false, none, some, [], ◌∷◌}
use internet_ms.Base.Int.{pos}
use internet_ms.Base.Text.{Text, codes}
use internet_ms.Base.Result.{Result, ok, err}
use internet_ms.Billing.Models.{Document, DocumentType, Status}
use internet_ms.Billing.Ledger.{Ledger}
use internet_ms.Billing.Receipts.{Inventory}

abbrev pub quotation : Document
quotation = record {
  pk = 1;
  organization_id = 1;
  tenant_id = 1;
  document_type = DocumentType.quotation;
  status = Status.sent;
  customer_id = 5;
  is_walk_in_sale = false;
  issue_date = 100;
  tax_rate = pos 1800;
  subtotal = pos 10000;
  tax_amount = pos 1800;
  total = pos 11800;
  balance_brought_forward = pos 0;
  invoice_id = none;
  corrected_invoice_id = none;
  is_current_version = true;
  converted_invoice_id = none;
  payment_date = none;
  payment_method = [];
  payment_reference = [];
  created_by_membership_id = some 7;
  responsible_membership_id = some 7;
  sent_at = none;
  accepted_at = none;
  rejected_at = none;
  expired_at = none;
  voided_at = none;
}

abbrev pub invoice : Document
invoice = record quotation { pk = 2; document_type = DocumentType.invoice; status = Status.issued }

abbrev pub books : Ledger
books = record {
  documents = quotation ∷ invoice ∷ [];
  periods = [];
  subscriptions = [];
  audit = [];
  next_id = 3;
}

-- The texts of the examples are ASCII.
abbrev pub same_text : Text → Text
same_text t = t

-- No invoice is a stock sale.
abbrev pub no_stock : Inventory
no_stock = record {
  Stock = Unit {0};
  requires_full_payment = λ _ _ _. false;
  complete_invoice_sale = λ _ _ _ _. none;
}

abbrev pub value {ℓ κ} : {E : Type ℓ} {A : Type κ} → A → Result E A → A
value default (ok a) = a
value default (err _) = default

abbrev pub cash : Text
cash = codes " Cash "

abbrev pub slip : Text
slip = codes "TX-1"

abbrev pub why : Text
why = codes "Entered twice"
