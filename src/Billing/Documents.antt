-- ===== src/Billing/Documents.antt =====
-- billing/services.py: resolving and storing documents.
use internet_ms.Base.{
  ℕ, suc, Bool, true, false, not, ◌&&◌, ◌||◌, Option, none, some, List, [], ◌∷◌, ◌++◌, ◌==◌,
}
use internet_ms.Base.Int.{ℤ, pos, ◌-ℤ◌, ◌*ℤ◌, ltb_ℤ}
use internet_ms.Base.Text.{Text}
use internet_ms.Base.Decimal.{round_half_even}
use internet_ms.Base.Result.{Result, ok, ◌>>=◌, ◌>>◌, raise_if, or_raise}
use internet_ms.Billing.Errors.{
  BillingError, cross_tenant, invoice_not_found, quotation_not_found, negative_line,
  status_not_allowed,
}
use internet_ms.Billing.Models.{
  Document, DocumentType, Status, is_invoice, is_quotation, is_credit_note,
}
use internet_ms.Billing.Totals.{Line, Totals, compute_totals}
use internet_ms.Billing.Ledger.{Ledger, find_document}

unfoldable pub require_same_tenant : ℕ → Document → Result BillingError (Unit {0})
require_same_tenant organization d =
    raise_if (not (d.organization_id == organization) || not (d.tenant_id == organization))
      cross_tenant

unfoldable pub resolve_invoice : ℕ → ℕ → Ledger → Result BillingError Document
unfolding require_same_tenant
resolve_invoice organization invoice_id l = do
  invoice ← or_raise (find_document is_invoice invoice_id l.documents) invoice_not_found
  require_same_tenant organization invoice
  raise_if (not (invoice.organization_id == organization)) cross_tenant
  ok invoice

unfoldable pub resolve_quotation : ℕ → ℕ → Ledger → Result BillingError Document
unfolding require_same_tenant
resolve_quotation organization quotation_id l = do
  quotation ← or_raise (find_document is_quotation quotation_id l.documents) quotation_not_found
  require_same_tenant organization quotation
  raise_if (not (quotation.organization_id == organization)) cross_tenant
  ok quotation

-- `status in allowed_by_type.get(document_type)`
abbrev pub is_allowed_status : DocumentType → Status → Bool
is_allowed_status DocumentType.invoice Status.draft = true
is_allowed_status DocumentType.invoice Status.issued = true
is_allowed_status DocumentType.quotation Status.draft = true
is_allowed_status DocumentType.quotation Status.sent = true
is_allowed_status DocumentType.quotation Status.accepted = true
is_allowed_status DocumentType.quotation Status.rejected = true
is_allowed_status DocumentType.quotation Status.expired = true
is_allowed_status DocumentType.credit_note Status.issued = true
is_allowed_status DocumentType.receipt Status.paid = true
is_allowed_status _ _ = false

unfoldable pub validate_document_status : DocumentType → Status → Result BillingError (Unit {0})
validate_document_status document_type status =
    raise_if (not (is_allowed_status document_type status)) status_not_allowed

-- A line with no product, package, service, subscription or promotion: the quantity in hundredths,
-- the price and the discount in cents.
pub record LineItemInput : Type 0 where
  pub quantity : ℤ
  pub unit_price : ℤ
  pub discount_amount : ℤ

unfoldable pub line_total : LineItemInput → ℤ
line_total item =
    round_half_even (item.quantity *ℤ item.unit_price -ℤ item.discount_amount *ℤ pos 100) 100

-- `_build_line_items` on such lines.
unfoldable pub build_line_items : Bool → List LineItemInput → Result BillingError (List Line)
build_line_items is_credit [] = ok []
build_line_items is_credit (item ∷ items) = do
  raise_if (ltb_ℤ (line_total item) (pos 0) && not is_credit) negative_line
  rest ← build_line_items is_credit items
  ok ((record { line_total = line_total item; taxable = true }) ∷ rest)

-- The arguments of `_store_document`; `invoice` is the invoice that a receipt settles.
pub record NewDocument : Type 0 where
  pub document_type : DocumentType
  pub customer_id : ℕ
  pub is_walk_in_sale : Bool
  pub issue_date : ℕ
  pub status : Status
  pub tax_rate : ℤ
  pub discount_amount : ℤ
  pub balance_brought_forward : ℤ
  pub items : List LineItemInput
  pub invoice : Option Document
  pub corrected_invoice_id : Option ℕ
  pub payment_date : Option ℕ
  pub payment_method : Text
  pub payment_reference : Text

abbrev pub stamp : Bool → ℕ → Option ℕ
stamp true now = some now
stamp false now = none

abbrev pub is_sent : Status → Bool
is_sent Status.sent = true
is_sent _ = false

abbrev pub is_accepted_or_approved : Status → Bool
is_accepted_or_approved Status.accepted = true
is_accepted_or_approved Status.approved = true
is_accepted_or_approved _ = false

abbrev pub is_rejected : Status → Bool
is_rejected Status.rejected = true
is_rejected _ = false

abbrev pub is_expired : Status → Bool
is_expired Status.expired = true
is_expired _ = false

abbrev pub is_void_or_cancelled : Status → Bool
is_void_or_cancelled Status.void = true
is_void_or_cancelled Status.cancelled = true
is_void_or_cancelled _ = false

abbrev pub key_of : Option Document → Option ℕ
key_of none = none
key_of (some d) = some d.pk

-- `getattr(invoice, "responsible_membership", None) or actor_membership`
abbrev pub responsible : Option Document → Option ℕ → Option ℕ
responsible none actor = actor
responsible (some d) actor = elim d.responsible_membership_id [ none ↦ actor | some m ↦ some m ]

abbrev pub document_row : ℕ → ℕ → Option ℕ → NewDocument → Totals → ℕ → Document
document_row now organization actor n t pk = record {
  pk = pk;
  organization_id = organization;
  tenant_id = organization;
  document_type = n.document_type;
  status = n.status;
  customer_id = n.customer_id;
  is_walk_in_sale = n.is_walk_in_sale;
  issue_date = n.issue_date;
  tax_rate = n.tax_rate;
  subtotal = t.subtotal;
  tax_amount = t.tax_amount;
  total = t.total;
  balance_brought_forward = n.balance_brought_forward;
  invoice_id = key_of n.invoice;
  corrected_invoice_id = n.corrected_invoice_id;
  is_current_version = true;
  converted_invoice_id = none;
  payment_date = n.payment_date;
  payment_method = n.payment_method;
  payment_reference = n.payment_reference;
  created_by_membership_id = actor;
  responsible_membership_id = responsible n.invoice actor;
  sent_at = stamp (is_sent n.status) now;
  accepted_at = stamp (is_accepted_or_approved n.status) now;
  rejected_at = stamp (is_rejected n.status) now;
  expired_at = stamp (is_expired n.status) now;
  voided_at = stamp (is_void_or_cancelled n.status) now;
}

-- `actor` is the active membership of `created_by` in the organization, if there is one.
unfoldable pub store_document :
    ℕ → ℕ → Option ℕ → NewDocument → Ledger → Result BillingError (Document × Ledger)
store_document now organization actor n l = do
  created_items ← build_line_items (is_credit_note n.document_type) n.items
  totals ← compute_totals n.tax_rate created_items n.discount_amount
  let document = document_row now organization actor n totals l.next_id
  ok (document, record l { documents = l.documents ++ document ∷ []; next_id = suc l.next_id })
