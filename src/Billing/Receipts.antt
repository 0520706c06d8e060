-- ===== src/Billing/Receipts.antt =====
-- billing/services.py, `create_receipt_from_invoice`: a payment against an invoice. The inventory
-- service stands behind an interface, and `str.lower` beyond ASCII is a parameter, `lower_wide`.
mod Stored
pub mod Effects
pub mod Repeat
use internet_ms.Base.{
  ℕ, Bool, not, ◌&&◌, ◌||◌, Option, none, some, List, [], ◌∷◌, ◌==◌, find, filter, update, ltb,
  if◌then◌else◌,
}
use internet_ms.Base.Int.{ℤ, pos, ◌-ℤ◌, leb_ℤ, ltb_ℤ, eq_ℤ}
use internet_ms.Base.Text.{Text, strip, lower, codes, text_eq, is_empty}
use internet_ms.Base.Result.{Result, ok, err, ◌>>=◌, ◌>>◌, raise_if, or_raise}
use internet_ms.Billing.Errors.{
  BillingError, invalid_invoice, not_positive, reference_amount, reference_taken, no_payment,
  exceeds_balance, not_full, method_required, inventory_error, not_an_invoice,
}
use internet_ms.Billing.Models.{
  Document, DocumentType, Status, Period, Subscription, is_invoice, is_receipt,
}
use internet_ms.Billing.Ledger.{
  Ledger, find_document, update_document, log_action, invoice_remaining_balance,
}
use internet_ms.Billing.ActionState.{get_invoice_action_state}
use internet_ms.Billing.Documents.{NewDocument, require_same_tenant, store_document}
use internet_ms.Billing.Invoices.{is_period_of}
use internet_ms.Billing.Credits.{settle_period, set_status}
use internet_ms.Users.Models.{same_key}

-- What billing calls of inventory/services.py: whether an invoice is a stock sale, and the completion
-- of the sale, which `none` means to have raised an `InventoryError`.
pub record Inventory : Type 1 where
  pub Stock : Type 0
  pub requires_full_payment : Stock → ℕ → Document → Bool
  pub complete_invoice_sale : Stock → ℕ → Document → Document → Option Stock

pub record PaymentPolicy : Type 0 where
  pub requires_full_payment : Bool
  pub allows_partial_payment : Bool
  pub remaining_balance : ℤ

-- The invoice's row with this reference, whatever its type.
abbrev pub reference_owner : ℕ → Text → List Document → Option Document
reference_owner organization reference =
    find (λ d. d.organization_id == organization && text_eq d.payment_reference reference)

abbrev pub is_repeat : ℕ → Document → Bool
is_repeat invoice owner = is_receipt owner.document_type && same_key owner.invoice_id (some invoice)

abbrev pub is_sale_method : Text → Bool
is_sale_method method =
    text_eq method (codes "cash")
    || text_eq method (codes "bank")
    || text_eq method (codes "mobile_money")
    || text_eq method (codes "other")

abbrev pub receipt_for : ℕ → Document → ℤ → ℕ → Text → Text → NewDocument
receipt_for today invoice amount_paid payment_date payment_method payment_reference = record {
  document_type = DocumentType.receipt;
  customer_id = invoice.customer_id;
  is_walk_in_sale = invoice.is_walk_in_sale;
  issue_date = today;
  status = Status.paid;
  tax_rate = pos 0;
  discount_amount = pos 0;
  balance_brought_forward = pos 0;
  items = (record { quantity = pos 100; unit_price = amount_paid; discount_amount = pos 0 }) ∷ [];
  invoice = some invoice;
  corrected_invoice_id = none;
  payment_date = some payment_date;
  payment_method = payment_method;
  payment_reference = payment_reference;
}

-- `subscription.paid_through_date is None or period.period_end > …`
abbrev pub extend_paid_through : ℕ → Subscription → Subscription
extend_paid_through day s = elim s.paid_through_date [
  | none ↦ record s { paid_through_date = some day }
  | some d ↦ if ltb d day then record s { paid_through_date = some day } else s
]

-- The loop over the invoice's periods.
abbrev pub extend_subscriptions : ℕ → List Period → List Subscription → List Subscription
extend_subscriptions organization [] subscriptions = subscriptions
extend_subscriptions organization (p ∷ ps) subscriptions = extend_subscriptions organization ps (
    update (λ s. s.pk == p.subscription_id && s.organization_id == organization)
      (extend_paid_through p.period_end) subscriptions)

abbrev pub settle_periods : ℕ → ℕ → Document → ℕ → Ledger → Ledger
settle_periods now organization invoice receipt l = record l {
  periods =
      update (is_period_of organization invoice.pk) (settle_period now (some receipt)) l.periods;
  subscriptions =
      extend_subscriptions organization (filter (is_period_of organization invoice.pk) l.periods)
        l.subscriptions;
}

abbrev pub or_today : Option ℕ → ℕ → ℕ
or_today none today = today
or_today (some day) today = day

-- From the stored receipt on: the invoice's status, its periods and the log.
abbrev pub settle_invoice : ℕ → ℕ → Document → Document → Bool → Ledger → Ledger
settle_invoice now organization invoice receipt is_partial l =
    let paid =
      update_document invoice.pk
        (set_status (if is_partial then Status.partially_paid else Status.paid)) l in
    log_action "billing.payment.registered" receipt.pk
      (if is_partial then paid else settle_periods now organization invoice receipt.pk paid)

module _ (inventory : Inventory) where
  abbrev pub Stock : Type 0
  Stock = inventory.Stock

  unfoldable pub invoice_payment_policy :
      Stock → List Document → ℕ → Document → Result BillingError PaymentPolicy
  unfolding require_same_tenant
  invoice_payment_policy stock documents organization invoice = do
    require_same_tenant organization invoice
    raise_if (not (is_invoice invoice.document_type)) not_an_invoice
    let full = inventory.requires_full_payment stock organization invoice
    ok (record {
      requires_full_payment = full;
      allows_partial_payment = not full;
      remaining_balance = invoice_remaining_balance documents organization invoice;
    })

  abbrev pub complete_sale : Bool → Stock → ℕ → Document → Document → Result BillingError Stock
  complete_sale inventory_sale stock organization invoice receipt =
      if inventory_sale
      then or_raise (inventory.complete_invoice_sale stock organization invoice receipt)
          inventory_error
      else ok stock

  -- The payment of an invoice whose reference, if there is one, is new.
  unfoldable pub register_payment :
      (Text → Text)
      → ℕ
      → ℕ
      → ℕ
      → Option ℕ
      → Document
      → ℤ
      → Option ℕ
      → Text
      → Text
      → Ledger
      → Stock
      → Result BillingError (Document × Ledger × Stock)
  register_payment lower_wide now today organization actor invoice amount_paid payment_date
        payment_method reference l stock =
      do
        let state = get_invoice_action_state l.documents organization invoice
        raise_if (not state.can_register_payment) no_payment
        policy ← invoice_payment_policy stock l.documents organization invoice
        raise_if (ltb_ℤ state.remaining_balance amount_paid)
            (exceeds_balance state.remaining_balance)
        let inventory_sale = policy.requires_full_payment
        raise_if (inventory_sale && not (eq_ℤ amount_paid state.remaining_balance)) not_full
        let method = lower lower_wide (strip payment_method)
        raise_if (inventory_sale && not (is_sale_method method)) method_required
        let is_partial = ltb_ℤ (pos 0) (state.remaining_balance -ℤ amount_paid)
        (receipt, stored) ←
            store_document now organization actor
              (receipt_for today invoice amount_paid (or_today payment_date today) method reference)
              l
        stock' ← complete_sale inventory_sale stock organization invoice receipt
        ok (receipt, settle_invoice now organization invoice receipt is_partial stored, stock')

  -- `none` goes on with the payment; the row is returned for a repeat of the same payment.
  abbrev pub check_reference : ℕ → ℤ → Option Document → Result BillingError (Option Document)
  check_reference invoice amount_paid none = ok none
  check_reference invoice amount_paid (some owner) =
      if is_repeat invoice owner
      then (if not (eq_ℤ owner.total amount_paid) then err reference_amount else ok (some owner))
      else err reference_taken

  unfoldable pub create_receipt_from_invoice :
      (Text → Text)
      → ℕ
      → ℕ
      → ℕ
      → Option ℕ
      → ℕ
      → ℤ
      → Option ℕ
      → Text
      → Text
      → Ledger
      → Stock
      → Result BillingError (Document × Ledger × Stock)
  unfolding require_same_tenant
  create_receipt_from_invoice lower_wide now today organization actor invoice_id amount_paid
        payment_date payment_method payment_reference l stock =
      do
        invoice ← or_raise (find_document is_invoice invoice_id l.documents) invalid_invoice
        require_same_tenant organization invoice
        raise_if (leb_ℤ amount_paid (pos 0)) not_positive
        let reference = strip payment_reference
        repeated ← check_reference invoice.pk amount_paid (
            if is_empty reference then none else reference_owner organization reference l.documents)
        elim repeated [
          | some owner ↦ ok (owner, l, stock)
          | none ↦
              register_payment lower_wide now today organization actor invoice amount_paid
                payment_date payment_method reference l stock
        ]
