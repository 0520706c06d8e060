-- ===== src/Billing/Credits.antt =====
-- billing/services.py: credit notes, and the settlement status that follows from them.
mod Stored
pub mod Effects
mod Tests
use internet_ms.Base.{
  ℕ, Bool, true, false, not, ◌&&◌, Option, none, some, List, [], ◌∷◌, ◌==◌, ltb, leb, length, any,
  find, filter, update, if◌then◌else◌, max,
}
use internet_ms.Base.Int.{ℤ, pos, pos_part, ◌+ℤ◌, ◌-ℤ◌, ◌*ℤ◌, neg_ℤ, leb_ℤ, ltb_ℤ, eq_ℤ, abs_ℤ}
use internet_ms.Base.Text.{Text, strip}
use internet_ms.Base.Decimal.{round_half_even}
use internet_ms.Base.Result.{Result, ok, ◌>>=◌, ◌>>◌, raise_if, or_raise}
use internet_ms.Billing.Errors.{
  BillingError, reason_required, credit_not_positive, invoice_not_found, no_credit, credit_exceeds,
  credit_note_not_found, not_issued, not_linked, closed_by_reversal, no_candidate,
}
use internet_ms.Billing.Models.{
  Document, DocumentType, Status, Period, PeriodStatus, Subscription, is_invoice, is_credit_note,
  is_issued, is_paid_period,
}
use internet_ms.Billing.Ledger.{
  Ledger, is_receipt_of, invoice_paid_total, invoice_remaining_balance, log_action,
}
use internet_ms.Billing.ActionState.{get_invoice_action_state}
use internet_ms.Billing.Documents.{NewDocument, require_same_tenant, store_document}
use internet_ms.Billing.Invoices.{is_period_of, void_document}

-- The total of a credit note on a subtotal, as `_credit_note_subtotal_for_total` computes it.
unfoldable pub computed_total : ℤ → ℤ → ℤ
computed_total tax_rate subtotal = subtotal +ℤ round_half_even (subtotal *ℤ tax_rate) 10000

-- `range(-5, 6)` around the base
abbrev pub candidates : ℤ → List ℤ
candidates base =
    (base -ℤ pos 5)
    ∷ (base -ℤ pos 4)
    ∷ (base -ℤ pos 3)
    ∷ (base -ℤ pos 2)
    ∷ (base -ℤ pos 1)
    ∷ base
    ∷ (base +ℤ pos 1)
    ∷ (base +ℤ pos 2)
    ∷ (base +ℤ pos 3)
    ∷ (base +ℤ pos 4)
    ∷ (base +ℤ pos 5)
    ∷ []

-- `min(…, key=…)` keeps the first of the smallest.
abbrev pub closest : (ℤ → ℤ) → List ℤ → Option ℤ
closest key [] = none
closest key (c ∷ cs) = elim (closest key cs) [
  | none ↦ some c
  | some best ↦ if leb_ℤ (key c) (key best) then some c else some best
]

abbrev pub exact_or_closest : ℤ → ℤ → List ℤ → Option ℤ → Option ℤ
exact_or_closest tax_rate total_amount positive (some exact) = some exact
exact_or_closest tax_rate total_amount positive none =
    closest (λ c. abs_ℤ (computed_total tax_rate c -ℤ total_amount)) positive

-- `none` where `min` has no candidate.
unfoldable pub credit_note_subtotal_for_total : ℤ → ℤ → Option ℤ
unfolding computed_total
credit_note_subtotal_for_total total_amount tax_rate =
    if eq_ℤ tax_rate (pos 0)
    then some total_amount
    else (let base =
          round_half_even (total_amount *ℤ pos 10000) (pos_part (pos 10000 +ℤ tax_rate)) in
        let positive = filter (λ c. ltb_ℤ (pos 0) c) (candidates base) in
        exact_or_closest tax_rate total_amount positive
          (find (λ c. eq_ℤ (computed_total tax_rate c) total_amount) positive))

abbrev pub settled_status : ℤ → ℤ → Status
settled_status paid_total remaining =
    if eq_ℤ remaining (pos 0)
    then Status.paid
    else if ltb_ℤ (pos 0) paid_total
    then Status.partially_paid
    else Status.issued

-- `payment_date or` the start of time, to compare two receipts
abbrev payment_day : Document → ℕ
payment_day d = elim d.payment_date [ none ↦ 0 | some day ↦ day ]

-- `.order_by("payment_date", …, "id").last()` over rows in the order of their creation
abbrev pub latest : Option Document → List Document → Option Document
latest best [] = best
latest none (d ∷ ds) = latest (some d) ds
latest (some b) (d ∷ ds) = latest (some (if leb (payment_day b) (payment_day d) then d else b)) ds

abbrev pub key_of_receipt : Option Document → Option ℕ
key_of_receipt none = none
key_of_receipt (some d) = some d.pk

abbrev pub later_date : Option ℕ → ℕ → Option ℕ
later_date none day = some day
later_date (some d) day = some (max d day)

-- `aggregate(value=Max("period_end"))` over a subscription's paid periods
abbrev pub paid_through : ℕ → ℕ → List Period → Option ℕ
paid_through organization subscription [] = none
paid_through organization subscription (p ∷ ps) =
    let rest = paid_through organization subscription ps in
    if p.organization_id == organization
      && p.subscription_id == subscription
      && is_paid_period p.status
    then later_date rest p.period_end
    else rest

abbrev pub settle_period : ℕ → Option ℕ → Period → Period
settle_period now receipt p = record p {
  status = PeriodStatus.paid;
  receipt_id = receipt;
  paid_at = some now;
}

abbrev pub reopen_period : Period → Period
reopen_period p = record p { status = PeriodStatus.invoiced; receipt_id = none; paid_at = none }

abbrev pub sync_periods : ℕ → ℕ → ℕ → ℤ → Option ℕ → List Period → List Period
sync_periods now organization invoice remaining receipt periods =
    if eq_ℤ remaining (pos 0)
    then update (is_period_of organization invoice) (settle_period now receipt) periods
    else update (λ p. is_period_of organization invoice p && is_paid_period p.status) reopen_period
        periods

-- The loop over the subscriptions of the invoice's periods.
abbrev pub sync_subscriptions :
    ℕ → List Period → List Period → List Subscription → List Subscription
sync_subscriptions organization linked periods =
    update (λ s. s.organization_id == organization && any (λ p. p.subscription_id == s.pk) linked)
      (λ s. record s { paid_through_date = paid_through organization s.pk periods })

abbrev pub set_status : Status → Document → Document
set_status status d = record d { status = status }

unfoldable pub sync_invoice_after_credit_change : ℕ → ℕ → Document → Ledger → Ledger
sync_invoice_after_credit_change now organization invoice l =
    let remaining = invoice_remaining_balance l.documents organization invoice in
    let target_status =
      settled_status (invoice_paid_total l.documents organization invoice) remaining in
    let receipt = latest none (filter (is_receipt_of organization invoice.pk) l.documents) in
    let linked = filter (is_period_of organization invoice.pk) l.periods in
    let periods =
      sync_periods now organization invoice.pk remaining (key_of_receipt receipt) l.periods in
    record l {
      documents =
          update (λ d. d.pk == invoice.pk && d.organization_id == organization)
            (set_status target_status) l.documents;
      periods = periods;
      subscriptions = sync_subscriptions organization linked periods l.subscriptions;
    }

abbrev pub credit_note_for : Document → ℕ → ℤ → NewDocument
credit_note_for invoice issue_date subtotal_amount = record {
  document_type = DocumentType.credit_note;
  customer_id = invoice.customer_id;
  is_walk_in_sale = invoice.is_walk_in_sale;
  issue_date = issue_date;
  status = Status.issued;
  tax_rate = invoice.tax_rate;
  discount_amount = pos 0;
  balance_brought_forward = pos 0;
  items =
      (record { quantity = neg_ℤ (pos 100); unit_price = subtotal_amount; discount_amount = pos 0 })
      ∷ [];
  invoice = none;
  corrected_invoice_id = some invoice.pk;
  payment_date = none;
  payment_method = [];
  payment_reference = [];
}

-- The amount is in cents.
unfoldable pub create_credit_note :
    ℕ → ℕ → Option ℕ → ℕ → ℤ → Text → ℕ → Ledger → Result BillingError (Document × Ledger)
unfolding require_same_tenant store_document
create_credit_note now organization actor invoice_id amount reason issue_date l = do
  raise_if (ltb (length (strip reason)) 5) reason_required
  raise_if (leb_ℤ amount (pos 0)) credit_not_positive
  invoice ←
      or_raise
        (find
          (λ d.
            d.pk == invoice_id && is_invoice d.document_type && d.organization_id == organization)
          l.documents)
        invoice_not_found
  require_same_tenant organization invoice
  let state = get_invoice_action_state l.documents organization invoice
  raise_if (not state.can_create_credit_note) no_credit
  raise_if (ltb_ℤ state.credit_capacity amount) (credit_exceeds amount state.credit_capacity)
  subtotal_amount ← or_raise (credit_note_subtotal_for_total amount invoice.tax_rate) no_candidate
  (credit_note, stored) ←
      store_document now organization actor (credit_note_for invoice issue_date subtotal_amount) l
  ok (
    credit_note,
    log_action "credit_note_created" credit_note.pk
        (sync_invoice_after_credit_change now organization invoice stored),
  )

abbrev pub is_reversed : Status → Bool
is_reversed Status.void = true
is_reversed Status.superseded = true
is_reversed _ = false

-- The corrected invoice is a foreign key, so its row is there.
unfoldable pub void_credit_note :
    ℕ → ℕ → ℕ → Text → Ledger → Result BillingError (Document × Ledger)
unfolding require_same_tenant
void_credit_note now organization credit_note_id reason l = do
  raise_if (ltb (length (strip reason)) 5) reason_required
  credit_note ←
      or_raise
        (find
          (λ d.
            d.pk == credit_note_id
            && d.organization_id == organization
            && is_credit_note d.document_type)
          l.documents)
        credit_note_not_found
  require_same_tenant organization credit_note
  raise_if (not (is_issued credit_note.status)) not_issued
  corrected ← or_raise credit_note.corrected_invoice_id not_linked
  invoice ←
      or_raise (find (λ d. d.pk == corrected && d.organization_id == organization) l.documents)
        invoice_not_found
  raise_if (is_reversed invoice.status) closed_by_reversal
  ok (
    void_document now credit_note,
    log_action "credit_note_voided" credit_note.pk (
        sync_invoice_after_credit_change now organization invoice (record l {
          documents =
              update (λ d. d.pk == credit_note.pk && d.organization_id == organization)
                (void_document now) l.documents;
        })),
  )
