-- ===== src/Billing/Tests.antt =====
-- Runs of the billing services, and the theorems at a concrete ledger.
use internet_ms.Base.{◌≤◌, ◌<◌, ◌≡◌, ◌↔◌, refl, true, false, none, some, arith, any, length}
use internet_ms.Base.Int.{pos, ◌+ℤ◌, ◌-ℤ◌, ◌*ℤ◌, ◌≤ℤ◌}
use internet_ms.Base.Decimal.{round_half_up, round_half_even}
use internet_ms.Base.Text.{strip, is_empty, lower, text_eq}
use internet_ms.Base.Result.{Result, ok}
use internet_ms.Billing.Errors.{BillingError}
use internet_ms.Billing.Models.{Document, Status, is_invoice, is_quotation}
use internet_ms.Billing.Totals.{compute_totals, line_sum, taxable_sum, tax_on}
use internet_ms.Billing.Ledger.{
  Ledger, total_sum, find_document, invoice_paid_total, invoice_credited_total,
  invoice_remaining_balance,
}
use internet_ms.Billing.Ledger.Sums.{IsValid, Distinct}
use internet_ms.Billing.Documents.{
  require_same_tenant, resolve_invoice, resolve_quotation, build_line_items, line_total,
  store_document,
}
use internet_ms.Billing.ActionState.{get_invoice_action_state, is_active_issued}
use internet_ms.Billing.Quotations.{transition_quotation_status, get_quotation_action_state}
use internet_ms.Billing.Quotations.Lifecycle.{is_edge, rank, transition_exact, transition_sound}
use internet_ms.Billing.Invoices.{void_invoice, is_period_of}
use internet_ms.Billing.Invoices.Effects.{IsClosed, void_invoice_effect}
use internet_ms.Billing.Receipts.{
  register_payment, create_receipt_from_invoice, invoice_payment_policy,
}
use internet_ms.Billing.Receipts.Effects.{register_payment_effect}
use internet_ms.Billing.Receipts.Repeat.{repeat_returns_receipt}
use internet_ms.Billing.Examples.{
  quotation, invoice, books, no_stock, value, cash, slip, why, same_text,
}

abbrev pay : Result BillingError (Document × Ledger × Unit {0})
pay =
    register_payment no_stock same_text 9 120 1 (some 7) invoice (pos 5000) none cash slip books tt

abbrev paid : Document × Ledger × Unit {0}
paid = value (invoice, books, tt) pay

abbrev pay_reference : Result BillingError (Document × Ledger × Unit {0})
pay_reference =
    create_receipt_from_invoice no_stock same_text 9 120 1 (some 7) 2 (pos 5000) none cash slip
      books tt

abbrev referenced : Document × Ledger × Unit {0}
referenced = value (invoice, books, tt) pay_reference

abbrev moved : Document × Ledger
moved = value (quotation, books) (transition_quotation_status 9 1 1 Status.accepted books)

abbrev voided : Document × Ledger
voided = value (invoice, books) (void_invoice 9 1 2 why false books)

books-IsValid : IsValid books
unfolding Distinct
books-IsValid = record {
  distinct = ((λ e. cc, tt), (tt, tt));
  below = (omega arith, (omega arith, tt));
}

pay-succeeds : pay ≡ ok (paid.0, paid.1, paid.2)
unfolding register_payment invoice_payment_policy get_invoice_action_state invoice_paid_total
    invoice_credited_total invoice_remaining_balance total_sum require_same_tenant store_document
    build_line_items line_total compute_totals line_sum taxable_sum tax_on round_half_up
    round_half_even ◌+ℤ◌ ◌-ℤ◌ ◌*ℤ◌ strip lower
pay-succeeds = refl

reference-succeeds : pay_reference ≡ ok (referenced.0, referenced.1, referenced.2)
unfolding create_receipt_from_invoice register_payment invoice_payment_policy
    get_invoice_action_state invoice_paid_total invoice_credited_total invoice_remaining_balance
    total_sum require_same_tenant store_document build_line_items line_total compute_totals line_sum
    taxable_sum tax_on round_half_up round_half_even ◌+ℤ◌ ◌-ℤ◌ ◌*ℤ◌ strip lower text_eq
reference-succeeds = refl

slip-named : is_empty (strip slip) ≡ false
unfolding strip
slip-named = refl

accept-succeeds : transition_quotation_status 9 1 1 Status.accepted books ≡ ok (moved.0, moved.1)
unfolding transition_quotation_status get_quotation_action_state resolve_quotation
    require_same_tenant
accept-succeeds = refl

own-quotation : require_same_tenant 1 quotation ≡ ok tt
unfolding require_same_tenant
own-quotation = refl

void-succeeds : void_invoice 9 1 2 why false books ≡ ok (voided.0, voided.1)
unfolding void_invoice resolve_invoice require_same_tenant get_invoice_action_state
    invoice_paid_total invoice_credited_total total_sum strip ◌+ℤ◌ ◌-ℤ◌
void-succeeds = refl

register_payment_effect_example :
    (paid.0.total ≡ pos 5000)
    × (invoice_paid_total paid.1.documents 1 invoice
        ≡ invoice_paid_total books.documents 1 invoice +ℤ pos 5000)
    × (invoice_credited_total paid.1.documents 1 invoice
        ≡ invoice_credited_total books.documents 1 invoice)
    × (invoice_remaining_balance paid.1.documents 1 invoice
        ≡ invoice_remaining_balance books.documents 1 invoice -ℤ pos 5000)
    × (invoice_paid_total paid.1.documents 1 invoice
          +ℤ invoice_credited_total paid.1.documents 1 invoice
        ≤ℤ pos 11800)
register_payment_effect_example =
    register_payment_effect no_stock same_text 9 120 1 (some 7) invoice 5000 none cash slip books tt
      paid.0 paid.1 paid.2 (omega arith) pay-succeeds books-IsValid refl

repeat_returns_receipt_example :
    create_receipt_from_invoice no_stock same_text 10 121 1
      (some 7)
      2
      (pos 5000)
      none
      cash
      slip
      referenced.1
      referenced.2
    ≡ ok (referenced.0, referenced.1, referenced.2)
repeat_returns_receipt_example =
    repeat_returns_receipt no_stock same_text 1 2 5000 slip 9 120 10 121 (some 7) none cash books tt
      referenced.0 referenced.1 referenced.2 (omega arith) slip-named books-IsValid
      reference-succeeds

transition_exact_example :
    ((d : Document) × (l' : Ledger) × (transition_quotation_status 9 1 1 Status.accepted books
        ≡ ok (d, l')))
    ↔ ((true ≡ true) × (is_edge Status.sent Status.accepted ≡ true))
transition_exact_example = transition_exact 9 1 1 Status.accepted books quotation refl own-quotation

transition_sound_example :
    (q : Document) × (find_document is_quotation 1 books.documents ≡ some q)
    × (is_edge q.status Status.accepted ≡ true)
    × (moved.0.status ≡ Status.accepted)
    × (rank q.status < rank moved.0.status)
    × (find_document is_quotation 1 moved.1.documents ≡ some moved.0)
transition_sound_example =
    transition_sound 9 1 1 Status.accepted books moved.0 moved.1 accept-succeeds

void_invoice_effect_example :
    (i : Document) × (find_document is_invoice 2 books.documents ≡ some i)
    × (5 ≤ length (strip why))
    × (is_active_issued i.status ≡ true)
    × (invoice_paid_total books.documents 1 i ≡ pos 0)
    × (invoice_credited_total books.documents 1 i ≡ pos 0)
    × ((false ≡ false) → any (is_period_of 1 i.pk) books.periods ≡ false)
    × (find_document is_invoice 2 voided.1.documents ≡ some voided.0)
    × IsClosed (get_invoice_action_state voided.1.documents 1 voided.0)
    × (voided.1.periods ≡ books.periods)
    × (voided.1.subscriptions ≡ books.subscriptions)
void_invoice_effect_example =
    void_invoice_effect 9 1 2 why false books voided.0 voided.1 void-succeeds
