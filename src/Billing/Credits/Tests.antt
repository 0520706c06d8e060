-- ===== src/Billing/Credits/Tests.antt =====
-- Runs of the credit note services, and their theorem at a concrete ledger.
use internet_ms.Base.{◌≡◌, refl, true, some, [], ◌∷◌, arith}
use internet_ms.Base.Int.{pos, ◌+ℤ◌, ◌-ℤ◌, ◌*ℤ◌, ◌≤ℤ◌}
use internet_ms.Base.Decimal.{round_half_up, round_half_even}
use internet_ms.Base.Text.{strip}
use internet_ms.Base.Result.{ok}
use internet_ms.Billing.Models.{Document}
use internet_ms.Billing.Totals.{compute_totals, line_sum, taxable_sum, tax_on}
use internet_ms.Billing.Ledger.{
  Ledger, total_sum, invoice_paid_total, invoice_credited_total, invoice_remaining_balance,
}
use internet_ms.Billing.Ledger.Sums.{IsValid, Distinct}
use internet_ms.Billing.Documents.{
  require_same_tenant, build_line_items, line_total, store_document,
}
use internet_ms.Billing.ActionState.{get_invoice_action_state}
use internet_ms.Billing.Credits.{
  create_credit_note, credit_note_subtotal_for_total, computed_total,
  sync_invoice_after_credit_change,
}
use internet_ms.Billing.Credits.Effects.{untaxed_credit_effect}
use internet_ms.Base.{filter}
use internet_ms.Base.Int.{negsuc}
use internet_ms.Billing.Ledger.{is_credit_of}
use internet_ms.Billing.Examples.{invoice, books, value, why}

abbrev untaxed_books : Ledger
untaxed_books = record books { documents = (record invoice { tax_rate = pos 0 }) ∷ [] }

abbrev credited : Document × Ledger
credited =
    value (invoice, untaxed_books)
      (create_credit_note 9 1 (some 7) 2 (pos 300) why 120 untaxed_books)

untaxed_books-IsValid : IsValid untaxed_books
unfolding Distinct
untaxed_books-IsValid = record { distinct = (tt, tt); below = (omega arith, tt) }

no_credits : total_sum (filter (is_credit_of 1 2) untaxed_books.documents) ≤ℤ pos 0
unfolding total_sum
no_credits = omega arith

credit-succeeds :
    create_credit_note 9 1 (some 7) 2 (pos 300) why 120 untaxed_books ≡ ok (credited.0, credited.1)
unfolding create_credit_note credit_note_subtotal_for_total sync_invoice_after_credit_change
    get_invoice_action_state invoice_paid_total invoice_credited_total invoice_remaining_balance
    total_sum require_same_tenant store_document build_line_items line_total compute_totals line_sum
    taxable_sum tax_on round_half_up round_half_even ◌+ℤ◌ ◌-ℤ◌ ◌*ℤ◌ strip
credit-succeeds = refl

untaxed_credit_effect_example :
    (credited.0.total ≡ negsuc 299)
    × (invoice_paid_total credited.1.documents 1 (record invoice { tax_rate = pos 0 })
        ≡ invoice_paid_total untaxed_books.documents 1 (record invoice { tax_rate = pos 0 }))
    × (invoice_credited_total credited.1.documents 1 (record invoice { tax_rate = pos 0 })
        ≡ invoice_credited_total untaxed_books.documents 1 (record invoice { tax_rate = pos 0 })
          +ℤ pos 300)
    × (invoice_remaining_balance credited.1.documents 1 (record invoice { tax_rate = pos 0 })
        ≡ invoice_remaining_balance untaxed_books.documents 1 (record invoice { tax_rate = pos 0 })
          -ℤ pos 300)
    × (invoice_paid_total credited.1.documents 1 (record invoice { tax_rate = pos 0 })
          +ℤ invoice_credited_total credited.1.documents 1 (record invoice { tax_rate = pos 0 })
        ≤ℤ pos 11800)
untaxed_credit_effect_example =
    untaxed_credit_effect 9 120 1 2 (some 7) 300 why untaxed_books credited.0 credited.1
      (record invoice { tax_rate = pos 0 }) (omega arith) untaxed_books-IsValid refl refl
      credit-succeeds no_credits

-- A credit note of 29 cents at 18 percent is split as 25 cents, and stored with a total of -30 cents.
tax_rounding :
    (credit_note_subtotal_for_total (pos 29) (pos 1800) ≡ some (pos 25))
    × (compute_totals (pos 1800) ((record { line_total = negsuc 24; taxable = true }) ∷ []) (pos 0)
        ≡ ok (record { subtotal = negsuc 24; tax_amount = negsuc 4; total = negsuc 29 }))
unfolding credit_note_subtotal_for_total computed_total compute_totals line_sum taxable_sum tax_on
    round_half_up round_half_even ◌+ℤ◌ ◌-ℤ◌ ◌*ℤ◌
tax_rounding = (refl, refl)
