-- ===== src/Billing/Receipts/Stored.antt =====
-- The receipt that a payment stores: billing/services.py, `_store_document` for a receipt.
use internet_ms.Base.{
  ℕ, suc, ◌*◌, ◌≤◌, ◌≡◌, inl, inr, true, false, ◌&&◌, Option, [], ◌∷◌, ◌++◌, arith, Bool-cases,
}
use internet_ms.Base.Int.{ℤ, pos, ◌+ℤ◌, ◌-ℤ◌, ◌*ℤ◌, ltb_ℤ, int_laws}
use internet_ms.Base.Text.{Text}
use internet_ms.Base.Decimal.{round_half_even, mul_zero, round_zero}
use internet_ms.Base.Result.{ok}
use internet_ms.Billing.Models.{Document}
use internet_ms.Billing.Totals.{Line, Totals, line_sum, tax_on, compute_totals}
use internet_ms.Billing.Ledger.{Ledger}
use internet_ms.Billing.Documents.{
  LineItemInput, document_row, store_document, line_total, build_line_items,
}
use internet_ms.Billing.Receipts.{receipt_for}

abbrev pub paid_in_full : ℕ → Totals
paid_in_full a = record { subtotal = pos a; tax_amount = pos 0; total = pos a }

abbrev receipt_item : ℕ → LineItemInput
receipt_item a = record { quantity = pos 100; unit_price = pos a; discount_amount = pos 0 }

abbrev receipt_line : ℕ → Line
receipt_line a = record { line_total = pos a; taxable = true }

receipt_line_total : (a : ℕ) → line_total (receipt_item a) ≡ pos a
unfolding line_total round_half_even ◌*ℤ◌ ◌-ℤ◌
receipt_line_total a = ground arith

receipt_lines : (a : ℕ) → build_line_items false (receipt_item a ∷ []) ≡ ok (receipt_line a ∷ [])
unfolding build_line_items
receipt_lines a = rw (receipt_line_total a) (ground arith)

receipt_sum : (a : ℕ) → line_sum (receipt_line a ∷ []) ≡ pos a
unfolding line_sum ◌+ℤ◌
receipt_sum a = ground arith

receipt_sum_total : (a : ℕ) → pos a -ℤ pos 0 +ℤ pos 0 ≡ pos a
receipt_sum_total a = omega int_laws

receipt_tax : (a : ℕ) (x : ℤ) → tax_on (pos 0) (pos a) x (pos 0) ≡ pos 0
unfolding tax_on
receipt_tax a x = elim (Bool-cases (ltb_ℤ (pos 0) (pos a) && ltb_ℤ (pos 0) x)) [
  | inl e ↦ rw (e, mul_zero (x *ℤ (pos a -ℤ pos 0)), round_zero (a * 10000))
  | inr e ↦ rw (e, mul_zero x, round_zero 10000)
]

receipt_totals :
    (a : ℕ) → 1 ≤ a → compute_totals (pos 0) (receipt_line a ∷ []) (pos 0) ≡ ok (paid_in_full a)
unfolding compute_totals
receipt_totals a h = rw (receipt_sum a, receipt_tax a) (rw (receipt_sum_total a) (ground arith))

-- A receipt of a positive amount is stored with that amount as its total, and untaxed.
pub store_receipt :
    (now today organization : ℕ) (actor : Option ℕ) (invoice : Document) (a day : ℕ)
    (method reference : Text) (l : Ledger)
    → 1 ≤ a
    → let n = receipt_for today invoice (pos a) day method reference in
      let row = document_row now organization actor n (paid_in_full a) l.next_id in
      store_document now organization actor n l
      ≡ ok (row, record l { documents = l.documents ++ row ∷ []; next_id = suc l.next_id })
unfolding store_document
store_receipt now today organization actor invoice a day method reference l h =
    rw (receipt_lines a) (rw (receipt_totals a h))
