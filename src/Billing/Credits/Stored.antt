-- ===== src/Billing/Credits/Stored.antt =====
-- The credit note that is stored for an untaxed invoice: billing/services.py, `_store_document`.
use internet_ms.Base.{
  ℕ, zero, suc, ◌≤◌, ◌≡◌, inl, inr, true, ◌&&◌, Option, [], ◌∷◌, ◌++◌, arith, Bool-cases,
}
use internet_ms.Base.Int.{ℤ, pos, ◌+ℤ◌, ◌-ℤ◌, ◌*ℤ◌, neg_ℤ, ltb_ℤ, int_laws}
use internet_ms.Base.Decimal.{round_half_even, mul_zero, round_zero}
use internet_ms.Base.Result.{ok}
use internet_ms.Billing.Models.{Document}
use internet_ms.Billing.Totals.{Line, Totals, line_sum, tax_on, compute_totals}
use internet_ms.Billing.Ledger.{Ledger}
use internet_ms.Billing.Documents.{
  LineItemInput, document_row, store_document, line_total, build_line_items,
}
use internet_ms.Billing.Credits.{credit_note_for}

abbrev pub credited_in_full : ℕ → Totals
credited_in_full a = record { subtotal = neg_ℤ (pos a); tax_amount = pos 0; total = neg_ℤ (pos a) }

abbrev credit_item : ℕ → LineItemInput
credit_item a = record { quantity = neg_ℤ (pos 100); unit_price = pos a; discount_amount = pos 0 }

abbrev credit_line : ℕ → Line
credit_line a = record { line_total = neg_ℤ (pos a); taxable = true }

credit_line_total : (a : ℕ) → 1 ≤ a → line_total (credit_item a) ≡ neg_ℤ (pos a)
unfolding line_total round_half_even ◌*ℤ◌ ◌-ℤ◌
credit_line_total zero h = elim h [ ]
credit_line_total (suc a) h = ground arith

credit_lines :
    (a : ℕ) → 1 ≤ a → build_line_items true (credit_item a ∷ []) ≡ ok (credit_line a ∷ [])
unfolding build_line_items
credit_lines a h = rw (credit_line_total a h) (ground arith)

credit_sum : (a : ℕ) → line_sum (credit_line a ∷ []) ≡ neg_ℤ (pos a)
unfolding line_sum ◌+ℤ◌
credit_sum a = ground arith

credit_sum_total : (a : ℕ) → neg_ℤ (pos a) -ℤ pos 0 +ℤ pos 0 ≡ neg_ℤ (pos a)
credit_sum_total a = omega int_laws

credit_tax : (a : ℕ) (x : ℤ) → tax_on (pos 0) (neg_ℤ (pos a)) x (pos 0) ≡ pos 0
unfolding tax_on
credit_tax a x = elim (Bool-cases (ltb_ℤ (pos 0) (neg_ℤ (pos a)) && ltb_ℤ (pos 0) x)) [
  | inl e ↦ absurd (ground arith)
  | inr e ↦ rw (e, mul_zero x, round_zero 10000)
]

credit_totals :
    (a : ℕ) → 1 ≤ a → compute_totals (pos 0) (credit_line a ∷ []) (pos 0) ≡ ok (credited_in_full a)
unfolding compute_totals
credit_totals a h = rw (credit_sum a, credit_tax a) (rw (credit_sum_total a) (ground arith))

-- A credit note of a positive amount on an untaxed invoice is stored with that amount below zero.
pub store_credit :
    (now day organization : ℕ) (actor : Option ℕ) (invoice : Document) (a : ℕ) (l : Ledger)
    → 1 ≤ a
    → invoice.tax_rate ≡ pos 0
    → let n = credit_note_for invoice day (pos a) in
      let row = document_row now organization actor n (credited_in_full a) l.next_id in
      store_document now organization actor n l
      ≡ ok (row, record l { documents = l.documents ++ row ∷ []; next_id = suc l.next_id })
unfolding store_document
store_credit now day organization actor invoice a l h rate =
    rw (credit_lines a h, rate) (rw (credit_totals a h))
