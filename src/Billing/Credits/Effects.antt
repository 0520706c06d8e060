-- ===== src/Billing/Credits/Effects.antt =====
-- What a credit note on an untaxed invoice changes: billing/services.py, `create_credit_note`.
use internet_ms.Base.{
  ℕ, ◌≤◌, ◌<◌, find-All, ◌≡◌, ◌∙◌, refl, ap, Bool, true, false, ◌&&◌, Option, some, List, [], ◌∷◌,
  ◌++◌, arith, ◌==◌, filter, find, update, All, All-map, All-of, All-append, find-satisfies,
}
use internet_ms.Base.Int.{ℤ, pos, ◌+ℤ◌, ◌-ℤ◌, ◌≤ℤ◌, neg_ℤ, max_ℤ, int_laws}
use internet_ms.Base.Text.{Text}
use internet_ms.Base.Result.{ok}
use internet_ms.Billing.Models.{Document, Status, is_invoice}
use internet_ms.Billing.Ledger.{
  Ledger, is_receipt_of, is_credit_of, invoice_paid_total, invoice_credited_total,
  invoice_remaining_balance, total_sum,
}
use internet_ms.Billing.Ledger.Sums.{IsValid, total_sum-add, total_sum-update, found_unique}
use internet_ms.Billing.ActionState.{get_invoice_action_state}
use internet_ms.Billing.Documents.{document_row}
use internet_ms.Billing.Credits.{
  credit_note_for, create_credit_note, credit_note_subtotal_for_total, set_status,
  sync_invoice_after_credit_change, settled_status,
}
use internet_ms.Billing.Credits.Stored.{credited_in_full, store_credit}

untaxed_subtotal :
    (a : ℤ) (rate : ℤ) → rate ≡ pos 0 → credit_note_subtotal_for_total a rate ≡ some a
unfolding credit_note_subtotal_for_total
untaxed_subtotal a rate h = rw h refl

credit_arith :
    (t p : ℤ) (sum : ℤ) (a : ℕ)
    → 1 ≤ a
    → sum ≤ℤ pos 0
    → pos a ≤ℤ max_ℤ (t -ℤ p -ℤ max_ℤ (neg_ℤ sum) (pos 0)) (pos 0)
    → (max_ℤ (neg_ℤ (sum +ℤ neg_ℤ (pos a))) (pos 0) ≡ max_ℤ (neg_ℤ sum) (pos 0) +ℤ pos a)
      × (max_ℤ (t -ℤ p -ℤ (max_ℤ (neg_ℤ sum) (pos 0) +ℤ pos a)) (pos 0)
          ≡ max_ℤ (t -ℤ p -ℤ max_ℤ (neg_ℤ sum) (pos 0)) (pos 0) -ℤ pos a)
      × (p +ℤ (max_ℤ (neg_ℤ sum) (pos 0) +ℤ pos a) ≤ℤ t)
credit_arith t p sum a h s k = (grind int_laws, grind int_laws, grind int_laws)

not_credit :
    (organization invoice : ℕ) (status : Status) (d : Document)
    → is_invoice d.document_type ≡ true
    → is_credit_of organization invoice (set_status status d) ≡ is_credit_of organization invoice d
not_credit organization invoice status d h = ground arith

+ℤ-zero : (x : ℤ) → x +ℤ pos 0 ≡ x
+ℤ-zero x = omega int_laws

module _ (now day organization invoice_id : ℕ) (actor : Option ℕ) (a : ℕ) (reason : Text)
    (l : Ledger) (c : Document) (l' : Ledger) (invoice : Document) (positive : 1 ≤ a)
    (valid : IsValid l)
    (found : find
        (λ d. d.pk == invoice_id && is_invoice d.document_type && d.organization_id == organization)
        l.documents
      ≡ some invoice)
    (untaxed : invoice.tax_rate ≡ pos 0)
    (created : create_credit_note now organization actor invoice_id (pos a) reason day l
      ≡ ok (c, l')) where
  abbrev is_it : Document → Bool
  is_it d = d.pk == invoice_id && is_invoice d.document_type && d.organization_id == organization

  abbrev row : Document
  row =
      document_row now organization actor (credit_note_for invoice day (pos a)) (credited_in_full a)
        l.next_id

  abbrev marks : Document → Bool
  marks d = d.pk == invoice.pk && d.organization_id == organization

  abbrev stored : List Document
  stored = l.documents ++ row ∷ []

  abbrev status : Status
  status =
      settled_status (invoice_paid_total stored organization invoice)
        (invoice_remaining_balance stored organization invoice)

  credit_inversion :
      (c ≡ row)
      × (pos a ≤ℤ (get_invoice_action_state l.documents organization invoice).credit_capacity)
      × (l'.documents ≡ update marks (set_status status) stored)
  unfolding create_credit_note sync_invoice_after_credit_change
  credit_inversion = ground (
    arith,
    found,
    untaxed_subtotal (pos a) invoice.tax_rate untaxed,
    store_credit now day organization actor invoice a l positive untaxed,
  )

  invoice_is_invoice : is_invoice invoice.document_type ≡ true
  invoice_is_invoice = ground (arith, find-satisfies is_it l.documents invoice found)

  -- The invoice's key is older than the new row's.
  older : invoice.pk < l.next_id
  older = find-All (λ d. d.pk < l.next_id) is_it l.documents invoice valid.below found

  kept_at :
      (d : Document)
      → d ≡ invoice
      → (is_credit_of organization invoice.pk (set_status status d)
          ≡ is_credit_of organization invoice.pk d)
        × ((set_status status d).total ≡ d.total)
  kept_at d same = (
    not_credit organization invoice.pk status d
        (ap (λ x. is_invoice x.document_type) same ∙ invoice_is_invoice),
    refl,
  )

  -- Marking the invoice touches no credit note.
  no_credit_touched :
      All
        (λ d.
          marks d ≡ true
          → (is_credit_of organization invoice.pk (set_status status d)
              ≡ is_credit_of organization invoice.pk d)
            × ((set_status status d).total ≡ d.total))
        stored
  no_credit_touched =
      All-append _ l.documents (row ∷ [])
        (All-map (λ d. (d.pk == invoice.pk) ≡ true → d ≡ invoice) _ l.documents
          (λ d same k. kept_at d (same (ground arith)))
          (found_unique is_it l.documents invoice valid.distinct found))
        ((λ k. absurd (ground (arith, older))), tt)

  abbrev credit_sum : ℤ
  credit_sum = total_sum (filter (is_credit_of organization invoice.pk) l.documents)

  credit_sum_after :
      total_sum (filter (is_credit_of organization invoice.pk) l'.documents)
      ≡ credit_sum +ℤ neg_ℤ (pos a)
  credit_sum_after = rw credit_inversion.2 (
      total_sum-update (is_credit_of organization invoice.pk) marks (set_status status) stored
        no_credit_touched
      ∙ total_sum-add (is_credit_of organization invoice.pk) l.documents row
      ∙ ap (λ t. credit_sum +ℤ t) (ground arith))

  not_receipt : is_receipt_of organization invoice.pk row ≡ false
  not_receipt = ground arith

  paid_after :
      invoice_paid_total l'.documents organization invoice
      ≡ invoice_paid_total l.documents organization invoice
  unfolding invoice_paid_total
  paid_after = rw credit_inversion.2 (
      total_sum-update (is_receipt_of organization invoice.pk) marks (set_status status) stored
        (All-of _ stored (λ d _. (refl, refl)))
      ∙ total_sum-add (is_receipt_of organization invoice.pk) l.documents row
      ∙ rw not_receipt
          (+ℤ-zero (total_sum (filter (is_receipt_of organization invoice.pk) l.documents))))

  -- A credit note of `a` cents, one or more, that is created for an untaxed invoice of the organization
  -- in a valid ledger, where the credits so far sum to no more than zero: its total is `a` below zero,
  -- what is credited grows by `a`, what is paid stays, what remains falls by `a`, and what is paid and
  -- credited together does not exceed the invoice's total.
  pub untaxed_credit_effect :
      credit_sum ≤ℤ pos 0
      → (c.total ≡ neg_ℤ (pos a))
        × (invoice_paid_total l'.documents organization invoice
            ≡ invoice_paid_total l.documents organization invoice)
        × (invoice_credited_total l'.documents organization invoice
            ≡ invoice_credited_total l.documents organization invoice +ℤ pos a)
        × (invoice_remaining_balance l'.documents organization invoice
            ≡ invoice_remaining_balance l.documents organization invoice -ℤ pos a)
        × (invoice_paid_total l'.documents organization invoice
              +ℤ invoice_credited_total l'.documents organization invoice
            ≤ℤ invoice.total)
  unfolding invoice_remaining_balance invoice_credited_total get_invoice_action_state
  untaxed_credit_effect debits =
      let inversion = credit_inversion in
      let paid = paid_after in
      let sum = credit_sum_after in
      let (credited, remaining, bounded) =
        credit_arith invoice.total (invoice_paid_total l.documents organization invoice) credit_sum
          a positive debits inversion.1 in
      (
        ap (λ d. d.total) inversion.0,
        paid,
        rw sum credited,
        rw (paid, sum) (rw credited remaining),
        rw (paid, sum) (rw credited bounded),
      )
