-- ===== src/Billing/Receipts/Effects.antt =====
-- What a payment changes: billing/services.py, `create_receipt_from_invoice`.
use internet_ms.Base.{
  ℕ, ◌≤◌, ◌≡◌, ◌∙◌, refl, ap, true, false, Option, some, List, [], ◌∷◌, ◌++◌, arith, ◌==◌, filter,
  update, All, All-map, All-of, All-append, find-satisfies, if◌then◌else◌,
}
use internet_ms.Base.Int.{ℤ, pos, ◌+ℤ◌, ◌-ℤ◌, ◌≤ℤ◌, ltb_ℤ, max_ℤ, int_laws}
use internet_ms.Base.Text.{Text, lower, strip}
use internet_ms.Base.Result.{ok}
use internet_ms.Billing.Models.{Document, DocumentType, Status, is_invoice, is_credit_note}
use internet_ms.Billing.Ledger.{
  Ledger, is_receipt_of, is_credit_of, invoice_paid_total, invoice_credited_total,
  invoice_remaining_balance, find_document, total_sum,
}
use internet_ms.Billing.Ledger.Sums.{IsValid, total_sum-add, total_sum-update, found_unique}
use internet_ms.Billing.ActionState.{get_invoice_action_state}
use internet_ms.Billing.Documents.{document_row}
use internet_ms.Billing.Credits.{set_status}
use internet_ms.Billing.Receipts.{
  is_repeat, Inventory, Stock, receipt_for, or_today, register_payment,
}
use internet_ms.Billing.Receipts.Stored.{paid_in_full, store_receipt}

abbrev receipt_row : ℕ → ℕ → ℕ → Option ℕ → Document → ℕ → ℕ → Text → Text → Ledger → Document
receipt_row now today organization actor invoice a day method reference l =
    document_row now organization actor (receipt_for today invoice (pos a) day method reference)
      (paid_in_full a) l.next_id

-- The status that a payment of `a` leaves, out of what remained.
abbrev pub payment_status : ℤ → ℕ → Status
payment_status remaining a =
    if ltb_ℤ (pos 0) (remaining -ℤ pos a) then Status.partially_paid else Status.paid

no_credit :
    (organization invoice : ℕ) (status : Status) (d : Document)
    → is_credit_note d.document_type ≡ false
    → is_credit_of organization invoice (set_status status d) ≡ is_credit_of organization invoice d
no_credit organization invoice status d h = ground arith

not_credit_of :
    (organization invoice : ℕ) (d : Document)
    → is_credit_note d.document_type ≡ false
    → is_credit_of organization invoice d ≡ false
not_credit_of organization invoice d h = ground arith

invoice_not_credit : (t : DocumentType) → is_invoice t ≡ true → is_credit_note t ≡ false
invoice_not_credit t h = ground arith

payment_arith :
    (t p c : ℤ) (a : ℕ)
    → 1 ≤ a
    → pos a ≤ℤ max_ℤ (t -ℤ p -ℤ c) (pos 0)
    → (max_ℤ (t -ℤ (p +ℤ pos a) -ℤ c) (pos 0) ≡ max_ℤ (t -ℤ p -ℤ c) (pos 0) -ℤ pos a)
      × (p +ℤ pos a +ℤ c ≤ℤ t)
payment_arith t p c a h k = (grind int_laws, grind int_laws)

+ℤ-zero : (x : ℤ) → x +ℤ pos 0 ≡ x
+ℤ-zero x = omega int_laws

module _ (inventory : Inventory) (lower_wide : Text → Text) (now today organization : ℕ)
    (actor : Option ℕ) (invoice : Document) (a : ℕ) (payment_date : Option ℕ)
    (payment_method reference : Text) (l : Ledger) (stock : Stock inventory) (r : Document)
    (l' : Ledger) (stock' : Stock inventory) (positive : 1 ≤ a)
    (registered : register_payment inventory lower_wide now today organization actor invoice
        (pos a)
        payment_date
        payment_method
        reference
        l
        stock
      ≡ ok (r, l', stock')) where
  abbrev remaining : ℤ
  remaining = (get_invoice_action_state l.documents organization invoice).remaining_balance

  abbrev row : Document
  row =
      receipt_row now today organization actor invoice a (or_today payment_date today)
        (lower lower_wide (strip payment_method)) reference l

  payment_inversion :
      (r ≡ row)
      × (pos a ≤ℤ remaining)
      × (l'.documents
          ≡ update
              (λ d. d.pk == invoice.pk)
              (set_status (payment_status remaining a))
              (l.documents ++ row ∷ []))
  unfolding register_payment
  payment_inversion = ground (
    arith,
    store_receipt now today organization actor invoice a (or_today payment_date today)
        (lower lower_wide (strip payment_method)) reference l positive,
  )

  -- The tables after the payment, by what the receipt's row is.
  pub payment_rows :
      (st : Status) × (l'.documents
        ≡ update (λ d. d.pk == invoice.pk) (set_status st) (l.documents ++ r ∷ []))
      × (r.pk ≡ l.next_id)
      × (r.organization_id ≡ organization)
      × (r.payment_reference ≡ reference)
      × (r.total ≡ pos a)
      × (is_repeat invoice.pk r ≡ true)
  payment_rows =
      let same = payment_inversion.0 in
      (
        payment_status remaining a,
        rw same payment_inversion.2,
        ap (λ d. d.pk) same,
        ap (λ d. d.organization_id) same,
        ap (λ d. d.payment_reference) same,
        ap (λ d. d.total) same,
        ap (λ d. is_repeat invoice.pk d) same ∙ ground arith,
      )

  abbrev stored : List Document
  stored = l.documents ++ row ∷ []

  abbrev status : Status
  status = payment_status remaining a

  paid_after :
      invoice_paid_total l'.documents organization invoice
      ≡ invoice_paid_total l.documents organization invoice +ℤ pos a
  unfolding invoice_paid_total
  paid_after = rw payment_inversion.2 (
      total_sum-update (is_receipt_of organization invoice.pk) (λ d. d.pk == invoice.pk)
        (set_status status) stored (All-of _ stored (λ d _. (refl, refl)))
      ∙ total_sum-add (is_receipt_of organization invoice.pk) l.documents row
      ∙ ap (λ t. total_sum (filter (is_receipt_of organization invoice.pk) l.documents) +ℤ t)
          (ground arith))

  module _ (valid : IsValid l)
      (found : find_document is_invoice invoice.pk l.documents ≡ some invoice) where
    invoice_is_invoice : is_invoice invoice.document_type ≡ true
    invoice_is_invoice = ground (arith, find-satisfies _ l.documents invoice found)

    no_credit_at :
        (d : Document)
        → d ≡ invoice
        → (is_credit_of organization invoice.pk (set_status status d)
            ≡ is_credit_of organization invoice.pk d)
          × ((set_status status d).total ≡ d.total)
    no_credit_at d same = (
      no_credit organization invoice.pk status d (
          ap (λ x. is_credit_note x.document_type) same
          ∙ invoice_not_credit invoice.document_type invoice_is_invoice),
      refl,
    )

    -- Marking the invoice touches no credit note.
    no_credit_touched :
        All
          (λ d.
            (d.pk == invoice.pk) ≡ true
            → (is_credit_of organization invoice.pk (set_status status d)
                ≡ is_credit_of organization invoice.pk d)
              × ((set_status status d).total ≡ d.total))
          stored
    no_credit_touched =
        All-append _ l.documents (row ∷ [])
          (All-map (λ d. (d.pk == invoice.pk) ≡ true → d ≡ invoice) _ l.documents
            (λ d same k. no_credit_at d (same k))
            (found_unique _ l.documents invoice valid.distinct found))
          ((λ k. (no_credit organization invoice.pk status row refl, refl)), tt)

    credited_sum :
        total_sum (
          filter
            (is_credit_of organization invoice.pk)
            (update (λ d. d.pk == invoice.pk) (set_status status) stored))
        ≡ total_sum (filter (is_credit_of organization invoice.pk) l.documents)
    credited_sum =
        total_sum-update (is_credit_of organization invoice.pk) (λ d. d.pk == invoice.pk)
          (set_status status) stored no_credit_touched
        ∙ total_sum-add (is_credit_of organization invoice.pk) l.documents row
        ∙ rw (not_credit_of organization invoice.pk row refl)
            (+ℤ-zero (total_sum (filter (is_credit_of organization invoice.pk) l.documents)))

    credited_after :
        invoice_credited_total l'.documents organization invoice
        ≡ invoice_credited_total l.documents organization invoice
    unfolding invoice_credited_total
    credited_after = rw (payment_inversion.2, credited_sum)

    -- A registered payment of `a` cents, one or more, for an invoice of a valid ledger: the receipt's
    -- total is `a`, what is paid grows by `a`, what is credited stays, what remains falls by `a`, and
    -- what is paid and credited together does not exceed the invoice's total.
    pub register_payment_effect :
        (r.total ≡ pos a)
        × (invoice_paid_total l'.documents organization invoice
            ≡ invoice_paid_total l.documents organization invoice +ℤ pos a)
        × (invoice_credited_total l'.documents organization invoice
            ≡ invoice_credited_total l.documents organization invoice)
        × (invoice_remaining_balance l'.documents organization invoice
            ≡ invoice_remaining_balance l.documents organization invoice -ℤ pos a)
        × (invoice_paid_total l'.documents organization invoice
              +ℤ invoice_credited_total l'.documents organization invoice
            ≤ℤ invoice.total)
    unfolding invoice_remaining_balance get_invoice_action_state
    register_payment_effect =
        let paid = paid_after in
        let credited = credited_after in
        let inversion = payment_inversion in
        let settled =
          payment_arith invoice.total (invoice_paid_total l.documents organization invoice)
            (invoice_credited_total l.documents organization invoice) a positive inversion.1 in
        (
          ap (λ d. d.total) inversion.0,
          paid,
          credited,
          rw (paid, credited) settled.0,
          rw (paid, credited) settled.1,
        )
