-- ===== src/Billing/Receipts/Repeat.antt =====
-- Repeated payments: billing/services.py, the `payment_reference` of `create_receipt_from_invoice`.
use internet_ms.Base.{
  ℕ, suc, ◌≤◌, ◌≡◌, ◌∙◌, refl, ap, inl, inr, ◌⊎◌, Bool, true, false, ◌&&◌, Option, none, some, List,
  [], ◌∷◌, ◌++◌, arith, ◌==◌, find, update, Option-cases, find-update, find-append_some,
  find-append_none, find-All,
}
use internet_ms.Base.Int.{pos}
use internet_ms.Base.Text.{Text, strip, is_empty, text_eq, text_eq_refl}
use internet_ms.Base.Result.{ok}
use internet_ms.Billing.Models.{Document, Status, is_invoice}
use internet_ms.Billing.Ledger.{Ledger, find_document}
use internet_ms.Billing.Ledger.Sums.{IsValid}
use internet_ms.Billing.Documents.{require_same_tenant}
use internet_ms.Billing.Credits.{set_status}
use internet_ms.Billing.Receipts.{
  Inventory, Stock, create_receipt_from_invoice, register_payment, reference_owner, check_reference,
  is_repeat,
}
use internet_ms.Billing.Receipts.Effects.{payment_rows}

-- The tables of a ledger after a receipt `r` with a new reference was stored for `invoice`.
module _ (organization invoice_id : ℕ) (reference : Text) (l : Ledger) (invoice r : Document)
    (documents : List Document) (st : Status)
    (stored : documents ≡ update (λ d. d.pk == invoice.pk) (set_status st) (l.documents ++ r ∷ []))
    (found : find_document is_invoice invoice_id l.documents ≡ some invoice) where
  abbrev is_it : Document → Bool
  is_it d = d.pk == invoice_id && is_invoice d.document_type

  abbrev has_reference : Document → Bool
  has_reference d = d.organization_id == organization && text_eq d.payment_reference reference

  abbrev rows : List Document
  rows = l.documents ++ r ∷ []

  invoice_after : find_document is_invoice invoice_id documents ≡ some (set_status st invoice)
  invoice_after = rw stored (
      find-update is_it (λ d. d.pk == invoice.pk) (set_status st) rows invoice (λ d. refl)
        (find-append_some is_it l.documents (r ∷ []) invoice found)
      ∙ ground arith)

  owner_after :
      IsValid l
      → reference_owner organization reference l.documents ≡ none
      → r.pk ≡ l.next_id
      → r.organization_id ≡ organization
      → r.payment_reference ≡ reference
      → reference_owner organization reference documents ≡ some r
  owner_after valid fresh key org ref =
      let below : suc invoice.pk ≤ l.next_id =
        find-All (λ d. suc d.pk ≤ l.next_id) is_it l.documents invoice valid.below found in
      rw stored (
        find-update has_reference (λ d. d.pk == invoice.pk) (set_status st) rows r (λ d. refl)
          (find-append_none has_reference l.documents (r ∷ []) fresh ∙ last_found)
        ∙ ground arith)
    where
      last_found : find has_reference (r ∷ []) ≡ some r
      last_found = ground (arith, text_eq_refl reference, ap (λ t. text_eq t reference) ref)

module _ (inventory : Inventory) (lower_wide : Text → Text) (organization : ℕ) (invoice_id : ℕ)
    (a : ℕ) (reference : Text) where
  -- A call with a reference whose row is a receipt of this amount for this invoice returns that row.
  known_reference :
      (now today : ℕ) (actor : Option ℕ) (payment_date : Option ℕ) (method : Text) (l : Ledger)
      (stock : Stock inventory) (invoice owner : Document)
      → 1 ≤ a
      → is_empty (strip reference) ≡ false
      → find_document is_invoice invoice_id l.documents ≡ some invoice
      → require_same_tenant organization invoice ≡ ok tt
      → reference_owner organization (strip reference) l.documents ≡ some owner
      → check_reference inventory invoice.pk (pos a) (some owner) ≡ ok (some owner)
      → create_receipt_from_invoice inventory lower_wide now today organization actor invoice_id
          (pos a)
          payment_date
          method
          reference
          l
          stock
        ≡ ok (owner, l, stock)
  unfolding create_receipt_from_invoice
  known_reference now today actor payment_date method l stock invoice owner positive named found
        tenant known check =
      ground arith

  -- The two ways in which a payment with a reference succeeds.
  outcomes :
      (now today : ℕ) (actor : Option ℕ) (payment_date : Option ℕ) (method : Text) (l : Ledger)
      (stock : Stock inventory) (invoice r : Document) (l' : Ledger) (stock' : Stock inventory)
      → is_empty (strip reference) ≡ false
      → find_document is_invoice invoice_id l.documents ≡ some invoice
      → create_receipt_from_invoice inventory lower_wide now today organization actor invoice_id
          (pos a)
          payment_date
          method
          reference
          l
          stock
        ≡ ok (r, l', stock')
      → (require_same_tenant organization invoice ≡ ok tt)
        × (((reference_owner organization (strip reference) l.documents ≡ some r)
              × (check_reference inventory invoice.pk (pos a) (some r) ≡ ok (some r))
              × (l' ≡ l)
              × (stock' ≡ stock))
            ⊎ ((reference_owner organization (strip reference) l.documents ≡ none)
                × (register_payment inventory lower_wide now today organization actor invoice
                      (pos a)
                      payment_date
                      method
                      (strip reference)
                      l
                      stock
                    ≡ ok (r, l', stock'))))
  unfolding create_receipt_from_invoice
  outcomes now today actor payment_date method l stock invoice r l' stock' named found h =
      elim (Option-cases (reference_owner organization (strip reference) l.documents)) [
        | inl fresh ↦ (ground arith, inr (fresh, ground arith))
        | inr (owner, known) ↦
            (ground arith, inl (ground arith, ground arith, ground arith, ground arith))
      ]

  pub invoice_exists :
      (now today : ℕ) (actor : Option ℕ) (payment_date : Option ℕ) (method : Text) (l : Ledger)
      (stock : Stock inventory) (r : Document) (l' : Ledger) (stock' : Stock inventory)
      → create_receipt_from_invoice inventory lower_wide now today organization actor invoice_id
          (pos a)
          payment_date
          method
          reference
          l
          stock
        ≡ ok (r, l', stock')
      → (invoice : Document) × (find_document is_invoice invoice_id l.documents ≡ some invoice)
  unfolding create_receipt_from_invoice
  invoice_exists now today actor payment_date method l stock r l' stock' h =
      elim (Option-cases (find_document is_invoice invoice_id l.documents)) [
        | inl missing ↦ absurd (ground arith)
        | inr row ↦ row
      ]

  same_tenant_after :
      (st : Status) (invoice : Document)
      → require_same_tenant organization invoice ≡ ok tt
      → require_same_tenant organization (set_status st invoice) ≡ ok tt
  unfolding require_same_tenant
  same_tenant_after st invoice h = h

  accepts_own :
      (invoice : ℕ) (r : Document)
      → r.total ≡ pos a
      → is_repeat invoice r ≡ true
      → check_reference inventory invoice (pos a) (some r) ≡ ok (some r)
  accepts_own invoice r total repeat = ground arith

  -- A payment of one cent or more with a reference that is not blank, which succeeded on a valid
  -- ledger, can be sent again by the same member, at any time, with the same date and method: it
  -- returns the same receipt and changes nothing.
  pub repeat_returns_receipt :
      (now today now' today' : ℕ) (actor : Option ℕ) (payment_date : Option ℕ) (method : Text)
      (l : Ledger) (stock : Stock inventory) (r : Document) (l' : Ledger) (stock' : Stock inventory)
      → 1 ≤ a
      → is_empty (strip reference) ≡ false
      → IsValid l
      → create_receipt_from_invoice inventory lower_wide now today organization actor invoice_id
          (pos a)
          payment_date
          method
          reference
          l
          stock
        ≡ ok (r, l', stock')
      → create_receipt_from_invoice inventory lower_wide now' today' organization actor invoice_id
          (pos a)
          payment_date
          method
          reference
          l'
          stock'
        ≡ ok (r, l', stock')
  repeat_returns_receipt now today now' today' actor payment_date method l stock r l' stock'
        positive named valid h =
      let (invoice, found) =
        invoice_exists now today actor payment_date method l stock r l' stock' h in
      let (tenant, outcome) =
        outcomes now today actor payment_date method l stock invoice r l' stock' named found h in
      elim outcome [
        | inl (known, check, same, same_stock) ↦
            rw (same, same_stock)
              (known_reference now' today' actor payment_date method l stock invoice r positive
                named found tenant known check)
        | inr (fresh, registered) ↦
            let (st, stored, key, org, ref, total, repeat) =
              payment_rows inventory lower_wide now today organization actor invoice a payment_date
                method (strip reference) l stock r l' stock' positive registered in
            known_reference now' today' actor payment_date method l' stock' (set_status st invoice)
              r positive named
              (invoice_after organization invoice_id (strip reference) l invoice r l'.documents st
                stored found)
              (same_tenant_after st invoice tenant)
              (owner_after organization invoice_id (strip reference) l invoice r l'.documents st
                stored found valid fresh key org ref)
              (accepts_own invoice.pk r total repeat)
      ]
