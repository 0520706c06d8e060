-- ===== src/Billing/Invoices/Effects.antt =====
-- What voiding an invoice needs and changes: billing/services.py, `void_invoice`.
use internet_ms.Base.{
  ℕ, ap, ◌≤◌, ◌≡◌, ◌∙◌, refl, Bool, true, false, ◌&&◌, some, arith, inl, inr, find-update, ◌==◌,
  length, any, List,
}
use internet_ms.Base.Int.{pos, eq_ℤ_iff}
use internet_ms.Base.Text.{Text, strip}
use internet_ms.Base.Result.{ok, Result-cases}
use internet_ms.Billing.Models.{Document, is_invoice}
use internet_ms.Billing.Ledger.{
  Ledger, find_document, log_action, update_document, invoice_paid_total, invoice_credited_total,
}
use internet_ms.Billing.ActionState.{InvoiceState, get_invoice_action_state, is_active_issued}
use internet_ms.Billing.Documents.{resolve_invoice}
use internet_ms.Billing.Invoices.{void_invoice, void_document, is_period_of}

-- An invoice that may be voided is issued, in one of the four statuses, and nothing is paid or credited on it.
can_void_conditions :
    (documents : List Document) (organization : ℕ) (invoice : Document)
    → (get_invoice_action_state documents organization invoice).can_void ≡ true
    → (is_active_issued invoice.status ≡ true)
      × (invoice_paid_total documents organization invoice ≡ pos 0)
      × (invoice_credited_total documents organization invoice ≡ pos 0)
unfolding get_invoice_action_state
can_void_conditions documents organization invoice h = (
  ground (arith, h),
  (eq_ℤ_iff (invoice_paid_total documents organization invoice) (pos 0)).0 (ground (arith, h)),
  (eq_ℤ_iff (invoice_credited_total documents organization invoice) (pos 0)).0 (ground (arith, h)),
)

-- A void invoice takes no action any more.
pub IsClosed : InvoiceState → Type 0
IsClosed s =
    (s.can_void ≡ false)
    × (s.can_reissue ≡ false)
    × (s.can_register_payment ≡ false)
    × (s.can_create_credit_note ≡ false)
    × (s.is_locked ≡ true)

void-IsClosed :
    (documents : List Document) (organization now : ℕ) (invoice : Document)
    → IsClosed (get_invoice_action_state documents organization (void_document now invoice))
unfolding get_invoice_action_state IsClosed
void-IsClosed documents organization now invoice = (refl, refl, refl, refl, refl)

module _ (now organization invoice_id : ℕ) (reason : Text) (linked : Bool) (l : Ledger)
    (d : Document) (l' : Ledger)
    (voided : void_invoice now organization invoice_id reason linked l ≡ ok (d, l')) where
  resolved : (i : Document) × (resolve_invoice organization invoice_id l ≡ ok i)
  unfolding void_invoice
  resolved = elim (Result-cases (resolve_invoice organization invoice_id l)) [
    | inl found ↦ found
    | inr (e, failed) ↦ absurd (ground arith)
  ]

  inversion :
      (i : Document)
      → resolve_invoice organization invoice_id l ≡ ok i
      → (5 ≤ length (strip reason))
        × ((get_invoice_action_state l.documents organization i).can_void ≡ true)
        × ((linked ≡ false) → any (is_period_of organization i.pk) l.periods ≡ false)
        × (d ≡ void_document now i)
        × (l' ≡ log_action "invoice_voided" i.pk (update_document i.pk (void_document now) l))
  unfolding void_invoice
  inversion i e = (ground arith, ground arith, λ h. ground arith, ground arith, ground arith)

found_of_resolved :
    (organization invoice_id : ℕ) (l : Ledger) (i : Document)
    → resolve_invoice organization invoice_id l ≡ ok i
    → find_document is_invoice invoice_id l.documents ≡ some i
unfolding resolve_invoice
found_of_resolved organization invoice_id l i h = ground arith

-- A void that succeeds had a reason of five characters or more and an issued invoice on which nothing
-- is paid or credited; unless linked periods are allowed, no subscription period bills it. The table
-- then has the void row, which takes no action, and the periods and subscriptions are unchanged.
pub void_invoice_effect :
    (now organization invoice_id : ℕ) (reason : Text) (linked : Bool) (l : Ledger) (d : Document)
    (l' : Ledger)
    → void_invoice now organization invoice_id reason linked l ≡ ok (d, l')
    → (i : Document) × (find_document is_invoice invoice_id l.documents ≡ some i)
      × (5 ≤ length (strip reason))
      × (is_active_issued i.status ≡ true)
      × (invoice_paid_total l.documents organization i ≡ pos 0)
      × (invoice_credited_total l.documents organization i ≡ pos 0)
      × ((linked ≡ false) → any (is_period_of organization i.pk) l.periods ≡ false)
      × (find_document is_invoice invoice_id l'.documents ≡ some d)
      × IsClosed (get_invoice_action_state l'.documents organization d)
      × (l'.periods ≡ l.periods)
      × (l'.subscriptions ≡ l.subscriptions)
void_invoice_effect now organization invoice_id reason linked l d l' h =
    let (i, resolves) = resolved now organization invoice_id reason linked l d l' h in
    let (long, can, unlinked, same, tables) =
      inversion now organization invoice_id reason linked l d l' h i resolves in
    let (active, paid, credited) = can_void_conditions l.documents organization i can in
    let found = found_of_resolved organization invoice_id l i resolves in
    (
      i,
      found,
      long,
      active,
      paid,
      credited,
      unlinked,
      rw (tables, same)
          (find-update (λ x. x.pk == invoice_id && is_invoice x.document_type) (λ x. x.pk == i.pk)
              (void_document now) l.documents i (λ x. refl) found
            ∙ ground arith),
      rw same (void-IsClosed l'.documents organization now i),
      ap (λ x. x.periods) tables,
      ap (λ x. x.subscriptions) tables,
    )
