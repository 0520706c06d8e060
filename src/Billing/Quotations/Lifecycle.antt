-- ===== src/Billing/Quotations/Lifecycle.antt =====
-- The status graph of a quotation: billing/services.py, `transition_quotation_status`.
use internet_ms.Base.{
  ℕ, ap, ◌<◌, ◌≡◌, ◌↔◌, refl, Bool, true, false, ◌&&◌, some, arith, inl, inr, find-update, ◌==◌,
  ◌∙◌,
}
use internet_ms.Base.Result.{ok, Result-cases}
use internet_ms.Billing.Models.{Document, Status, is_quotation}
use internet_ms.Billing.Ledger.{Ledger, find_document, log_action, update_document}
use internet_ms.Billing.Documents.{require_same_tenant, resolve_quotation}
use internet_ms.Billing.Quotations.{
  quotation_state, is_allowed_transition, status_update, transition_quotation_status,
  get_quotation_action_state, quotation_action,
}

-- The moves that a quotation may make.
abbrev pub is_edge : Status → Status → Bool
is_edge Status.draft Status.sent = true
is_edge Status.draft Status.rejected = true
is_edge Status.sent Status.accepted = true
is_edge Status.sent Status.rejected = true
is_edge Status.sent Status.expired = true
is_edge _ _ = false

-- How far along a status is.
abbrev pub rank : Status → ℕ
rank Status.draft = 0
rank Status.sent = 1
rank _ = 2

allowed-edge :
    (q : Document) (to : Status)
    → is_allowed_transition (quotation_state q) to ≡ (q.is_current_version && is_edge q.status to)
allowed-edge q Status.sent = ground arith
allowed-edge q _ = ground arith

edge-rank : (from to : Status) → is_edge from to ≡ true → rank from < rank to
edge-rank Status.draft to h = ground arith
edge-rank _ to h = ground arith

updated_status : (now : ℕ) (to : Status) (q : Document) → (status_update now to q).status ≡ to
updated_status now Status.sent q = refl
updated_status now _ q = refl

resolve_found :
    (organization quotation_id : ℕ) (l : Ledger) (q : Document)
    → find_document is_quotation quotation_id l.documents ≡ some q
    → require_same_tenant organization q ≡ ok tt
    → resolve_quotation organization quotation_id l ≡ ok q
unfolding resolve_quotation
resolve_found organization quotation_id l q found tenant = ground arith

resolve_inversion :
    (organization quotation_id : ℕ) (l : Ledger) (q : Document)
    → resolve_quotation organization quotation_id l ≡ ok q
    → (find_document is_quotation quotation_id l.documents ≡ some q)
      × (require_same_tenant organization q ≡ ok tt)
unfolding resolve_quotation
resolve_inversion organization quotation_id l q h = (ground arith, ground arith)

module _ (now organization quotation_id : ℕ) (to : Status) (l : Ledger) (q : Document)
    (resolved : resolve_quotation organization quotation_id l ≡ ok q)
    (tenant : require_same_tenant organization q ≡ ok tt) where
  abbrev moved : Ledger
  moved = log_action (quotation_action to) q.pk (update_document q.pk (status_update now to) l)

  forward :
      q.is_current_version ≡ true
      → is_edge q.status to ≡ true
      → transition_quotation_status now organization quotation_id to l
        ≡ ok (status_update now to q, moved)
  unfolding transition_quotation_status get_quotation_action_state
  forward current edge = ground (arith, allowed-edge q to)

  backward :
      (d : Document) (l' : Ledger)
      → transition_quotation_status now organization quotation_id to l ≡ ok (d, l')
      → (q.is_current_version ≡ true)
        × (is_edge q.status to ≡ true)
        × (d ≡ status_update now to q)
        × (l' ≡ moved)
  unfolding transition_quotation_status get_quotation_action_state
  backward d l' h = (
    ground (arith, allowed-edge q to),
    ground (arith, allowed-edge q to),
    ground (arith, allowed-edge q to),
    ground (arith, allowed-edge q to),
  )

resolved_of_ok :
    (now organization quotation_id : ℕ) (to : Status) (l : Ledger) (d : Document) (l' : Ledger)
    → transition_quotation_status now organization quotation_id to l ≡ ok (d, l')
    → (q : Document) × (resolve_quotation organization quotation_id l ≡ ok q)
unfolding transition_quotation_status
resolved_of_ok now organization quotation_id to l d l' h =
    elim (Result-cases (resolve_quotation organization quotation_id l)) [
      | inl (q, e) ↦ (q, e)
      | inr (e, failed) ↦ absurd (ground arith)
    ]

keeps_key :
    (now quotation_id : ℕ) (to : Status) (d : Document)
    → ((status_update now to d).pk == quotation_id
        && is_quotation (status_update now to d).document_type)
      ≡ (d.pk == quotation_id && is_quotation d.document_type)
keeps_key now quotation_id Status.sent d = refl
keeps_key now quotation_id _ d = refl

-- An organization's quotation moves to a status exactly when it is the current version and the status
-- graph has the move; the answer is the row with the new status.
pub transition_exact :
    (now organization quotation_id : ℕ) (to : Status) (l : Ledger) (q : Document)
    → find_document is_quotation quotation_id l.documents ≡ some q
    → require_same_tenant organization q ≡ ok tt
    → ((d : Document) × (l' : Ledger) × (transition_quotation_status now organization quotation_id
            to l
          ≡ ok (d, l')))
      ↔ ((q.is_current_version ≡ true) × (is_edge q.status to ≡ true))
transition_exact now organization quotation_id to l q found tenant =
    let resolved = resolve_found organization quotation_id l q found tenant in
    (
      λ (d, l', h).
          let given = backward now organization quotation_id to l q resolved tenant d l' h in
          (given.0, given.1),
      λ (current, edge). (
        status_update now to q,
        moved now organization quotation_id to l q resolved tenant,
        forward now organization quotation_id to l q resolved tenant current edge,
      ),
    )

-- A transition that succeeds takes the row found to a later status along the status graph, and the
-- table then has the new row under the quotation's key.
pub transition_sound :
    (now organization quotation_id : ℕ) (to : Status) (l : Ledger) (d : Document) (l' : Ledger)
    → transition_quotation_status now organization quotation_id to l ≡ ok (d, l')
    → (q : Document) × (find_document is_quotation quotation_id l.documents ≡ some q)
      × (is_edge q.status to ≡ true)
      × (d.status ≡ to)
      × (rank q.status < rank d.status)
      × (find_document is_quotation quotation_id l'.documents ≡ some d)
transition_sound now organization quotation_id to l d l' h =
    let (q, resolved) = resolved_of_ok now organization quotation_id to l d l' h in
    let (found, tenant) = resolve_inversion organization quotation_id l q resolved in
    let (current, edge, same, tables) =
      backward now organization quotation_id to l q resolved tenant d l' h in
    let status : d.status ≡ to = ap (λ x. x.status) same ∙ updated_status now to q in
    (
      q,
      found,
      edge,
      status,
      rw status (edge-rank q.status to edge),
      rw (tables, same)
          (find-update (λ x. x.pk == quotation_id && is_quotation x.document_type)
              (λ x. x.pk == q.pk) (status_update now to) l.documents q
              (keeps_key now quotation_id to) found
            ∙ ground arith),
    )
