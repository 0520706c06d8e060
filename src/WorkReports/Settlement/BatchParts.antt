-- ===== src/WorkReports/Settlement/BatchParts.antt =====
-- The parts of a call for a payment batch and the settled table: work_reports/services.py.
use internet_ms.Base.{
  ℕ, ◌<◌, ◌≡◌, refl, subst, Bool, true, false, not, ◌&&◌, List, [], ◌∷◌, Option, none, some, find,
  all, filter, All, All-map, All-both, All-filter_keep, Distinct, arith, ◌==◌, Bool-cases, inl, inr,
}
use internet_ms.Base.Text.{Text}
use internet_ms.Base.Result.{Result, ok, ◌>>=◌, >>=-eq-ok, raise_if, or_raise, or_raise-eq-ok}
use internet_ms.Users.Models.{Membership}
use internet_ms.WorkReports.PaymentRows.{Payment, Batch, PaymentEvent, PaymentStatus, Lifecycle}
use internet_ms.WorkReports.Models.{Report, Store, WorkError, is_approved}
use internet_ms.WorkReports.PaymentChecks.{payment_history}
use internet_ms.WorkReports.Payments.{with_lifecycle, differs, insert_payment, save_payment}
use internet_ms.WorkReports.Batches.{
  Allocation, match_reports, is_allocation_of, batch_history, log_each, log_adjustments,
  log_replaced_batch, allocation_row, initial_batch_status,
}
use internet_ms.WorkReports.BatchServices.{
  locked_batch, batch_with, insert_batch, save_batch, insert_allocations, save_allocations,
  transition_batch, store_batch,
}
use internet_ms.WorkReports.Settlement.{IsAgreed, IsSettled}
use internet_ms.WorkReports.Settlement.Keeping.{
  Keeps, Keeps-here, Keeps-then, same_rows, payment_history-Keeps, found_report_terms,
  insert_payment-Keeps, save_payment-Keeps,
}

log_each-Keeps :
    (m : Membership) (event : PaymentEvent) (from : Option PaymentStatus) (reason : Text)
    (ps : List Payment) (s s' : Store)
    → log_each m event from reason ps s ≡ ok s'
    → Keeps s s'
unfolding log_each
log_each-Keeps m event from reason [] s s' h = subst (Keeps s) (cc) (Keeps-here s)
log_each-Keeps m event from reason (p ∷ ps) s s' h =
    let (logged, logs, h1) = >>=-eq-ok (payment_history p m event from reason s) _ _ h in
    Keeps-then s logged s' (payment_history-Keeps p m event from reason s logged logs)
      (log_each-Keeps m event from reason ps logged s' h1)

batch_history-Keeps :
    (b : Batch) (m : Membership) (event : PaymentEvent) (from : Option PaymentStatus)
    (reason : Text) (s s' : Store)
    → batch_history b m event from reason s ≡ ok s'
    → Keeps s s'
unfolding batch_history
batch_history-Keeps b m event from reason s s' h = log_each-Keeps m event from reason _ s s' h

log_adjustments-Keeps :
    (m : Membership) (ps : List Payment) (s s' : Store)
    → log_adjustments m ps s ≡ ok s'
    → Keeps s s'
unfolding log_adjustments
log_adjustments-Keeps m [] s s' h = subst (Keeps s) (cc) (Keeps-here s)
log_adjustments-Keeps m (p ∷ ps) s s' h = elim (Bool-cases (differs p)) [
  | inl e ↦
      let (logged, logs, h1) =
        >>=-eq-ok
          (payment_history p m PaymentEvent.adjustment_approved (some p.lifecycle.status)
            p.adjustment_reason s)
          _ _ (rw e at h) in
      Keeps-then s logged s'
        (payment_history-Keeps p m PaymentEvent.adjustment_approved (some p.lifecycle.status)
          p.adjustment_reason s logged logs)
        (log_adjustments-Keeps m ps logged s' h1)
  | inr e ↦ log_adjustments-Keeps m ps s s' (rw e at h)
]

log_replaced_batch-Keeps :
    (b : Batch) (m : Membership) (old : Option Batch) (s s' : Store)
    → log_replaced_batch b m old s ≡ ok s'
    → Keeps s s'
log_replaced_batch-Keeps b m none s s' h = subst (Keeps s) (cc) (Keeps-here s)
log_replaced_batch-Keeps b m (some old) s s' h =
    batch_history-Keeps b m PaymentEvent.batch_replaced (some PaymentStatus.voided)
      old.lifecycle.void_reason s s' h

-- A payment that is in the table, or was when its batch was read.
abbrev IsStored : Store → Payment → Type 0
IsStored s p = (p.pk < s.next_id) × IsAgreed s p

IsStored-kept :
    (s t : Store) (ps : List Payment) → Keeps s t → All (IsStored s) ps → All (IsStored t) ps
IsStored-kept s t ps kept h =
    All-map _ _ ps (λ p x. (omega (arith, x.0, kept.next), rw kept.reports x.1)) h

-- A check that passed had its condition.
pub negated_check : (b : Bool) (e : WorkError) (u : Unit) → raise_if (not b) e ≡ ok u → b ≡ true
negated_check true e u h = refl
negated_check false e u h = ground (arith, h)

-- A report that its query finds, and is approved.
abbrev pub IsPayable : Store → Allocation × Report → Type 0
IsPayable s x =
    ((q : Report → Bool) × (find q s.reports ≡ some x.1)) × (is_approved x.1.status ≡ true)

pub matched_found :
    (t : ℕ) (reports : List Report) (rows : List Allocation) (xs : List (Allocation × Report))
    → match_reports t reports rows ≡ ok xs
    → All (λ x. (q : Report → Bool) × (find q reports ≡ some x.1)) xs
unfolding match_reports
matched_found t reports [] xs h = let same : xs ≡ [] = cc in rw same tt
matched_found t reports (row ∷ rows) xs h =
    let q = λ (r : Report). r.pk == row.report_id && r.tenant_id == t in
    let (report, found, h1) = >>=-eq-ok (or_raise (find q reports) _) _ _ h in
    let (rest, matches, h2) = >>=-eq-ok (match_reports t reports rows) _ _ h1 in
    let same : xs ≡ (row, report) ∷ rest = cc in
    rw same ((q, or_raise-eq-ok _ _ _ found), matched_found t reports rows rest matches)

pub all-All :
    (p : Allocation × Report → Bool) (xs : List (Allocation × Report))
    → all p xs ≡ true
    → All (λ x. p x ≡ true) xs
all-All p [] h = tt
all-All p (x ∷ xs) h = (ground arith, all-All p xs (ground arith))

module _ (valid_fields : Payment → Bool) (valid_batch : Batch → Bool) where
  insert_batch-Keeps :
      (b : Batch) (s s' : Store) → insert_batch valid_fields valid_batch b s ≡ ok s' → Keeps s s'
  unfolding insert_batch
  insert_batch-Keeps b s s' h = same_rows s s' (ground arith) (ground arith) (ground arith)

  save_batch-Keeps :
      (b : Batch) (s s' : Store) → save_batch valid_fields valid_batch b s ≡ ok s' → Keeps s s'
  unfolding save_batch
  save_batch-Keeps b s s' h = same_rows s s' (ground arith) (ground arith) (ground arith)

  save_allocations-Keeps :
      (f : Lifecycle → Lifecycle) (ps : List Payment) (s s' : Store)
      → save_allocations valid_fields valid_batch f ps s ≡ ok s'
      → All (IsStored s) ps
      → Keeps s s'
  unfolding save_allocations
  save_allocations-Keeps f [] s s' h stored = subst (Keeps s) (cc) (Keeps-here s)
  save_allocations-Keeps f (p ∷ ps) s s' h stored =
      let (saved, saves, h1) = >>=-eq-ok (save_payment valid_fields (with_lifecycle f p) s) _ _ h in
      let kept =
        save_payment-Keeps valid_fields (with_lifecycle f p) s saved saves stored.0.0 stored.0.1 in
      Keeps-then s saved s' kept
        (save_allocations-Keeps f ps saved s' h1 (IsStored-kept s saved ps kept stored.1))

  insert_allocations-Keeps :
      (b : Batch) (xs : List (Allocation × Report)) (s s' : Store)
      → insert_allocations valid_fields valid_batch b xs s ≡ ok s'
      → Distinct (λ r. r.pk) s.reports
      → All (IsPayable s) xs
      → Keeps s s'
  unfolding insert_allocations
  insert_allocations-Keeps b [] s s' h distinct payable = subst (Keeps s) (cc) (Keeps-here s)
  insert_allocations-Keeps b (x ∷ xs) s s' h distinct payable =
      let p = allocation_row s.next_id b x in
      let (saved, saves, h1) = >>=-eq-ok (insert_payment valid_fields p s) _ _ h in
      let kept =
        insert_payment-Keeps valid_fields p s saved saves refl
          (found_report_terms payable.0.0.0 s x.1 p distinct payable.0.0.1 payable.0.1 refl refl) in
      Keeps-then s saved s' kept (
        insert_allocations-Keeps b xs saved s' h1 (rw kept.reports distinct)
          (All-map (IsPayable s) _ xs (λ y e. ((e.0.0, rw kept.reports e.0.1), e.1)) payable.1))

  transition-Keeps :
      (f : Lifecycle → Lifecycle) (b : Batch) (t : ℕ) (s s' : Store)
      → transition_batch valid_fields valid_batch f b
          (filter (is_allocation_of t b.pk) s.payments)
          s
        ≡ ok s'
      → IsSettled s
      → Keeps s s'
  unfolding transition_batch
  transition-Keeps f b t s s' h settled =
      let ps = filter (is_allocation_of t b.pk) s.payments in
      let (saved, saves, h1) =
        >>=-eq-ok (save_batch valid_fields valid_batch (batch_with f b) s) _ _ h in
      let kept = save_batch-Keeps (batch_with f b) s saved saves in
      Keeps-then s saved s' kept (
        save_allocations-Keeps f ps saved s' h1 (
          IsStored-kept s saved ps kept (
            All-filter_keep (IsStored s) (is_allocation_of t b.pk) s.payments
              (All-both _ _ s.payments settled.below settled.agreed))))

  locked_batch-ok :
      (batch_id t : ℕ) (technician : Option ℕ) (s : Store) (b : Batch) (ps : List Payment)
      → locked_batch batch_id t technician s ≡ ok (b, ps)
      → ps ≡ filter (is_allocation_of t b.pk) s.payments
  unfolding locked_batch
  locked_batch-ok batch_id t technician s b ps h = ground arith

  abbrev pub move_and_log :
      (Lifecycle → Lifecycle)
      → PaymentEvent
      → Text
      → Membership
      → Batch
      → List Payment
      → Store
      → Result WorkError (Batch × Store)
  move_and_log f event reason m b ps s = do
    moved ← transition_batch valid_fields valid_batch f b ps s
    logged ← batch_history (batch_with f b) m event (some b.lifecycle.status) reason moved
    ok (batch_with f b, logged)

  pub move_and_log-Keeps :
      (f : Lifecycle → Lifecycle) (event : PaymentEvent) (reason : Text) (m : Membership)
      (b : Batch) (batch_id t : ℕ) (technician : Option ℕ) (ps : List Payment) (s : Store)
      (r : Batch) (s' : Store)
      → move_and_log f event reason m b ps s ≡ ok (r, s')
      → locked_batch batch_id t technician s ≡ ok (b, ps)
      → IsSettled s
      → Keeps s s'
  move_and_log-Keeps f event reason m b batch_id t technician ps s r s' h locked settled =
      let rows = locked_batch-ok batch_id t technician s b ps locked in
      let (moved, moves, h1) =
        >>=-eq-ok (transition_batch valid_fields valid_batch f b ps s) _ _ h in
      let (logged, logs, h2) =
        >>=-eq-ok (batch_history (batch_with f b) m event (some b.lifecycle.status) reason moved) _
          _ h1 in
      let same : logged ≡ s' = cc in
      subst (Keeps s) same (
        Keeps-then s moved logged (transition-Keeps f b t s moved (rw rows at moves) settled) (
          batch_history-Keeps (batch_with f b) m event (some b.lifecycle.status) reason moved logged
            logs))

  pub store_batch-Keeps :
      (b : Batch) (xs : List (Allocation × Report)) (replacement : Option Batch) (m : Membership)
      (t : ℕ) (s : Store) (r : Batch) (s' : Store)
      → store_batch valid_fields valid_batch b xs replacement m t s ≡ ok (r, s')
      → Distinct (λ r. r.pk) s.reports
      → All (IsPayable s) xs
      → Keeps s s'
  unfolding store_batch
  store_batch-Keeps b xs replacement m t s r s' h distinct payable =
      let (saved, saves, h1) = >>=-eq-ok (insert_batch valid_fields valid_batch b s) _ _ h in
      let kept = insert_batch-Keeps b s saved saves in
      let (filled, fills, h2) =
        >>=-eq-ok (insert_allocations valid_fields valid_batch b xs saved) _ _ h1 in
      let (recorded, records, h3) =
        >>=-eq-ok
          (batch_history b m PaymentEvent.batch_recorded (initial_batch_status replacement) []
            filled)
          _ _ h2 in
      let rows = filter (is_allocation_of t b.pk) recorded.payments in
      let (adjusted, adjusts, h4) = >>=-eq-ok (log_adjustments m rows recorded) _ _ h3 in
      let (logged, logs, h5) = >>=-eq-ok (log_replaced_batch b m replacement adjusted) _ _ h4 in
      let same : logged ≡ s' = cc in
      subst (Keeps s) same (
        Keeps-then s saved logged kept (
          Keeps-then saved filled logged
            (insert_allocations-Keeps b xs saved filled fills (rw kept.reports distinct)
              (All-map (IsPayable s) _ xs (λ y e. ((e.0.0, rw kept.reports e.0.1), e.1)) payable))
            (Keeps-then filled recorded logged
              (batch_history-Keeps b m PaymentEvent.batch_recorded
                (initial_batch_status replacement) [] filled recorded records)
              (Keeps-then recorded adjusted logged
                (log_adjustments-Keeps m rows recorded adjusted adjusts)
                (log_replaced_batch-Keeps b m replacement adjusted logged logs)))))
