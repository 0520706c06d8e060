-- ===== src/WorkReports/Settlement/Primitives.antt =====
-- The writes to the table of technician payments: work_reports/models.py.
use internet_ms.Base.{
  suc, ◌<◌, ◌≡◌, ◌≢◌, ◌∙◌, sym, subst, Bool, true, false, not, ◌&&◌, List, [], ◌∷◌, ◌++◌, ◌==◌,
  ==_iff, any, update, All, All-map, All-append, All-of, All-update, Distinct, update-Distinct,
  append-Distinct, Bool-cases, inl, inr, arith,
}
use internet_ms.Base.Result.{ok}
use internet_ms.WorkReports.PaymentRows.{Payment}
use internet_ms.WorkReports.Models.{Store}
use internet_ms.WorkReports.PaymentChecks.{clean_payment, conflicts, is_active_for}
use internet_ms.WorkReports.Payments.{insert_payment, save_payment}
use internet_ms.WorkReports.Settlement.{is_active, OneActive, IsAgreed, IsSettled}

-- No other payment of the report is active.
abbrev is_rival : Payment → Payment → Bool
is_rival p x = not (x.pk == p.pk) && is_active_for p.report_id x

no_rival_of :
    (p : Payment) (xs : List Payment)
    → is_active p ≡ true
    → any (is_rival p) xs ≡ false
    → All (λ x. x.pk ≢ p.pk → is_active x ≡ true → x.report_id ≢ p.report_id) xs
no_rival_of p [] a h = tt
no_rival_of p (x ∷ xs) a h =
    ((λ other active same. absurd (ground (arith, other))), no_rival_of p xs a (ground arith))

append-OneActive :
    (p : Payment) (xs : List Payment)
    → OneActive xs
    → All (λ x. is_active p ≡ true → is_active x ≡ true → x.report_id ≢ p.report_id) xs
    → OneActive (xs ++ p ∷ [])
unfolding OneActive
append-OneActive p [] h n = (tt, tt)
append-OneActive p (x ∷ xs) h n = (
  All-append _ xs (p ∷ []) h.0 ((λ ax ap same. n.0 ap ax (sym same)), tt),
  append-OneActive p xs h.1 n.1,
)

-- The row under a key replaced by one that has no rival.
update-OneActive :
    (p : Payment) (xs : List Payment)
    → OneActive xs
    → Distinct (λ x. x.pk) xs
    → All
        (λ x. x.pk ≢ p.pk → is_active p ≡ true → is_active x ≡ true → x.report_id ≢ p.report_id)
        xs
    → OneActive (update (λ x. x.pk == p.pk) (λ _. p) xs)
unfolding OneActive Distinct
update-OneActive p [] h d n = tt
update-OneActive p (x ∷ xs) h d n = elim (Bool-cases (x.pk == p.pk)) [
  | inl here ↦
      let same : x.pk ≡ p.pk = (==_iff x.pk p.pk).0 here in
      rw here (later xs d.0 n.1 same, update-OneActive p xs h.1 d.1 n.1)
  | inr other ↦ rw other (
    All-update (λ y. y.pk) _ (λ y. y.pk == p.pk) (λ _. p) xs
        (All-of _ xs (λ y _ ax ap same. n.0 (λ e. absurd (ground arith)) ap ax (sym same))) h.0,
    update-OneActive p xs h.1 d.1 n.1,
  )
]
  where
    later :
        (ys : List Payment)
        → All (λ e. e.pk ≢ x.pk) ys
        → All
            (λ y. y.pk ≢ p.pk → is_active p ≡ true → is_active y ≡ true → y.report_id ≢ p.report_id)
            ys
        → x.pk ≡ p.pk
        → All
            (λ q. is_active p ≡ true → is_active q ≡ true → q.report_id ≢ p.report_id)
            (update (λ y. y.pk == p.pk) (λ _. p) ys)
    later [] a b same = tt
    later (y ∷ ys) a b same =
        let apart : (y.pk == p.pk) ≡ false = ground (arith, a.0) in
        rw apart ((λ ap ay e. b.0 (λ k. a.0 (k ∙ sym same)) ap ay e), later ys a.1 b.1 same)

abbrev pub inserted : Payment → Store → Store
inserted p s = record s { payments = s.payments ++ p ∷ []; next_id = suc s.next_id }

abbrev pub replaced : Payment → Store → Store
replaced p s = record s { payments = update (λ x. x.pk == p.pk) (λ _. p) s.payments }

inserted-IsSettled :
    (p : Payment) (s : Store)
    → p.pk ≡ s.next_id
    → conflicts s p ≡ false
    → IsAgreed s p
    → IsSettled s
    → IsSettled (inserted p s)
inserted-IsSettled p s key free agreed settled = record {
  distinct = append-Distinct (λ x. x.pk) s.next_id s.payments p settled.distinct settled.below key;
  below =
      All-append _ s.payments (p ∷ [])
        (All-map (λ x. x.pk < s.next_id) _ s.payments (λ x b. omega arith) settled.below)
        (omega arith, tt);
  one_active =
      append-OneActive p s.payments settled.one_active
        (rivals s.payments settled.below (λ a. no_rival_of p s.payments a (ground arith)));
  agreed = All-append _ s.payments (p ∷ []) settled.agreed (agreed, tt);
}
  where
    rivals :
        (xs : List Payment)
        → All (λ x. x.pk < s.next_id) xs
        → (is_active p ≡ true
            → All (λ x. x.pk ≢ p.pk → is_active x ≡ true → x.report_id ≢ p.report_id) xs)
        → All (λ x. is_active p ≡ true → is_active x ≡ true → x.report_id ≢ p.report_id) xs
    rivals [] b n = tt
    rivals (x ∷ xs) b n = (
      (λ ap ax. (n ap).0 (λ e. absurd (omega (arith, b.0, e, key))) ax),
      rivals xs b.1 (λ ap. (n ap).1),
    )

replaced-IsSettled :
    (p : Payment) (s : Store)
    → p.pk < s.next_id
    → conflicts s p ≡ false
    → IsAgreed s p
    → IsSettled s
    → IsSettled (replaced p s)
replaced-IsSettled p s key free agreed settled = record {
  distinct =
      update-Distinct (λ x. x.pk) (λ x. x.pk == p.pk) (λ _. p) s.payments
        (All-of _ s.payments (λ x e. sym ((==_iff x.pk p.pk).0 e))) settled.distinct;
  below =
      All-update (λ x. x.pk) (λ x. x.pk < s.next_id) (λ x. x.pk == p.pk) (λ _. p) s.payments
        (All-of _ s.payments (λ x e. key)) settled.below;
  one_active =
      update-OneActive p s.payments settled.one_active settled.distinct
        (rivals s.payments (λ a. no_rival_of p s.payments a (ground arith)));
  agreed =
      All-update (λ x. x.pk) (IsAgreed s) (λ x. x.pk == p.pk) (λ _. p) s.payments
        (All-of _ s.payments (λ x e. agreed)) settled.agreed;
}
  where
    rivals :
        (xs : List Payment)
        → (is_active p ≡ true
            → All (λ x. x.pk ≢ p.pk → is_active x ≡ true → x.report_id ≢ p.report_id) xs)
        → All
            (λ x. x.pk ≢ p.pk → is_active p ≡ true → is_active x ≡ true → x.report_id ≢ p.report_id)
            xs
    rivals [] n = tt
    rivals (x ∷ xs) n = ((λ other ap ax. (n ap).0 other ax), rivals xs (λ ap. (n ap).1))

module _ (valid_fields : Payment → Bool) where
  pub insert_payment-ok :
      (p : Payment) (s s' : Store)
      → insert_payment valid_fields p s ≡ ok s'
      → (clean_payment s p ≡ true) × (conflicts s p ≡ false) × (s' ≡ inserted p s)
  unfolding insert_payment
  insert_payment-ok p s s' h = (ground arith, ground arith, ground arith)

  pub save_payment-ok :
      (p : Payment) (s s' : Store)
      → save_payment valid_fields p s ≡ ok s'
      → (clean_payment s p ≡ true) × (conflicts s p ≡ false) × (s' ≡ replaced p s)
  unfolding save_payment
  save_payment-ok p s s' h = (ground arith, ground arith, ground arith)

  -- The row of a new payment under the next key.
  pub insert_payment-IsSettled :
      (p : Payment) (s s' : Store)
      → insert_payment valid_fields p s ≡ ok s'
      → p.pk ≡ s.next_id
      → IsAgreed s p
      → IsSettled s
      → IsSettled s'
  insert_payment-IsSettled p s s' h key agreed settled =
      let (_, free, same) = insert_payment-ok p s s' h in
      subst IsSettled (sym same) (inserted-IsSettled p s key free agreed settled)

  -- The row of a payment that is there.
  pub save_payment-IsSettled :
      (p : Payment) (s s' : Store)
      → save_payment valid_fields p s ≡ ok s'
      → p.pk < s.next_id
      → IsAgreed s p
      → IsSettled s
      → IsSettled s'
  save_payment-IsSettled p s s' h key agreed settled =
      let (_, free, same) = save_payment-ok p s s' h in
      subst IsSettled (sym same) (replaced-IsSettled p s key free agreed settled)
