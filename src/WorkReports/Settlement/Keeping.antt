-- ===== src/WorkReports/Settlement/Keeping.antt =====
-- What a call keeps of the table of payments, and the parts of a call: work_reports/services.py.
use internet_ms.Base.{
  ◌≤◌, ◌<◌, ◌≡◌, ◌∙◌, refl, ap, subst, Bool, true, Option, none, some, find, All-map, Distinct,
  find-key, arith, Bool-cases, inl, inr,
}
use internet_ms.Base.Text.{Text}
use internet_ms.Base.Result.{ok}
use internet_ms.Users.Models.{Membership}
use internet_ms.WorkReports.PaymentRows.{Payment, PaymentEvent, PaymentStatus}
use internet_ms.WorkReports.Models.{Report, Store, is_approved}
use internet_ms.WorkReports.PaymentChecks.{payment_history}
use internet_ms.WorkReports.Payments.{
  insert_payment, save_payment, log_replaced, log_adjusted, differs,
}
use internet_ms.WorkReports.Settlement.{IsAgreed, IsSettled}
use internet_ms.WorkReports.Settlement.Primitives.{
  insert_payment-ok, save_payment-ok, insert_payment-IsSettled, save_payment-IsSettled,
}

-- The reports stay, and a settled table stays settled.
pub record Keeps (s s' : Store) : Type 0 where
  pub reports : s'.reports ≡ s.reports
  pub next : s.next_id ≤ s'.next_id
  pub settled : IsSettled s → IsSettled s'

pub Keeps-here : (s : Store) → Keeps s s
Keeps-here s = record { reports = refl; next = omega arith; settled = λ h. h }

pub Keeps-then : (s t u : Store) → Keeps s t → Keeps t u → Keeps s u
Keeps-then s t u a b = record {
  reports = b.reports ∙ a.reports;
  next = omega (arith, a.next, b.next);
  settled = λ h. b.settled (a.settled h);
}

-- A call that leaves payments and reports alone.
pub same_rows :
    (s s' : Store)
    → s'.reports ≡ s.reports
    → s'.payments ≡ s.payments
    → s.next_id ≤ s'.next_id
    → Keeps s s'
same_rows s s' reports payments next = record {
  reports = reports;
  next = next;
  settled = λ h. record {
    distinct = rw payments h.distinct;
    below = rw payments (All-map _ _ s.payments (λ p b. omega (arith, b, next)) h.below);
    one_active = rw payments h.one_active;
    agreed = rw (payments, reports) h.agreed;
  };
}

pub payment_history-Keeps :
    (p : Payment) (m : Membership) (event : PaymentEvent) (from : Option PaymentStatus)
    (reason : Text) (s s' : Store)
    → payment_history p m event from reason s ≡ ok s'
    → Keeps s s'
unfolding payment_history
payment_history-Keeps p m event from reason s s' h =
    same_rows s s' (ground arith) (ground arith) (ground arith)

pub log_replaced-Keeps :
    (p : Payment) (m : Membership) (old : Option Payment) (s s' : Store)
    → log_replaced p m old s ≡ ok s'
    → Keeps s s'
log_replaced-Keeps p m none s s' h = subst (Keeps s) (cc) (Keeps-here s)
log_replaced-Keeps p m (some old) s s' h =
    payment_history-Keeps p m PaymentEvent.replaced (some PaymentStatus.voided)
      old.lifecycle.void_reason s s' h

pub log_adjusted-Keeps :
    (p : Payment) (m : Membership) (reason : Text) (s s' : Store)
    → log_adjusted p m reason s ≡ ok s'
    → Keeps s s'
log_adjusted-Keeps p m reason s s' h = elim (Bool-cases (differs p)) [
  | inl e ↦
      payment_history-Keeps p m PaymentEvent.adjustment_approved (some p.lifecycle.status) reason s
        s' (rw e at h)
  | inr e ↦ let kept : ok s ≡ ok s' = rw e at h in subst (Keeps s) (cc) (Keeps-here s)
]

-- An approved report that a query finds is the one that a payment of it names.
pub found_report_terms :
    (q : Report → Bool) (s : Store) (r : Report) (p : Payment)
    → Distinct (λ x. x.pk) s.reports
    → find q s.reports ≡ some r
    → is_approved r.status ≡ true
    → p.report_id ≡ r.pk
    → p.agreed_amount_snapshot ≡ r.details.agreed_amount
    → IsAgreed s p
found_report_terms q s r p distinct found approved key amount =
    (r, rw key (find-key (λ x. x.pk) q s.reports r distinct found), ground arith, amount)

module _ (valid_fields : Payment → Bool) where
  pub insert_payment-Keeps :
      (p : Payment) (s s' : Store)
      → insert_payment valid_fields p s ≡ ok s'
      → p.pk ≡ s.next_id
      → IsAgreed s p
      → Keeps s s'
  insert_payment-Keeps p s s' h key agreed =
      let same = (insert_payment-ok valid_fields p s s' h).2 in
      record {
        reports = ap (λ x. x.reports) same;
        next = rw (ap (λ x. x.next_id) same) (omega arith);
        settled = insert_payment-IsSettled valid_fields p s s' h key agreed;
      }

  pub save_payment-Keeps :
      (p : Payment) (s s' : Store)
      → save_payment valid_fields p s ≡ ok s'
      → p.pk < s.next_id
      → IsAgreed s p
      → Keeps s s'
  save_payment-Keeps p s s' h key agreed =
      let same = (save_payment-ok valid_fields p s s' h).2 in
      record {
        reports = ap (λ x. x.reports) same;
        next = rw (ap (λ x. x.next_id) same) (omega arith);
        settled = save_payment-IsSettled valid_fields p s s' h key agreed;
      }
