-- ===== src/Billing/Subscriptions/Overlaps.antt =====
-- Overlaps between the periods of a subscription: billing/services.py.
use internet_ms.Base.{
  ℕ, ◌≡◌, ◌∙◌, sym, ap, Bool, true, false, not, ◌&&◌, Option, none, some, List, [], ◌∷◌, ◌++◌, ◌==◌,
  any, find, All, All-append, arith, Option-cases, ◌⊎◌, inl, inr,
}
use internet_ms.Base.Result.{ok, raise_if, or_raise, >>=-eq-ok, raise_if-eq-ok}
use internet_ms.Billing.Calendar.{Date, leb_date, shift_months, first_day_of_month}
use internet_ms.Billing.Subscriptions.{
  BillingPeriod, Promotion, Subscribed, Store, Plan, is_cancelled, is_of_subscription, starts_on,
  overlaps, reopens, planned_row, column_value, reuse, insert_period, place, create_period,
}

-- Two periods of one subscription that share a day, neither cancelled.
abbrev pub clash : BillingPeriod → BillingPeriod → Bool
clash p q =
    is_of_subscription p.organization_id p.subscription_id q
    && leb_date p.period_start q.period_end
    && leb_date q.period_start p.period_end
    && not (is_cancelled p.status)
    && not (is_cancelled q.status)

-- No two periods of a subscription overlap, but for cancelled ones.
unfoldable pub NoOverlap : List BillingPeriod → Type 0
NoOverlap [] = Unit
NoOverlap (p ∷ ps) = All (λ q. clash p q ≡ false) ps × NoOverlap ps

append-NoOverlap :
    (row : BillingPeriod) (ps : List BillingPeriod)
    → NoOverlap ps
    → All (λ p. clash p row ≡ false) ps
    → NoOverlap (ps ++ row ∷ [])
unfolding NoOverlap
append-NoOverlap row [] h n = (tt, tt)
append-NoOverlap row (p ∷ ps) h n = (
  All-append (λ q. clash p q ≡ false) ps (row ∷ []) h.0 (n.0, tt),
  append-NoOverlap row ps h.1 n.1,
)

no_clash :
    (pk organization subscription granted : ℕ) (plan : Plan) (ps : List BillingPeriod)
    → any (overlaps organization subscription plan.period_start plan.period_end) ps ≡ false
    → All (λ p. clash p (planned_row pk organization subscription granted plan) ≡ false) ps
no_clash pk organization subscription granted plan [] h = tt
no_clash pk organization subscription granted plan (p ∷ ps) h = (
  apart p (leb_date p.period_start plan.period_end) (leb_date plan.period_start p.period_end)
      (ground (arith, h)),
  no_clash pk organization subscription granted plan ps (ground (arith, h)),
)
  where
    apart :
        (p : BillingPeriod) (before after : Bool)
        → (is_of_subscription organization subscription p
            && before
            && after
            && not (is_cancelled p.status))
          ≡ false
        → ((organization == p.organization_id && subscription == p.subscription_id)
            && before
            && after
            && not (is_cancelled p.status)
            && true)
          ≡ false
    apart p before after free = ground (arith, free)

insert_period-NoOverlap :
    (organization subscription : ℕ) (plan : Plan) (s : Store) (row : BillingPeriod) (s' : Store)
    → insert_period organization subscription plan s ≡ ok (row, s')
    → NoOverlap s.periods
    → NoOverlap s'.periods
unfolding insert_period
insert_period-NoOverlap organization subscription plan s row s' h apart =
    let (_, free, h1) =
      >>=-eq-ok
        (raise_if
          (any (overlaps organization subscription plan.period_start plan.period_end) s.periods) _)
        _ _ h in
    let (granted, _, h2) = >>=-eq-ok (or_raise (column_value plan.amount.free_months) _) _ _ h1 in
    let new = planned_row s.next_id organization subscription granted plan in
    let same : s.periods ++ new ∷ [] ≡ s'.periods = cc in
    rw (sym same) (
      append-NoOverlap new s.periods apart (
        no_clash s.next_id organization subscription granted plan s.periods
          (raise_if-eq-ok _ _ free)))

reuse-same :
    (organization : ℕ) (plan : Plan) (x : BillingPeriod) (s : Store) (row : BillingPeriod)
    (s' : Store)
    → reopens s organization x ≡ false
    → reuse organization plan x s ≡ ok (row, s')
    → s.periods ≡ s'.periods
unfolding reuse
reuse-same organization plan x s row s' stays h =
    let kept : ok (x, s) ≡ ok (row, s') = rw stays at h in cc

-- Creating a period keeps a subscription's periods from overlapping, unless it opens a cancelled period, or one
-- whose invoice is void, again.
pub create_period-NoOverlap :
    (organization : ℕ) (subscription : Subscribed) (start : Date) (extra : ℕ)
    (promotion : Option Promotion) (s : Store) (row : BillingPeriod) (s' : Store)
    → create_period organization subscription start extra promotion s ≡ ok (row, s')
    → ((x : BillingPeriod)
        → find (starts_on organization subscription.pk (first_day_of_month start)) s.periods
          ≡ some x
        → reopens s organization x ≡ false)
    → NoOverlap s.periods
    → NoOverlap s'.periods
unfolding create_period
create_period-NoOverlap organization subscription start extra promotion s row s' h stays apart =
    let (_, _, h1) =
      >>=-eq-ok (raise_if (not (subscription.organization_id == organization)) _) _ _ h in
    let (until, _, h2) =
      >>=-eq-ok (or_raise (shift_months (first_day_of_month start) _) _) _ _ h1 in
    placed _
      (Option-cases
        (find (starts_on organization subscription.pk (first_day_of_month start)) s.periods))
      h2
  where
    placed :
        (plan : Plan)
        → (find (starts_on organization subscription.pk (first_day_of_month start)) s.periods
            ≡ none)
          ⊎ ((x : BillingPeriod) × (find
                  (starts_on organization subscription.pk (first_day_of_month start))
                  s.periods
                ≡ some x))
        → place organization subscription.pk plan s
            (find (starts_on organization subscription.pk (first_day_of_month start)) s.periods)
          ≡ ok (row, s')
        → NoOverlap s'.periods
    placed plan (inl missing) done =
        insert_period-NoOverlap organization subscription.pk plan s row s'
          (ap (place organization subscription.pk plan s) (sym missing) ∙ done) apart
    placed plan (inr (x, found)) done =
        let same =
          reuse-same organization plan x s row s' (stays x found)
            (ap (place organization subscription.pk plan s) (sym found) ∙ done) in
        rw (sym same) apart
