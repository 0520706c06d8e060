-- ===== src/Billing/Subscriptions.antt =====
-- billing/services.py: `SubscriptionBillingService`, the amounts and the creation of billing periods. Money is
-- in cents, a promotion's reward in hundredths.
pub mod Overlaps
pub mod Amounts
pub mod Promotions
mod Tests
use internet_ms.Base.{
  ℕ, suc, ◌/◌, Bool, true, false, not, ◌&&◌, ◌||◌, Option, none, some, List, [], ◌∷◌, ◌++◌, ◌==◌,
  ltb, leb, any, filter, find, update, if◌then◌else◌,
}
use internet_ms.Base.Int.{ℤ, pos, negsuc, ◌+ℤ◌, ◌-ℤ◌, ◌*ℤ◌, max_ℤ, min_ℤ, neg_ℤ}
use internet_ms.Base.Decimal.{round_half_even}
use internet_ms.Base.Result.{Result, ok, err, ◌>>=◌, ◌>>◌, raise_if, or_raise}
use internet_ms.Users.Models.{same_key}
use internet_ms.Billing.Models.{Document, Status, PeriodStatus, is_invoice}
use internet_ms.Billing.Ledger.{is_receipt_of, is_credit_of}
use internet_ms.Billing.Calendar.{
  Date, leb_date, ltb_date, same_date, shift_months, first_day_of_month, last_day_of_month,
}

-- `Promotion.RewardType`
pub data RewardType : Type 0 where
  percent fixed free_months wholesale_price : RewardType

-- `Promotion`, with `applies_to` as a test.
pub record Promotion : Type 0 where
  pub pk : ℕ
  pub organization_id : ℕ
  pub for_package : Bool
  pub package_id : Option ℕ
  pub minimum_months : ℕ
  pub minimum_amount : ℤ
  pub reward_type : RewardType
  pub reward_value : ℤ
  pub valid_from : Option Date
  pub valid_until : Option Date
  pub is_active : Bool

-- `SubscriptionPeriod`
pub record BillingPeriod : Type 0 where
  pub pk : ℕ
  pub organization_id : ℕ
  pub subscription_id : ℕ
  pub period_start : Date
  pub period_end : Date
  pub months : ℕ
  pub free_months : ℕ
  pub original_amount : ℤ
  pub discount_amount : ℤ
  pub final_amount : ℤ
  pub status : PeriodStatus
  pub invoice_id : Option ℕ
  pub receipt_id : Option ℕ
  pub promotion_id : Option ℕ
  pub paid_at : Option ℕ

-- `CustomerSubscription`, what the creation of periods reads
pub record Subscribed : Type 0 where
  pub pk : ℕ
  pub organization_id : ℕ
  pub monthly_fee_at_signup : ℤ

pub record Store : Type 0 where
  pub documents : List Document
  pub periods : List BillingPeriod
  pub next_id : ℕ

pub data PeriodError : Type 0 where
  cross_tenant date_out_of_range linked_invoice payment_history coverage_overlaps
        negative_free_months :
      PeriodError

abbrev pub before_option : Date → Option Date → Bool
before_option when none = false
before_option when (some d) = ltb_date when d

abbrev pub after_option : Date → Option Date → Bool
after_option when none = false
after_option when (some d) = ltb_date d when

-- `Promotion.is_valid_for`
unfoldable pub is_valid_for : Promotion → Date → Bool
is_valid_for p when =
    p.is_active && not (before_option when p.valid_from) && not (after_option when p.valid_until)

abbrev pub is_valid_option : Option Promotion → Date → Option Promotion
is_valid_option none when = none
is_valid_option (some p) when = if is_valid_for p when then some p else none

-- `int(reward_value)`
abbrev pub whole : ℤ → ℤ
whole (pos value) = pos (value / 100)
whole (negsuc value) = neg_ℤ (pos (suc value / 100))

pub record Amount : Type 0 where
  pub original : ℤ
  pub discount : ℤ
  pub final : ℤ
  pub free_months : ℤ

-- `original * (reward_value / 100)`, rounded to a cent
abbrev pub percentage : ℤ → ℤ → ℤ
percentage amount value = round_half_even (amount *ℤ value) 10000

abbrev pub discount_of : ℤ → RewardType → ℤ → ℤ
discount_of original RewardType.percent value = percentage original value
discount_of original RewardType.fixed value = min_ℤ value original
discount_of original RewardType.free_months value = pos 0
discount_of original RewardType.wholesale_price value = pos 0

abbrev pub free_months_of : RewardType → ℤ → ℤ
free_months_of RewardType.free_months value = whole value
free_months_of _ value = pos 0

abbrev pub with_promotion : ℤ → Option Promotion → Amount
with_promotion original none = record {
  original = original;
  discount = pos 0;
  final = max_ℤ original (pos 0);
  free_months = pos 0;
}
with_promotion original (some p) =
    let discount = discount_of original p.reward_type p.reward_value in
    record {
      original = original;
      discount = discount;
      final = max_ℤ (original -ℤ discount) (pos 0);
      free_months = free_months_of p.reward_type p.reward_value;
    }

unfoldable pub calculate_period_amount : Subscribed → ℕ → Option Promotion → Date → Amount
unfolding is_valid_for
calculate_period_amount subscription months promotion when =
    with_promotion (subscription.monthly_fee_at_signup *ℤ pos months)
      (is_valid_option promotion when)

abbrev pub is_cancelled : PeriodStatus → Bool
is_cancelled PeriodStatus.cancelled = true
is_cancelled _ = false

abbrev pub is_awaiting_payment : PeriodStatus → Bool
is_awaiting_payment PeriodStatus.invoiced = true
is_awaiting_payment PeriodStatus.overdue = true
is_awaiting_payment _ = false

abbrev pub is_void_status : Option Status → Bool
is_void_status (some Status.void) = true
is_void_status _ = false

abbrev pub is_some {ℓ} : {A : Type ℓ} → Option A → Bool
is_some none = false
is_some (some _) = true

abbrev pub is_invoice_with : ℕ → ℕ → Document → Bool
is_invoice_with organization key d =
    d.pk == key && d.organization_id == organization && is_invoice d.document_type

abbrev pub status_of : Option Document → Option Status
status_of none = none
status_of (some d) = some d.status

-- `replaced_status`
abbrev pub replaced_status : Store → ℕ → Option ℕ → Option Status
replaced_status s organization none = none
replaced_status s organization (some invoice) =
    status_of (find (is_invoice_with organization invoice) s.documents)

-- A cancelled period, or one whose invoice is void, is opened again.
abbrev pub reopens : Store → ℕ → BillingPeriod → Bool
reopens s organization x =
    is_cancelled x.status
    || (is_awaiting_payment x.status
        && is_void_status (replaced_status s organization x.invoice_id))

abbrev pub has_receipts : Store → ℕ → Option ℕ → Bool
has_receipts s organization none = false
has_receipts s organization (some invoice) = any (is_receipt_of organization invoice) s.documents

abbrev pub has_credits : Store → ℕ → Option ℕ → Bool
has_credits s organization none = false
has_credits s organization (some invoice) = any (is_credit_of organization invoice) s.documents

abbrev pub promotion_key : Option Promotion → Option ℕ
promotion_key none = none
promotion_key (some p) = some p.pk

abbrev pub is_of_subscription : ℕ → ℕ → BillingPeriod → Bool
is_of_subscription organization subscription x =
    x.organization_id == organization && x.subscription_id == subscription

-- The query of the existing period.
abbrev pub starts_on : ℕ → ℕ → Date → BillingPeriod → Bool
starts_on organization subscription start x =
    is_of_subscription organization subscription x && same_date x.period_start start

-- The query of an overlapping period.
abbrev pub overlaps : ℕ → ℕ → Date → Date → BillingPeriod → Bool
overlaps organization subscription start last x =
    is_of_subscription organization subscription x
    && leb_date x.period_start last
    && leb_date start x.period_end
    && not (is_cancelled x.status)

-- What `create_period` computes before it reads the tables.
pub record Plan : Type 0 where
  pub period_start : Date
  pub period_end : Date
  pub months : ℕ
  pub amount : Amount
  pub promotion_id : Option ℕ

-- The column `free_months`, a `PositiveIntegerField`: the database refuses a negative number.
abbrev pub column_value : ℤ → Option ℕ
column_value (pos months) = some months
column_value (negsuc _) = none

abbrev pub planned_row : ℕ → ℕ → ℕ → ℕ → Plan → BillingPeriod
planned_row pk organization subscription granted plan = record {
  pk = pk;
  organization_id = organization;
  subscription_id = subscription;
  period_start = plan.period_start;
  period_end = plan.period_end;
  months = plan.months;
  free_months = granted;
  original_amount = plan.amount.original;
  discount_amount = plan.amount.discount;
  final_amount = plan.amount.final;
  status = PeriodStatus.pending;
  invoice_id = none;
  receipt_id = none;
  promotion_id = plan.promotion_id;
  paid_at = none;
}

-- The period is already there.
unfoldable pub reuse : ℕ → Plan → BillingPeriod → Store → Result PeriodError (BillingPeriod × Store)
reuse organization plan x s = if not (reopens s organization x) then ok (x, s) else do
  raise_if
      (is_some x.invoice_id && not (is_void_status (replaced_status s organization x.invoice_id)))
      linked_invoice
  raise_if
      (is_some x.receipt_id
        || has_receipts s organization x.invoice_id
        || has_credits s organization x.invoice_id)
      payment_history
  granted ← or_raise (column_value plan.amount.free_months) negative_free_months
  let row : BillingPeriod = record (planned_row x.pk organization x.subscription_id granted plan) {
    period_start = x.period_start;
  }
  ok (row, record s { periods = update (λ y. y.pk == x.pk) (λ _. row) s.periods })

-- The period is new.
unfoldable pub insert_period : ℕ → ℕ → Plan → Store → Result PeriodError (BillingPeriod × Store)
insert_period organization subscription plan s = do
  raise_if (any (overlaps organization subscription plan.period_start plan.period_end) s.periods)
      coverage_overlaps
  granted ← or_raise (column_value plan.amount.free_months) negative_free_months
  let row = planned_row s.next_id organization subscription granted plan
  ok (row, record s { periods = s.periods ++ row ∷ []; next_id = suc s.next_id })

abbrev pub place :
    ℕ → ℕ → Plan → Store → Option BillingPeriod → Result PeriodError (BillingPeriod × Store)
place organization subscription plan s none = insert_period organization subscription plan s
place organization subscription plan s (some x) = reuse organization plan x s

-- `create_period` for `extra + 1` months.
unfoldable pub create_period :
    ℕ
    → Subscribed
    → Date
    → ℕ
    → Option Promotion
    → Store
    → Result PeriodError (BillingPeriod × Store)
unfolding calculate_period_amount shift_months last_day_of_month reuse insert_period
create_period organization subscription period_start extra promotion s = do
  raise_if (not (subscription.organization_id == organization)) cross_tenant
  let start = first_day_of_month period_start
  let amount = calculate_period_amount subscription (suc extra) promotion start
  paid_until_month ←
      or_raise (shift_months start (pos extra +ℤ amount.free_months)) date_out_of_range
  let plan : Plan = record {
    period_start = start;
    period_end = last_day_of_month paid_until_month;
    months = suc extra;
    amount = amount;
    promotion_id = promotion_key promotion;
  }
  place organization subscription.pk plan s
      (find (starts_on organization subscription.pk start) s.periods)
