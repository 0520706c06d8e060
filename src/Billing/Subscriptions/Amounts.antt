-- ===== src/Billing/Subscriptions/Amounts.antt =====
-- What a billing period costs: billing/services.py.
use internet_ms.Base.{ℕ, ◌*◌, ◌≡◌, ◌∙◌, refl, ap, Option, none, some, arith, Bool-cases, inl, inr}
use internet_ms.Base.Int.{ℤ, pos, negsuc, ◌≤ℤ◌, ◌-ℤ◌, ◌*ℤ◌, max_ℤ}
use internet_ms.Base.Decimal.{round_half_even}
use internet_ms.Billing.Calendar.{Date}
use internet_ms.Billing.Subscriptions.{
  Promotion, RewardType, Subscribed, discount_of, with_promotion, is_valid_option, is_valid_for,
  calculate_period_amount,
}

times_pos : (a b : ℕ) → (pos a *ℤ pos b) ≡ pos (a * b)
unfolding ◌*ℤ◌
times_pos a b = ground arith

rounded_positive : (n d : ℕ) → pos 0 ≤ℤ round_half_even (pos n) d
unfolding round_half_even
rounded_positive n d = omega arith

discount_positive : (n : ℕ) (t : RewardType) (v : ℕ) → pos 0 ≤ℤ discount_of (pos n) t (pos v)
discount_positive n RewardType.percent v = rw (times_pos n v) (rounded_positive (n * v) 10000)
discount_positive n RewardType.fixed v = ground arith
discount_positive n RewardType.free_months v = omega arith
discount_positive n RewardType.wholesale_price v = omega arith

reward_discount : (n : ℕ) (t : RewardType) (v : ℤ) → pos 0 ≤ℤ v → pos 0 ≤ℤ discount_of (pos n) t v
reward_discount n t (pos v) h = discount_positive n t v
reward_discount n t (negsuc v) h = absurd (omega (arith, h))

final_bounds :
    (n : ℕ) (d : ℤ)
    → pos 0 ≤ℤ d
    → (pos 0 ≤ℤ max_ℤ (pos n -ℤ d) (pos 0)) × (max_ℤ (pos n -ℤ d) (pos 0) ≤ℤ pos n)
unfolding ◌-ℤ◌
final_bounds n (pos d) h = (ground arith, ground arith)
final_bounds n (negsuc d) h = absurd (omega (arith, h))

-- The reward, if there is one, is zero or more.
abbrev pub IsReward : Option Promotion → Type 0
IsReward none = Unit
IsReward (some p) = pos 0 ≤ℤ p.reward_value

valid_IsReward :
    (o : Option Promotion) (when : Date) → IsReward o → IsReward (is_valid_option o when)
valid_IsReward none when h = tt
valid_IsReward (some p) when h = elim (Bool-cases (is_valid_for p when)) [
  | inl valid ↦ rw valid h
  | inr over ↦ rw over tt
]

-- Where the monthly fee and the promotion's reward are zero or more, a period's original amount is the fee times the months, the discount is
-- zero or more, and the final amount lies between zero and the original.
pub amount_bounds :
    (subscription : Subscribed) (fee months : ℕ) (promotion : Option Promotion) (when : Date)
    → subscription.monthly_fee_at_signup ≡ pos fee
    → IsReward promotion
    → let a = calculate_period_amount subscription months promotion when in
      (a.original ≡ pos (fee * months))
      × (pos 0 ≤ℤ a.discount)
      × (pos 0 ≤ℤ a.final)
      × (a.final ≤ℤ a.original)
unfolding calculate_period_amount
amount_bounds subscription fee months promotion when h reward =
    let original : (subscription.monthly_fee_at_signup *ℤ pos months) ≡ pos (fee * months) =
      ap (λ x. x *ℤ pos months) h ∙ times_pos fee months in
    rw original (
      bounds (fee * months) (is_valid_option promotion when) (valid_IsReward promotion when reward))
  where
    bounds :
        (n : ℕ) (o : Option Promotion)
        → IsReward o
        → let a = with_promotion (pos n) o in
          (a.original ≡ pos n)
          × (pos 0 ≤ℤ a.discount)
          × (pos 0 ≤ℤ a.final)
          × (a.final ≤ℤ a.original)
    bounds n none h = (refl, omega arith, ground arith, ground arith)
    bounds n (some p) h =
        let d = reward_discount n p.reward_type p.reward_value h in
        let both = final_bounds n (discount_of (pos n) p.reward_type p.reward_value) d in
        (refl, d, both.0, both.1)
