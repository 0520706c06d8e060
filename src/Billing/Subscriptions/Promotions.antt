-- ===== src/Billing/Subscriptions/Promotions.antt =====
-- `best_package_promotion` of billing/services.py. The value of a promotion is in hundredths of a cent, in which
-- a fee times a number of free months is exact.
use internet_ms.Base.{
  ℕ, ◌≡◌, refl, sym, ap, subst, Bool, true, false, not, ◌&&◌, ◌||◌, Option, none, some, List, [],
  ◌∷◌, ◌==◌, ltb, filter, All, All-filter, if◌then◌else◌, arith, Bool-cases, inl, inr,
}
use internet_ms.Base.Int.{ℤ, pos, ◌≤ℤ◌, ◌*ℤ◌, ltb_ℤ}
use internet_ms.Billing.Calendar.{Date}
use internet_ms.Billing.Subscriptions.{Promotion, RewardType, is_valid_for, percentage}

abbrev pub is_for_package : ℕ → Option ℕ → Bool
is_for_package plan none = true
is_for_package plan (some key) = key == plan

-- The query of the candidates.
abbrev pub is_candidate : ℕ → ℕ → Promotion → Bool
is_candidate organization plan p =
    p.organization_id == organization
    && p.is_active
    && p.for_package
    && is_for_package plan p.package_id

-- What the loop does not pass over.
abbrev pub qualifies : Date → ℕ → ℤ → Promotion → Bool
qualifies when months amount p =
    is_valid_for p when && not (ltb months p.minimum_months || ltb_ℤ amount p.minimum_amount)

abbrev pub reward : ℤ → ℤ → RewardType → ℤ → ℤ
reward amount monthly_fee RewardType.percent value = percentage amount value *ℤ pos 100
reward amount monthly_fee RewardType.fixed value = value *ℤ pos 100
reward amount monthly_fee RewardType.free_months value = monthly_fee *ℤ value
reward amount monthly_fee RewardType.wholesale_price value = pos 0

unfoldable pub promotion_value : ℤ → ℤ → Promotion → ℤ
promotion_value amount monthly_fee p = reward amount monthly_fee p.reward_type p.reward_value

module _ (when : Date) (months : ℕ) (amount monthly_fee : ℤ) where
  -- The loop, with the best promotion so far and its value.
  unfoldable pub choose : Option Promotion → ℤ → List Promotion → Option Promotion
  unfolding is_valid_for promotion_value
  choose best best_value [] = best
  choose best best_value (p ∷ ps) =
      let value = promotion_value amount monthly_fee p in
      let better = qualifies when months amount p && ltb_ℤ best_value value in
      choose (if better then some p else best) (if better then value else best_value) ps

  unfoldable pub best_package_promotion : ℕ → ℕ → List Promotion → Option Promotion
  unfolding choose
  best_package_promotion organization plan promotions =
      choose none (pos 0) (filter (is_candidate organization plan) promotions)

  -- No promotion is worth nothing.
  abbrev pub value_or_zero : Option Promotion → ℤ
  value_or_zero none = pos 0
  value_or_zero (some p) = promotion_value amount monthly_fee p

  abbrev pub IsChoice : ℕ → ℕ → Option Promotion → Type 0
  IsChoice organization plan none = Unit
  IsChoice organization plan (some p) =
      (is_candidate organization plan p ≡ true) × (qualifies when months amount p ≡ true)

  -- Nothing that qualifies is worth more than `r`.
  abbrev pub IsMost : List Promotion → Option Promotion → Type 0
  IsMost ps r =
      All
        (λ q.
          qualifies when months amount q ≡ true
          → promotion_value amount monthly_fee q ≤ℤ value_or_zero r)
        ps

  choose-step :
      (best : Option Promotion) (best_value : ℤ) (p : Promotion) (ps : List Promotion) (b : Bool)
      → (qualifies when months amount p && ltb_ℤ best_value (promotion_value amount monthly_fee p))
        ≡ b
      → choose best best_value (p ∷ ps)
        ≡ choose
            (if b then some p else best)
            (if b then promotion_value amount monthly_fee p else best_value)
            ps
  unfolding choose
  choose-step best best_value p ps b e =
      ap
        (λ t.
          choose (if t then some p else best)
            (if t then promotion_value amount monthly_fee p else best_value) ps)
        e

  choose-IsMost :
      (best : Option Promotion) (best_value : ℤ) (ps : List Promotion)
      → value_or_zero best ≡ best_value
      → (best_value ≤ℤ value_or_zero (choose best best_value ps))
        × IsMost ps (choose best best_value ps)
  unfolding choose
  choose-IsMost best best_value [] h = (rw h (omega arith), tt)
  choose-IsMost best best_value (p ∷ ps) h =
      let value = promotion_value amount monthly_fee p in
      elim (Bool-cases (qualifies when months amount p && ltb_ℤ best_value value)) [
        | inl e ↦
            let (above, rest) = choose-IsMost (some p) value ps refl in
            let less : ltb_ℤ best_value value ≡ true = ground (arith, e) in
            subst (λ r. (best_value ≤ℤ value_or_zero r) × IsMost (p ∷ ps) r)
              (sym (choose-step best best_value p ps true e))
              (ground (arith, above, less), ((λ _. above), rest))
        | inr e ↦
            let (above, rest) = choose-IsMost best best_value ps h in
            subst (λ r. (best_value ≤ℤ value_or_zero r) × IsMost (p ∷ ps) r)
              (sym (choose-step best best_value p ps false e))
              (
                above,
                (
                  (λ q.
                      not_more value (value_or_zero (choose best best_value ps)) best_value
                        (ground (arith, q, e)) above),
                  rest,
                ),
              )
      ]
    where
      not_more : (a b c : ℤ) → ltb_ℤ c a ≡ false → c ≤ℤ b → a ≤ℤ b
      not_more a b c h k = ground (arith, h, k)

  choose-IsChoice :
      (organization plan : ℕ) (best : Option Promotion) (best_value : ℤ) (ps : List Promotion)
      → IsChoice organization plan best
      → All (λ p. is_candidate organization plan p ≡ true) ps
      → IsChoice organization plan (choose best best_value ps)
  unfolding choose
  choose-IsChoice organization plan best best_value [] h c = h
  choose-IsChoice organization plan best best_value (p ∷ ps) h c =
      let value = promotion_value amount monthly_fee p in
      elim (Bool-cases (qualifies when months amount p && ltb_ℤ best_value value)) [
        | inl e ↦
            rw e (choose-IsChoice organization plan (some p) value ps (c.0, ground (arith, e)) c.1)
        | inr e ↦ rw e (choose-IsChoice organization plan best best_value ps h c.1)
      ]

  -- The promotion that is chosen, if there is one, is a candidate for the package that is valid on the day and
  -- whose minimums are met, and no such candidate is worth more; where none is chosen, none is worth more than
  -- nothing.
  pub best_promotion_is_best :
      (organization plan : ℕ) (promotions : List Promotion)
      → let best = best_package_promotion organization plan promotions in
        IsChoice organization plan best
        × IsMost (filter (is_candidate organization plan) promotions) best
  unfolding best_package_promotion
  best_promotion_is_best organization plan promotions =
      let candidates = filter (is_candidate organization plan) promotions in
      (
        choose-IsChoice organization plan none (pos 0) candidates tt (
            All-filter (λ p. is_candidate organization plan p ≡ true)
              (is_candidate organization plan) promotions (λ p h. h)),
        (choose-IsMost none (pos 0) candidates refl).1,
      )
