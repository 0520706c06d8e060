-- ===== src/Users/Permissions/Discounts.antt =====
-- The discount authority of users/permissions.py: what a grant's limits allow.
use internet_ms.Base.{
  ℕ, ◌≡◌, ◌≢◌, ◌⊎◌, inl, inr, false, Option, none, some, ◌++◌, arith, Option-cases, ◌*◌, ◌≤◌, zero,
  suc,
}
use internet_ms.Base.Int.{ℤ, pos, negsuc, ◌*ℤ◌, ◌+ℤ◌, ◌≤ℤ◌, max_ℤ, min_ℤ, int_laws}
use internet_ms.Base.Decimal.{round_half_up}
use internet_ms.Users.PermissionCode
use internet_ms.Users.Models.{Membership, Grant}
use internet_ms.Users.Permissions.{
  permission_grant_for, maximum_discount_for, discount_authorization_error, grant_cap,
  percent_limit, amount_limit, min_or_zero,
}
use internet_ms.Users.Permissions.Boundary.{is_manager}

-- What a discount of `d` cents has to meet: the percentage up to half a cent, the amount exactly,
-- and one of the two limits is configured.
abbrev pub WithinPercent : ℤ → Option ℤ → ℕ → Type 0
WithinPercent gross none d = Unit
WithinPercent gross (some percent) d = pos (10000 * d) ≤ℤ gross *ℤ percent +ℤ pos 5000

abbrev pub WithinAmount : Option ℤ → ℕ → Type 0
WithinAmount none d = Unit
WithinAmount (some amount) d = pos d ≤ℤ amount

-- A positive number of cents below the rounded value is below the value, up to half a cent.
round-le :
    (x : ℤ) (d : ℕ)
    → 1 ≤ d
    → pos d ≤ℤ round_half_up (max_ℤ x (pos 0)) 10000
    → pos (10000 * d) ≤ℤ x +ℤ pos 5000
unfolding round_half_up ◌+ℤ◌
round-le (pos zero) d p h = omega arith
round-le (pos (suc x)) d p h = ground arith
round-le (negsuc x) d p h = ground arith

scale-le : (a : ℤ) (d : ℕ) → pos (10000 * d) ≤ℤ a *ℤ pos 10000 +ℤ pos 5000 → pos d ≤ℤ a
unfolding ◌*ℤ◌ ◌+ℤ◌
scale-le (pos a) d h = ground arith
scale-le (negsuc a) d h = ground arith

add-le : (x y : ℤ) (k : ℕ) → x ≤ℤ y → pos k ≤ℤ x +ℤ pos 5000 → pos k ≤ℤ y +ℤ pos 5000
add-le x y k h p = omega int_laws

min-le_left : (x y : ℤ) → min_ℤ x y ≤ℤ x
min-le_left x y = ground arith

min-le_right : (x y : ℤ) → min_ℤ x y ≤ℤ y
min-le_right x y = ground arith

no_limits : (d : ℕ) → 1 ≤ d → pos d ≤ℤ round_half_up (pos 0) 10000 → ⊥
unfolding round_half_up
no_limits d p h = omega arith

cap_bounds :
    (gross : ℤ) (percent amount : Option ℤ) (d : ℕ)
    → 1 ≤ d
    → pos d
      ≤ℤ round_half_up
          (max_ℤ (min_or_zero (percent_limit gross percent ++ amount_limit amount)) (pos 0))
          10000
    → WithinPercent gross percent d × WithinAmount amount d × ((percent ≢ none) ⊎ (amount ≢ none))
cap_bounds gross none none d p h = absurd (no_limits d p h)
cap_bounds gross (some percent) none d p h = (round-le (gross *ℤ percent) d p h, tt, inl (λ e. cc))
cap_bounds gross none (some amount) d p h =
    (tt, scale-le amount d (round-le (amount *ℤ pos 10000) d p h), inr (λ e. cc))
cap_bounds gross (some percent) (some amount) d p h =
    let x = gross *ℤ percent in
    let y = amount *ℤ pos 10000 in
    let bound = round-le (min_ℤ x y) d p h in
    (
      add-le (min_ℤ x y) x (10000 * d) (min-le_left x y) bound,
      scale-le amount d (add-le (min_ℤ x y) y (10000 * d) (min-le_right x y) bound),
      inl (λ e. cc),
    )

-- A positive discount that is authorized for a member with no manager role is within the cap of the
-- grant that `permission_grant_for` finds.
authorized_cap :
    (m : Membership) (gross : ℤ) (d : ℕ)
    → is_manager m.base_role ≡ false
    → 1 ≤ d
    → discount_authorization_error (some m) gross (pos d) ≡ none
    → pos d
      ≤ℤ grant_cap
          (max_ℤ gross (pos 0))
          (permission_grant_for (some m) PermissionCode.cart_discount_apply)
unfolding discount_authorization_error maximum_discount_for
authorized_cap m gross d role positive h = ground arith

-- A member who is no manager may give a discount of `d` cents, `d` positive, only by a grant
-- for it: the discount is within the grant's percentage of the gross subtotal (up to half a cent),
-- within its amount, and one of the two is configured.
pub authorized_discount_bounds :
    (m : Membership) (gross : ℤ) (d : ℕ)
    → is_manager m.base_role ≡ false
    → 1 ≤ d
    → discount_authorization_error (some m) gross (pos d) ≡ none
    → (g : Grant) × (permission_grant_for (some m) PermissionCode.cart_discount_apply ≡ some g)
      × WithinPercent (max_ℤ gross (pos 0)) g.max_discount_percent d
      × WithinAmount g.max_discount_amount d
      × ((g.max_discount_percent ≢ none) ⊎ (g.max_discount_amount ≢ none))
authorized_discount_bounds m gross d role positive h =
    elim (Option-cases (permission_grant_for (some m) PermissionCode.cart_discount_apply)) [
      | inl missing ↦
          absurd (omega (arith, rw missing at (authorized_cap m gross d role positive h), positive))
      | inr (g, found) ↦
          let bounds =
            cap_bounds (max_ℤ gross (pos 0)) g.max_discount_percent g.max_discount_amount d positive
              (rw found at (authorized_cap m gross d role positive h)) in
          (g, found, bounds.0, bounds.1, bounds.2)
    ]
