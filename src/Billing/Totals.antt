-- ===== src/Billing/Totals.antt =====
-- billing/services.py, `BillingService.compute_totals`: document totals in exact fractions of a cent,
-- rounded where the code rounds.
use internet_ms.Base.{◌*◌, Bool, not, ◌&&◌, ◌||◌, List, [], ◌∷◌, if◌then◌else◌}
use internet_ms.Base.Int.{ℤ, pos, ◌+ℤ◌, ◌-ℤ◌, ◌*ℤ◌, ltb_ℤ, leb_ℤ, eq_ℤ, pos_part}
use internet_ms.Base.Decimal.{round_half_up}
use internet_ms.Base.Result.{Result, ok, ◌>>◌, raise_if}
use internet_ms.Billing.Errors.{BillingError, negative_tax_rate, credit_discount, discount_range}

-- A stored line: its total in cents, and whether tax applies, which is so for a line with no product
-- and for a product that is tax eligible.
pub record Line : Type 0 where
  pub line_total : ℤ
  pub taxable : Bool

pub record Totals : Type 0 where
  pub subtotal : ℤ
  pub tax_amount : ℤ
  pub total : ℤ

unfoldable pub line_sum : List Line → ℤ
line_sum [] = pos 0
line_sum (l ∷ ls) = l.line_total +ℤ line_sum ls

unfoldable pub taxable_sum : List Line → ℤ
taxable_sum [] = pos 0
taxable_sum (l ∷ ls) = if l.taxable then l.line_total +ℤ taxable_sum ls else taxable_sum ls

-- The taxable amount less its share of the discount is the fraction
-- `taxable * (subtotal - discount) / subtotal`; the rate is in hundredths of a percent.
unfoldable pub tax_on : ℤ → ℤ → ℤ → ℤ → ℤ
tax_on tax_rate subtotal taxable discount =
    if ltb_ℤ (pos 0) subtotal && ltb_ℤ (pos 0) taxable
    then round_half_up (taxable *ℤ (subtotal -ℤ discount) *ℤ tax_rate) (pos_part subtotal * 10000)
    else round_half_up (taxable *ℤ tax_rate) 10000

unfoldable pub compute_totals : ℤ → List Line → ℤ → Result BillingError Totals
compute_totals tax_rate line_items discount_amount = do
  let subtotal = line_sum line_items
  raise_if (ltb_ℤ tax_rate (pos 0)) negative_tax_rate
  raise_if (ltb_ℤ subtotal (pos 0) && not (eq_ℤ discount_amount (pos 0))) credit_discount
  raise_if
      (leb_ℤ (pos 0) subtotal && (ltb_ℤ discount_amount (pos 0) || ltb_ℤ subtotal discount_amount))
      discount_range
  let tax_amount = tax_on tax_rate subtotal (taxable_sum line_items) discount_amount
  ok (record {
    subtotal = subtotal;
    tax_amount = tax_amount;
    total = subtotal -ℤ discount_amount +ℤ tax_amount;
  })
