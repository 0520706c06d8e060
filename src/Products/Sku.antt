-- ===== src/Products/Sku.antt =====
-- products/sku.py: the syntax of SKUs. `str.upper` beyond ASCII is a parameter, `upper_wide`.
pub mod Generated
use internet_ms.Base.{
  ℕ, ◌-◌, Bool, true, false, not, ◌&&◌, ◌||◌, Option, none, some, List, [], ◌∷◌, ◌++◌, ◌==◌, ltb,
  leb, length, all, if◌then◌else◌,
}
use internet_ms.Base.Text.{Text, strip, is_empty, text_eq}
use internet_ms.Base.Digits.{is_digit, int_of, lstrip_zeros, pad}
use internet_ms.Base.Result.{Result, ok, err, ◌>>=◌, ◌>>◌, raise_if}

-- The errors of SKUs and of the creation of products.
pub data SkuError : Type 0 where
  suffix_too_large sku_too_long sku_reserved exhausted sku_in_use changed_repeatedly : SkuError
  no_business existing_product foreign_product stocked_product no_permission : SkuError
  invalid_product : SkuError

-- `MAX_NUMBER`
abbrev pub max_number : ℕ
max_number = 9223372036854775806

abbrev pub is_some_text : Option Text → Bool
is_some_text none = false
is_some_text (some _) = true

-- `GENERATED.fullmatch`, with the group: PRD-, then digits.
unfoldable pub generated_suffix : Text → Option Text
generated_suffix (p ∷ r ∷ d ∷ dash ∷ t) =
    if p == 80 && r == 82 && d == 68 && dash == 45 && not (is_empty t) && all is_digit t
    then some t
    else none
generated_suffix _ = none

-- `match[1].lstrip('0') or '0'`
abbrev pub significant : Text → Text
significant t = let rest = lstrip_zeros t in if is_empty rest then 48 ∷ [] else rest

-- The part of `generated_number` after the match.
unfoldable pub suffix_number : Option Text → Result SkuError (Option ℕ)
suffix_number none = ok none
suffix_number (some t) = do
  raise_if (ltb 19 (length (significant t)) || ltb max_number (int_of (significant t)))
      suffix_too_large
  ok (some (int_of (significant t)))

-- `f'PRD-{number:06d}'`
unfoldable pub generated_sku : ℕ → Text
generated_sku number = 80 ∷ 82 ∷ 68 ∷ 45 ∷ pad 6 number

module _ (upper_wide : ℕ → Text) where
  -- `str.upper`
  unfoldable pub upper : Text → Text
  upper [] = []
  upper (c ∷ t) =
      (if ltb c 128 then (if leb 97 c && leb c 122 then c - 32 else c) ∷ [] else upper_wide c)
      ++ upper t

  unfoldable pub generated_number : Text → Result SkuError (Option ℕ)
  unfolding suffix_number generated_suffix upper
  generated_number sku = suffix_number (generated_suffix (upper (strip sku)))

  unfoldable pub validate_manual_sku : Text → Text → Result SkuError Text
  unfolding upper generated_suffix
  validate_manual_sku value existing =
      let given = strip value in
      if is_empty given
      then ok existing
      else if not (is_empty existing) && text_eq (upper given) (upper (strip existing))
      then ok existing
      else do
        raise_if (ltb 64 (length (upper given))) sku_too_long
        raise_if (is_some_text (generated_suffix (upper given))) sku_reserved
        ok (upper given)
