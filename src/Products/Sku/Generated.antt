-- ===== src/Products/Sku/Generated.antt =====
-- The SKUs of allocated numbers: products/sku.py.
use internet_ms.Base.{
  ℕ, suc, zero, ◌+◌, ◌-◌, ◌*◌, ◌≤◌, ◌<◌, ◌≡◌, ◌∙◌, refl, ap, true, false, not, ◌&&◌, ◌||◌, some, [],
  ◌∷◌, ◌==◌, ltb, leb, length, all, if◌then◌else◌, arith, Bool-cases, inl, inr,
}
use internet_ms.Base.Text.{Text, strip, strip-solid, is_empty, is_space}
use internet_ms.Base.Digits.{
  is_digit, int_of, int_from, lstrip_zeros, pad, pad-all, pad_filled, int_of-pad,
}
use internet_ms.Base.Result.{ok, err}
use internet_ms.Products.Sku.{
  SkuError, sku_reserved, sku_too_long, max_number, generated_suffix, significant, is_some_text,
  suffix_number, generated_sku, upper, generated_number, validate_manual_sku,
}

pow10 : ℕ → ℕ
pow10 zero = 1
pow10 (suc k) = 10 * pow10 k

pow10_positive : (k : ℕ) → 1 ≤ pow10 k
unfolding pow10
pow10_positive zero = omega arith
pow10_positive (suc k) = omega (arith, pow10_positive k)

pow10_below : (j k : ℕ) → pow10 j < pow10 k → j < k
unfolding pow10
pow10_below j zero h = absurd (omega (arith, pow10_positive j, h))
pow10_below zero (suc k) h = omega arith
pow10_below (suc j) (suc k) h = omega (arith, pow10_below j k (omega (arith, h)))

-- A number with `j` digits in front of `t` has at least `j + length t` digits.
length-int_from :
    (k j acc : ℕ) (t : Text) → pow10 j ≤ acc → int_from acc t < pow10 k → j + length t < k
unfolding int_from pow10
length-int_from k j acc [] h b = omega (arith, pow10_below j k (omega (arith, h, b)))
length-int_from k j acc (c ∷ t) h b =
    omega (arith, length-int_from k (suc j) (acc * 10 + (c - 48)) t (omega (arith, h)) b)

length-lstrip_zeros :
    (k : ℕ) (t : Text) → all is_digit t ≡ true → int_of t < pow10 k → length (lstrip_zeros t) ≤ k
unfolding int_from pow10
length-lstrip_zeros k [] d b = omega arith
length-lstrip_zeros k (c ∷ t) d b = elim (Bool-cases (c == 48)) [
  | inl e ↦
      let is_zero : c ≡ 48 = ground arith in
      rw e (length-lstrip_zeros k t (ground arith) (rw is_zero at b))
  | inr e ↦
      let digit : 1 ≤ c - 48 = ground (arith, d) in
      rw e (omega (arith, length-int_from k 0 (0 * 10 + (c - 48)) t (omega (arith, digit)) b))
]

int_of-lstrip_zeros : (t : Text) → int_of (lstrip_zeros t) ≡ int_of t
unfolding int_from
int_of-lstrip_zeros [] = refl
int_of-lstrip_zeros (c ∷ t) = elim (Bool-cases (c == 48)) [
  | inl e ↦ let is_zero : c ≡ 48 = ground arith in rw (e, is_zero) (int_of-lstrip_zeros t)
  | inr e ↦ rw e refl
]

int_of-significant : (t : Text) → int_of (significant t) ≡ int_of t
unfolding int_from
int_of-significant t = filled (lstrip_zeros t) ∙ int_of-lstrip_zeros t
  where
    filled : (u : Text) → int_of (if is_empty u then 48 ∷ [] else u) ≡ int_of u
    filled [] = refl
    filled (c ∷ u) = refl

length-significant :
    (k : ℕ) (t : Text)
    → all is_digit t ≡ true
    → int_of t < pow10 (suc k)
    → length (significant t) ≤ suc k
length-significant k t d b = filled (lstrip_zeros t) (length-lstrip_zeros (suc k) t d b)
  where
    filled : (u : Text) → length u ≤ suc k → length (if is_empty u then 48 ∷ [] else u) ≤ suc k
    filled [] h = omega arith
    filled (c ∷ u) h = h

-- The number of a suffix of digits that is not too large is read.
suffix_number-ok :
    (t : Text)
    → all is_digit t ≡ true
    → int_of t ≤ max_number
    → suffix_number (some t) ≡ ok (some (int_of t))
unfolding suffix_number pow10
suffix_number-ok t d h =
    let value = int_of-significant t in
    let short = length-significant 18 t d (omega (arith, h)) in
    let small : (ltb 19 (length (significant t)) || ltb max_number (int_of (significant t)))
        ≡ false =
      ground (arith, short, value, h) in
    rw (small, value) refl

digit-solid : (t : Text) → all is_digit t ≡ true → all (λ c. not (is_space c)) t ≡ true
digit-solid [] h = refl
digit-solid (c ∷ t) h = ground (arith, h, digit-solid t)

generated_suffix-generated_sku : (n : ℕ) → generated_suffix (generated_sku n) ≡ some (pad 6 n)
unfolding generated_suffix generated_sku
generated_suffix-generated_sku n = rw (pad_filled 6 n, pad-all 6 n) refl

strip-generated_sku : (n : ℕ) → strip (generated_sku n) ≡ generated_sku n
unfolding generated_sku
strip-generated_sku n =
    strip-solid (80 ∷ 82 ∷ 68 ∷ 45 ∷ pad 6 n) (digit-solid (pad 6 n) (pad-all 6 n))

pub is_empty-generated_sku : (n : ℕ) → is_empty (generated_sku n) ≡ false
unfolding generated_sku
is_empty-generated_sku n = refl

module _ (upper_wide : ℕ → Text) where
  upper-digits : (t : Text) → all is_digit t ≡ true → upper upper_wide t ≡ t
  unfolding upper
  upper-digits [] h = refl
  upper-digits (c ∷ t) h =
      let small : ltb c 128 ≡ true = ground (arith, h) in
      let no_letter : (leb 97 c && leb c 122) ≡ false = ground (arith, h) in
      rw (small, no_letter) (ap (λ u. c ∷ u) (upper-digits t (ground (arith, h))))

  upper-generated_sku : (n : ℕ) → upper upper_wide (generated_sku n) ≡ generated_sku n
  unfolding upper generated_sku
  upper-generated_sku n = ap (λ t. 80 ∷ 82 ∷ 68 ∷ 45 ∷ t) (upper-digits (pad 6 n) (pad-all 6 n))

  -- What normalizes to an allocated SKU has its number.
  pub normal-generated_number :
      (t : Text) (n : ℕ)
      → upper upper_wide (strip t) ≡ generated_sku n
      → n ≤ max_number
      → generated_number upper_wide t ≡ ok (some n)
  unfolding generated_number
  normal-generated_number t n normal h =
      let value = int_of-pad 6 n in
      ap (λ u. suffix_number (generated_suffix u)) normal
      ∙ ap suffix_number (generated_suffix-generated_sku n)
      ∙ suffix_number-ok (pad 6 n) (pad-all 6 n) (rw value h)
      ∙ ap (λ x. ok (some x)) value

  -- An allocated SKU is in normal form.
  pub normal_sku : (n : ℕ) → upper upper_wide (strip (generated_sku n)) ≡ generated_sku n
  normal_sku n = ap (upper upper_wide) (strip-generated_sku n) ∙ upper-generated_sku n

  reserved :
      (n : ℕ) → (e : SkuError) × (validate_manual_sku upper_wide (generated_sku n) [] ≡ err e)
  unfolding validate_manual_sku
  reserved n =
      let filled : is_empty (generated_sku n) ≡ false = is_empty-generated_sku n in
      let suffix : is_some_text (generated_suffix (generated_sku n)) ≡ true =
        ap is_some_text (generated_suffix-generated_sku n) in
      elim (Bool-cases (ltb 64 (length (generated_sku n)))) [
        | inl long ↦
            (sku_too_long, rw (strip-generated_sku n, upper-generated_sku n, filled, long) refl)
        | inr short ↦ (
          sku_reserved,
          rw (strip-generated_sku n, upper-generated_sku n, filled, short, suffix) refl,
        )
      ]

  -- The number of an allocated SKU is read back from it, and no user can enter the SKU of a new product.
  pub generated_number-generated_sku :
      (n : ℕ)
      → n ≤ max_number
      → (generated_number upper_wide (generated_sku n) ≡ ok (some n))
        × ((e : SkuError) × (validate_manual_sku upper_wide (generated_sku n) [] ≡ err e))
  generated_number-generated_sku n h =
      (normal-generated_number (generated_sku n) n (normal_sku n) h, reserved n)
