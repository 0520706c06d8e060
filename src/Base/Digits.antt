-- ===== src/Base/Digits.antt =====
-- Decimal numerals: Python's `str`, `int` and the format `0Nd` on natural numbers.
use Prim.Native.Nat.{ℕ, zero, suc, ◌+◌, ◌-◌, ◌*◌, ◌/◌, ◌%◌, ◌<◌}
use mathlib.Core.Path.{◌≡◌, refl, ap, ◌∙◌, sym}
use mathlib.Core.Bool.{Bool, true, false, ◌&&◌}
use mathlib.Core.Logic.{inl, inr}
use mathlib.Core.List.{[], ◌∷◌, ◌++◌}
use native.Mathlib.Omega.{arith}
use internet_ms.Base.Tests.{leb, ltb, ◌==◌, if◌then◌else◌, Bool-cases}
use internet_ms.Base.Lists.{length, all, all-append}
use internet_ms.Base.Text.{Text, is_empty}

-- The digits of `n`, the fuel above it.
unfoldable pub digits_from : ℕ → ℕ → Text
digits_from zero n = []
digits_from (suc fuel) n = elim (ltb n 10) [
  | true ↦ (48 + n) ∷ []
  | false ↦ digits_from fuel (n / 10) ++ (48 + n % 10) ∷ []
]

-- `str(n)`
unfoldable pub digits : ℕ → Text
unfolding digits_from
digits n = digits_from (suc n) n

abbrev pub zeros : ℕ → Text
zeros zero = []
zeros (suc n) = 48 ∷ zeros n

-- `f"{n:0Nd}"`
unfoldable pub pad : ℕ → ℕ → Text
unfolding digits
pad width n = let t = digits n in zeros (width - length t) ++ t

-- `[0-9]`
abbrev pub is_digit : ℕ → Bool
is_digit c = leb 48 c && leb c 57

-- `int(t)` of a text of digits, after the digits that `acc` stands for.
unfoldable pub int_from : ℕ → Text → ℕ
int_from acc [] = acc
int_from acc (c ∷ t) = int_from (acc * 10 + (c - 48)) t

abbrev pub int_of : Text → ℕ
int_of t = int_from 0 t

-- `t.lstrip("0")`
abbrev pub lstrip_zeros : Text → Text
lstrip_zeros [] = []
lstrip_zeros (c ∷ t) = if c == 48 then lstrip_zeros t else c ∷ t

int_from-append : (acc : ℕ) (s t : Text) → int_from acc (s ++ t) ≡ int_from (int_from acc s) t
unfolding int_from
int_from-append acc [] t = refl
int_from-append acc (c ∷ s) t = int_from-append (acc * 10 + (c - 48)) s t

digits_from-small : (fuel n : ℕ) → ltb n 10 ≡ true → digits_from (suc fuel) n ≡ (48 + n) ∷ []
unfolding digits_from
digits_from-small fuel n h =
    ap
      (λ b. elim b [
        | true ↦ (48 + n) ∷ []
        | false ↦ digits_from fuel (n / 10) ++ (48 + n % 10) ∷ []
      ])
      h

digits_from-large :
    (fuel n : ℕ)
    → ltb n 10 ≡ false
    → digits_from (suc fuel) n ≡ digits_from fuel (n / 10) ++ (48 + n % 10) ∷ []
unfolding digits_from
digits_from-large fuel n h =
    ap
      (λ b. elim b [
        | true ↦ (48 + n) ∷ []
        | false ↦ digits_from fuel (n / 10) ++ (48 + n % 10) ∷ []
      ])
      h

int_of-digits_from : (fuel n : ℕ) → n < fuel → int_of (digits_from fuel n) ≡ n
unfolding int_from
int_of-digits_from zero n h = absurd (omega arith)
int_of-digits_from (suc fuel) n h = elim (Bool-cases (ltb n 10)) [
  | inl small ↦ rw (digits_from-small fuel n small) (omega arith)
  | inr large ↦
      let less : n / 10 < fuel = ground arith in
      rw
        (
          digits_from-large fuel n large,
          int_from-append 0 (digits_from fuel (n / 10)) ((48 + n % 10) ∷ []),
          int_of-digits_from fuel (n / 10) less,
        )
        (omega arith)
]

int_from-zeros : (k : ℕ) (t : Text) → int_from 0 (zeros k ++ t) ≡ int_from 0 t
unfolding int_from
int_from-zeros zero t = refl
int_from-zeros (suc k) t = int_from-zeros k t

-- A padded numeral reads back as its number.
pub int_of-pad : (width n : ℕ) → int_of (pad width n) ≡ n
unfolding pad digits
int_of-pad width n =
    int_from-zeros (width - length (digits n)) (digits n)
    ∙ int_of-digits_from (suc n) n (omega arith)

pub pad_injective : (width a b : ℕ) → pad width a ≡ pad width b → a ≡ b
pad_injective width a b e = sym (int_of-pad width a) ∙ ap int_of e ∙ int_of-pad width b

pub int_of-digits : (n : ℕ) → int_of (digits n) ≡ n
unfolding digits
int_of-digits n = int_of-digits_from (suc n) n (omega arith)

digits_from-all : (fuel n : ℕ) → all is_digit (digits_from fuel n) ≡ true
unfolding digits_from
digits_from-all zero n = refl
digits_from-all (suc fuel) n = elim (Bool-cases (ltb n 10)) [
  | inl small ↦ rw (digits_from-small fuel n small) (ground arith)
  | inr large ↦
      rw
        (
          digits_from-large fuel n large,
          all-append is_digit (digits_from fuel (n / 10)) ((48 + n % 10) ∷ []),
          digits_from-all fuel (n / 10),
        )
        (ground arith)
]

zeros-all : (k : ℕ) → all is_digit (zeros k) ≡ true
zeros-all zero = refl
zeros-all (suc k) = zeros-all k

pub digits-all : (n : ℕ) → all is_digit (digits n) ≡ true
unfolding digits
digits-all n = digits_from-all (suc n) n

pub pad-all : (width n : ℕ) → all is_digit (pad width n) ≡ true
unfolding pad
pad-all width n =
    all-append is_digit (zeros (width - length (digits n))) (digits n)
    ∙ rw (zeros-all (width - length (digits n)), digits-all n) refl

digits_from_filled : (fuel n : ℕ) → is_empty (digits_from (suc fuel) n) ≡ false
digits_from_filled fuel n = elim (Bool-cases (ltb n 10)) [
  | inl small ↦ rw (digits_from-small fuel n small) refl
  | inr large ↦ rw (digits_from-large fuel n large) (filled (digits_from fuel (n / 10)))
]
  where
    filled : (t : Text) → is_empty (t ++ (48 + n % 10) ∷ []) ≡ false
    filled [] = refl
    filled (c ∷ t) = refl

pub pad_filled : (width n : ℕ) → is_empty (pad width n) ≡ false
unfolding pad digits
pad_filled width n = filled (width - length (digits n))
  where
    filled : (k : ℕ) → is_empty (zeros k ++ digits n) ≡ false
    filled zero = digits_from_filled n n
    filled (suc k) = refl
