-- ===== src/Numbering/Search.antt =====
-- The loop that tries one number after the other: inventory/numbering.py. It runs on fuel.
use internet_ms.Base.{
  ℕ, zero, suc, ◌≤◌, ◌<◌, ◌≡◌, ◌∙◌, refl, sym, ap, Bool, true, false, not, Option, none, some,
  some-eq, List, [], ◌∷◌, any, filter, length, arith, Bool-cases, inl, inr, ==_iff, ◌==◌,
}

-- `while True`: the first number from `n` on that is not used.
unfoldable pub first_free : ℕ → ℕ → (ℕ → Bool) → Option ℕ
first_free zero n used = none
first_free (suc fuel) n used = elim (used n) [
  | true ↦ first_free fuel (suc n) used
  | false ↦ some n
]

first_free-used :
    (fuel n : ℕ) (used : ℕ → Bool)
    → used n ≡ true
    → first_free (suc fuel) n used ≡ first_free fuel (suc n) used
unfolding first_free
first_free-used fuel n used e =
    ap (λ b. elim b [ true ↦ first_free fuel (suc n) used | false ↦ some n ]) e

first_free-unused :
    (fuel n : ℕ) (used : ℕ → Bool) → used n ≡ false → first_free (suc fuel) n used ≡ some n
unfolding first_free
first_free-unused fuel n used e =
    ap (λ b. elim b [ true ↦ first_free fuel (suc n) used | false ↦ some n ]) e

-- What the loop returns is not used, and all numbers before it are.
pub first_free-found :
    (fuel n : ℕ) (used : ℕ → Bool) (m : ℕ)
    → first_free fuel n used ≡ some m
    → (n ≤ m) × (used m ≡ false) × ((k : ℕ) → n ≤ k → k < m → used k ≡ true)
unfolding first_free
first_free-found zero n used m h = cc
first_free-found (suc fuel) n used m h = elim (Bool-cases (used n)) [
  | inl e ↦
      let (above, free, before) =
        first_free-found fuel (suc n) used m (sym (first_free-used fuel n used e) ∙ h) in
      (
        omega (arith, above),
        free,
        λ k low high. elim (Bool-cases (k == n)) [
          | inl same ↦ ap used ((==_iff k n).0 same) ∙ e
          | inr other ↦ before k (ground (arith, low, other)) high
        ],
      )
  | inr e ↦
      let same : n ≡ m = some-eq (sym (first_free-unused fuel n used e) ∙ h) in
      (
        omega (arith, same),
        ap used (sym same) ∙ e,
        λ k low high. absurd (omega (arith, same, low, high)),
      )
]

agree :
    (fuel n : ℕ) (p q : ℕ → Bool)
    → ((m : ℕ) → n ≤ m → p m ≡ q m)
    → first_free fuel n p ≡ first_free fuel n q
unfolding first_free
agree zero n p q same = refl
agree (suc fuel) n p q same =
    ap (λ b. elim b [ true ↦ first_free fuel (suc n) p | false ↦ some n ]) (same n (omega arith))
    ∙ ap (λ r. elim (q n) [ true ↦ r | false ↦ some n ])
        (agree fuel (suc n) p q (λ m low. same m (omega (arith, low))))

length-filter_fewer {ℓ} :
    {A : Type ℓ} (p : A → Bool) (xs : List A)
    → any p xs ≡ true
    → length (filter (λ x. not (p x)) xs) < length xs
length-filter_fewer p [] h = cc
length-filter_fewer p (x ∷ xs) h = ground (arith, h, length-filter_fewer p xs, length-filter_le xs)
  where
    length-filter_le : (ys : List _) → length (filter (λ y. not (p y)) ys) ≤ length ys
    length-filter_le [] = omega arith
    length-filter_le (y ∷ ys) = ground (arith, length-filter_le ys)

any-filter {ℓ} :
    {A : Type ℓ} (p q : A → Bool) (xs : List A)
    → ((x : A) → p x ≡ true → q x ≡ true → ◌≡◌ {A = Bool} true false)
    → any q xs ≡ any q (filter (λ x. not (p x)) xs)
any-filter p q [] apart = refl
any-filter p q (x ∷ xs) apart = ground (arith, apart x, any-filter p q xs apart)

-- Where each row uses at most one number, one round more than there are rows finds a free number.
pub first_free-enough {ℓ} :
    {A : Type ℓ} (uses : ℕ → A → Bool)
    → ((m k : ℕ) (x : A) → uses m x ≡ true → uses k x ≡ true → m ≡ k)
    → (fuel n : ℕ) (rows : List A) → length rows < fuel
    → (m : ℕ) × (first_free fuel n (λ k. any (uses k) rows) ≡ some m)
unfolding first_free
first_free-enough uses single zero n rows h = absurd (omega (arith, h))
first_free-enough uses single (suc fuel) n rows h = elim (Bool-cases (any (uses n) rows)) [
  | inl e ↦
      let rest = filter (λ x. not (uses n x)) rows in
      let fewer = length-filter_fewer (uses n) rows e in
      let (m, found) = first_free-enough uses single fuel (suc n) rest (omega (arith, h, fewer)) in
      (
        m,
        first_free-used fuel n (λ k. any (uses k) rows) e
            ∙ agree fuel (suc n) (λ k. any (uses k) rows) (λ k. any (uses k) rest)
                (λ k low.
                  any-filter (uses n) (uses k) rows
                    (λ x a b. absurd (omega (arith, single n k x a b, low))))
            ∙ found,
      )
  | inr e ↦ (n, first_free-unused fuel n (λ k. any (uses k) rows) e)
]
