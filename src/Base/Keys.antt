-- ===== src/Base/Keys.antt =====
-- Tables with a primary key: no two rows have one key, and every key is below the next.
use Prim.Native.Nat.{ℕ, ◌<◌}
use mathlib.Core.Path.{◌≡◌, refl, sym, ap, ◌∙◌}
use mathlib.Core.Logic.{◌≢◌, inl, inr}
use mathlib.Core.Bool.{Bool, true}
use mathlib.Core.Option.{some}
use mathlib.Core.List.{List, [], ◌∷◌, ◌++◌}
use native.Mathlib.Omega.{arith}
use internet_ms.Base.Tests.{◌==◌, ==_iff, if◌then◌else◌, Bool-cases}
use internet_ms.Base.Lists.{find, update, All, All-map, find-All, some-eq}

module _ {ℓ} {A : Type ℓ} (key : A → ℕ) where
  unfoldable pub Distinct : List A → Type 0
  Distinct [] = Unit
  Distinct (d ∷ ds) = All (λ e. key e ≢ key d) ds × Distinct ds

  abbrev pub Below : ℕ → List A → Type 0
  Below n ds = All (λ d. key d < n) ds

  -- In such a table only one row has the key of a row that is found.
  pub found_unique :
      (q : A → Bool) (ds : List A) (x : A)
      → Distinct ds
      → find q ds ≡ some x
      → All (λ d. (key d == key x) ≡ true → d ≡ x) ds
  unfolding Distinct
  found_unique q [] x h e = tt
  found_unique q (d ∷ ds) x h e = elim (Bool-cases (q d)) [
    | inl found ↦
        let same : d ≡ x = some-eq (rw found at e) in
        (
          λ _. same,
          All-map (λ c. key c ≢ key d) _ ds
              (λ c ne k. absurd (ne ((==_iff (key c) (key x)).0 k ∙ sym (ap key same)))) h.0,
        )
    | inr missing ↦
        let later = rw missing at e in
        (
          λ k.
              absurd (
                find-All (λ c. key c ≢ key d) q ds x h.0 later
                  (sym ((==_iff (key d) (key x)).0 k))),
          found_unique q ds x h.1 later,
        )
  ]

  pub All-update {κ} :
      (P : A → Type κ) (q : A → Bool) (f : A → A) (ds : List A)
      → All (λ d. q d ≡ true → P (f d)) ds
      → All P ds
      → All P (update q f ds)
  All-update P q f [] h p = tt
  All-update P q f (d ∷ ds) h p = elim (Bool-cases (q d)) [
    | inl e ↦ rw e (h.0 e, All-update P q f ds h.1 p.1)
    | inr e ↦ rw e (p.0, All-update P q f ds h.1 p.1)
  ]

  -- An update that keeps the keys keeps the table's keys distinct.
  pub update-Distinct :
      (q : A → Bool) (f : A → A) (ds : List A)
      → All (λ d. q d ≡ true → key (f d) ≡ key d) ds
      → Distinct ds
      → Distinct (update q f ds)
  unfolding Distinct
  update-Distinct q f [] h p = tt
  update-Distinct q f (d ∷ ds) h p =
      let same : key (if q d then f d else d) ≡ key d = elim (Bool-cases (q d)) [
        | inl e ↦ rw e (h.0 e)
        | inr e ↦ rw e refl
      ] in
      (
        rw same (All-update (λ e. key e ≢ key d) q f ds (kept ds h.1 p.0) p.0),
        update-Distinct q f ds h.1 p.1,
      )
    where
      kept :
          (es : List A)
          → All (λ e. q e ≡ true → key (f e) ≡ key e) es
          → All (λ e. key e ≢ key d) es
          → All (λ e. q e ≡ true → key (f e) ≢ key d) es
      kept [] h n = tt
      kept (e ∷ es) h n = ((λ t k. n.0 (sym (h.0 t) ∙ k)), kept es h.1 n.1)

  pub append-Distinct :
      (n : ℕ) (ds : List A) (x : A) → Distinct ds → Below n ds → key x ≡ n → Distinct (ds ++ x ∷ [])
  unfolding Distinct
  append-Distinct n [] x d b e = (tt, tt)
  append-Distinct n (y ∷ ds) x d b e = (append_All ds d.0, append-Distinct n ds x d.1 b.1 e)
    where
      append_All :
          (es : List A) → All (λ c. key c ≢ key y) es → All (λ c. key c ≢ key y) (es ++ x ∷ [])
      append_All [] h = ((λ k. ground arith), tt)
      append_All (c ∷ es) h = (h.0, append_All es h.1)

  -- The row that a test finds is the one that its key finds.
  pub find-key :
      (q : A → Bool) (ds : List A) (x : A)
      → Distinct ds
      → find q ds ≡ some x
      → find (λ d. key d == key x) ds ≡ some x
  unfolding Distinct
  find-key q [] x h e = cc
  find-key q (d ∷ ds) x h e = elim (Bool-cases (q d)) [
    | inl found ↦
        let same : d ≡ x = some-eq (rw found at e) in
        rw ((==_iff (key d) (key x)).1 (ap key same)) (ap some same)
    | inr missing ↦
        let later = rw missing at e in
        let apart = find-All (λ c. key c ≢ key d) q ds x h.0 later in
        elim (Bool-cases (key d == key x)) [
          | inl k ↦ absurd (apart (sym ((==_iff (key d) (key x)).0 k)))
          | inr k ↦ rw k (find-key q ds x h.1 later)
        ]
  ]
