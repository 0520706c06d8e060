-- ===== src/Billing/Ledger/Sums.antt =====
-- Sums of document totals under the updates of billing/services.py, and tables with distinct keys.
use internet_ms.Base.{
  ◌<◌, ◌≡◌, ◌≢◌, refl, ap, sym, ◌∙◌, All-map, find-All, some-eq, inl, inr, Bool, true, some, List,
  [], ◌∷◌, ◌++◌, arith, ◌==◌, filter, find, update, All, Bool-cases, filter-append, if◌then◌else◌,
  ==_iff,
}
use internet_ms.Base.Int.{pos, ◌+ℤ◌, int_laws}
use internet_ms.Billing.Models.{Document}
use internet_ms.Billing.Ledger.{Ledger, total_sum}

pub total_sum-append : (xs ys : List Document) → total_sum (xs ++ ys) ≡ total_sum xs +ℤ total_sum ys
unfolding total_sum
total_sum-append [] ys = omega int_laws
total_sum-append (d ∷ xs) ys = rw (total_sum-append xs ys) (omega int_laws)

-- The sum over the rows that a test picks, with one row more.
pub total_sum-add :
    (q : Document → Bool) (ds : List Document) (d : Document)
    → total_sum (filter q (ds ++ d ∷ []))
      ≡ total_sum (filter q ds) +ℤ (if q d then d.total else pos 0)
unfolding total_sum
total_sum-add q ds d =
    rw (filter-append q ds (d ∷ []), total_sum-append (filter q ds))
      (elim (Bool-cases (q d)) [ inl e ↦ rw e (omega int_laws) | inr e ↦ rw e (omega int_laws) ])

-- An update that changes neither the test nor the total of the rows that it touches keeps the sum.
pub total_sum-update :
    (q p : Document → Bool) (f : Document → Document) (ds : List Document)
    → All (λ d. p d ≡ true → (q (f d) ≡ q d) × ((f d).total ≡ d.total)) ds
    → total_sum (filter q (update p f ds)) ≡ total_sum (filter q ds)
unfolding total_sum
total_sum-update q p f [] h = refl
total_sum-update q p f (d ∷ ds) h = elim (Bool-cases (p d)) [
  | inl e ↦ rw (e, (h.0 e).0) (ground (arith, total_sum-update q p f ds h.1, (h.0 e).1))
  | inr e ↦ rw e (ground (arith, total_sum-update q p f ds h.1))
]

-- No two documents have one key, and every key is below the next.
unfoldable pub Distinct : List Document → Type 0
Distinct [] = Unit
Distinct (d ∷ ds) = All (λ e. e.pk ≢ d.pk) ds × Distinct ds

pub record IsValid (l : Ledger) : Type 0 where
  pub distinct : Distinct l.documents
  pub below : All (λ d. d.pk < l.next_id) l.documents

-- In a table with distinct keys only one row has the key of a row that is found.
pub found_unique :
    (q : Document → Bool) (ds : List Document) (x : Document)
    → Distinct ds
    → find q ds ≡ some x
    → All (λ d. (d.pk == x.pk) ≡ true → d ≡ x) ds
unfolding Distinct
found_unique q [] x h e = tt
found_unique q (d ∷ ds) x h e = elim (Bool-cases (q d)) [
  | inl found ↦
      let same : d ≡ x = some-eq (rw found at e) in
      (
        λ _. same,
        All-map (λ c. c.pk ≢ d.pk) _ ds
            (λ c ne k. absurd (ne ((==_iff c.pk x.pk).0 k ∙ sym (ap (λ y. y.pk) same)))) h.0,
      )
  | inr missing ↦
      let later = rw missing at e in
      (
        λ k. absurd (find-All (λ c. c.pk ≢ d.pk) q ds x h.0 later (sym ((==_iff d.pk x.pk).0 k))),
        found_unique q ds x h.1 later,
      )
]
