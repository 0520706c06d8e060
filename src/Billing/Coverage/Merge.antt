-- ===== src/Billing/Coverage/Merge.antt =====
-- What the merged windows cover: billing/services.py, `_merge_paid_coverage_ranges`.
use internet_ms.Base.{
  ℕ, suc, ◌+◌, ◌≤◌, ◌<◌, ◌≡◌, ◌∙◌, refl, ap, Bool, true, false, ◌&&◌, ◌||◌, List, [], ◌∷◌, Option,
  none, some, ltb, leb, any, All, All-map, arith, Bool-cases, inl, inr,
}
use internet_ms.Billing.Models.{Period, Subscription, is_paid_period}
use internet_ms.Billing.Coverage.{
  Window, Range, precedes, insert, sorted_ranges, new_window, extend, merge_from, merge_sorted,
  merge_paid_coverage_ranges, paid_ranges, periods_of, coverage_end, paid_ranges_for_subscription,
  paid_service_coverage,
}

-- Whether a day lies in a window, or in a range.
abbrev pub in_window : ℕ → Window → Bool
in_window day w = leb w.start day && leb day w.end

abbrev pub in_range : ℕ → Range → Bool
in_range day r = leb r.coverage_start day && leb day r.coverage_end

insert-any :
    (p : Range → Bool) (r : Range) (rs : List Range) → any p (insert r rs) ≡ (p r || any p rs)
insert-any p r [] = refl
insert-any p r (x ∷ xs) = ground (arith, insert-any p r xs)

sorted-any : (p : Range → Bool) (rs : List Range) → any p (sorted_ranges rs) ≡ any p rs
unfolding sorted_ranges
sorted-any p [] = refl
sorted-any p (r ∷ rs) = insert-any p r (sorted_ranges rs) ∙ ap (λ b. p r || b) (sorted-any p rs)

-- Every later range starts no earlier.
pub Sorted : List Range → Type 0
Sorted [] = Unit
Sorted (r ∷ rs) = All (λ x. r.coverage_start ≤ x.coverage_start) rs × Sorted rs

insert-All :
    (P : Range → Type 0) (r : Range) (rs : List Range) → P r → All P rs → All P (insert r rs)
insert-All P r [] p h = (p, tt)
insert-All P r (x ∷ xs) p h = elim (Bool-cases (precedes r x)) [
  | inl e ↦ rw e (p, h)
  | inr e ↦ rw e (h.0, insert-All P r xs p h.1)
]

insert-Sorted : (r : Range) (rs : List Range) → Sorted rs → Sorted (insert r rs)
unfolding Sorted
insert-Sorted r [] h = (tt, tt)
insert-Sorted r (x ∷ xs) h = elim (Bool-cases (precedes r x)) [
  | inl e ↦
      let before : r.coverage_start ≤ x.coverage_start = ground arith in
      rw e ((before, All-map _ _ xs (λ y le. omega arith) h.0), h)
  | inr e ↦
      let after : x.coverage_start ≤ r.coverage_start = ground arith in
      rw e (
        insert-All (λ y. x.coverage_start ≤ y.coverage_start) r xs after h.0,
        insert-Sorted r xs h.1,
      )
]

ranges_ordered : (rs : List Range) → Sorted (sorted_ranges rs)
unfolding sorted_ranges Sorted
ranges_ordered [] = tt
ranges_ordered (r ∷ rs) = insert-Sorted r (sorted_ranges rs) (ranges_ordered rs)

-- No window is empty, and between two windows at least one day is not covered.
pub Separated : List Window → Type 0
Separated [] = Unit
Separated (w ∷ ws) = (w.start ≤ w.end) × All (λ v. suc w.end < v.start) ws × Separated ws

merged_covers :
    (day : ℕ) (w : Window) (r : Range)
    → w.start ≤ w.end
    → w.start ≤ r.coverage_start
    → r.coverage_start ≤ r.coverage_end
    → r.coverage_start ≤ w.end + 1
    → in_window day (extend w r) ≡ (in_window day w || in_range day r)
merged_covers day w r a b c d = ground arith

empty_range : (day : ℕ) (r : Range) → r.coverage_end < r.coverage_start → in_range day r ≡ false
empty_range day r h = ground arith

or_assoc : (a b c : Bool) → ((a || b) || c) ≡ (a || (b || c))
or_assoc true b c = refl
or_assoc false b c = refl

merge_from-any :
    (day : ℕ) (w : Window) (rs : List Range)
    → w.start ≤ w.end
    → All (λ r. w.start ≤ r.coverage_start) rs
    → Sorted rs
    → any (in_window day) (merge_from w rs) ≡ (in_window day w || any (in_range day) rs)
unfolding merge_from Sorted
merge_from-any day w [] le h s = refl
merge_from-any day w (r ∷ rs) le h s = elim (Bool-cases (ltb r.coverage_end r.coverage_start)) [
  | inl empty ↦ rw (empty, empty_range day r (ground arith)) (merge_from-any day w rs le h.1 s.1)
  | inr full ↦ elim (Bool-cases (leb r.coverage_start (w.end + 1))) [
    | inl near ↦
        rw (full, near)
          (merge_from-any day (extend w r) rs (ground arith) h.1 s.1
            ∙ ap (λ b. b || any (in_range day) rs)
                (merged_covers day w r le h.0 (ground arith) (ground arith))
            ∙ or_assoc (in_window day w) (in_range day r) (any (in_range day) rs))
    | inr far ↦
        rw (full, far)
          (ap (λ b. in_window day w || b)
            (merge_from-any day (new_window r) rs (ground arith) s.0 s.1))
  ]
]

merge_from-Separated :
    (w : Window) (rs : List Range)
    → w.start ≤ w.end
    → All (λ r. w.start ≤ r.coverage_start) rs
    → Sorted rs
    → Separated (merge_from w rs) × All (λ v. w.start ≤ v.start) (merge_from w rs)
unfolding merge_from Separated Sorted
merge_from-Separated w [] le h s = ((le, tt, tt), (omega arith, tt))
merge_from-Separated w (r ∷ rs) le h s = elim (Bool-cases (ltb r.coverage_end r.coverage_start)) [
  | inl empty ↦ rw empty (merge_from-Separated w rs le h.1 s.1)
  | inr full ↦ elim (Bool-cases (leb r.coverage_start (w.end + 1))) [
    | inl near ↦ rw (full, near) (merge_from-Separated (extend w r) rs (ground arith) h.1 s.1)
    | inr far ↦
        let later = merge_from-Separated (new_window r) rs (ground arith) s.0 s.1 in
        let gap : suc w.end < r.coverage_start = ground arith in
        rw (full, far)
          (
            (le, All-map _ _ (merge_from (new_window r) rs) (λ v x. omega arith) later.1, later.0),
            (omega arith, All-map _ _ (merge_from (new_window r) rs) (λ v x. omega arith) later.1),
          )
  ]
]

merge_sorted-any :
    (day : ℕ) (rs : List Range)
    → Sorted rs
    → any (in_window day) (merge_sorted rs) ≡ any (in_range day) rs
unfolding merge_sorted Sorted
merge_sorted-any day [] s = refl
merge_sorted-any day (r ∷ rs) s = elim (Bool-cases (ltb r.coverage_end r.coverage_start)) [
  | inl empty ↦ rw (empty, empty_range day r (ground arith)) (merge_sorted-any day rs s.1)
  | inr full ↦ rw full (merge_from-any day (new_window r) rs (ground arith) s.0 s.1)
]

merge_sorted-Separated : (rs : List Range) → Sorted rs → Separated (merge_sorted rs)
unfolding merge_sorted Sorted Separated
merge_sorted-Separated [] s = tt
merge_sorted-Separated (r ∷ rs) s = elim (Bool-cases (ltb r.coverage_end r.coverage_start)) [
  | inl empty ↦ rw empty (merge_sorted-Separated rs s.1)
  | inr full ↦ rw full (merge_from-Separated (new_window r) rs (ground arith) s.0 s.1).0
]

-- For ranges in any order: a day lies in one of the merged windows exactly when it lies in one of the
-- ranges; no window is empty, and each ends at least two days before every later one starts.
pub merged_coverage :
    (ranges : List Range) (day : ℕ)
    → (any (in_window day) (merge_paid_coverage_ranges ranges) ≡ any (in_range day) ranges)
      × Separated (merge_paid_coverage_ranges ranges)
unfolding merge_paid_coverage_ranges
merged_coverage ranges day = (
  merge_sorted-any day (sorted_ranges ranges) (ranges_ordered ranges)
      ∙ sorted-any (in_range day) ranges,
  merge_sorted-Separated (sorted_ranges ranges) (ranges_ordered ranges),
)

-- The periods that cover a day: paid, within the subscription's dates.
abbrev pub ends_by : Option ℕ → ℕ → Bool
ends_by none day = true
ends_by (some end_date) day = leb day end_date

abbrev pub is_covered_by : Subscription → ℕ → Period → Bool
is_covered_by s day p =
    is_paid_period p.status
    && leb p.period_start day
    && leb day p.period_end
    && leb s.start_date day
    && ends_by s.end_date day

coverage_end_exact :
    (end_date : Option ℕ) (day period_end : ℕ)
    → leb day (coverage_end end_date period_end) ≡ (leb day period_end && ends_by end_date day)
coverage_end_exact none day period_end = ground arith
coverage_end_exact (some e) day period_end = ground arith

paid_ranges-any :
    (s : Subscription) (day : ℕ) (ps : List Period)
    → any (in_range day) (paid_ranges s ps) ≡ any (is_covered_by s day) ps
unfolding paid_ranges
paid_ranges-any s day [] = refl
paid_ranges-any s day (p ∷ ps) =
    ground (arith, paid_ranges-any s day ps, coverage_end_exact s.end_date day p.period_end)

-- A day lies in one of a subscription's windows exactly when a paid period of the subscription
-- contains it and it lies between the subscription's start and, if there is one, its end.
pub coverage_exact :
    (periods : List Period) (s : Subscription) (day : ℕ)
    → any (in_window day) (paid_service_coverage periods s)
      ≡ any (is_covered_by s day) (periods_of s periods)
unfolding paid_service_coverage paid_ranges_for_subscription
coverage_exact periods s day =
    (merged_coverage (paid_ranges s (periods_of s periods)) day).0
    ∙ paid_ranges-any s day (periods_of s periods)
