-- ===== src/Numbering/Purchases/Allocation.antt =====
-- The search for the next reference of a purchase: inventory/numbering.py.
use internet_ms.Base.{
  ℕ, suc, ◌+◌, ◌≤◌, ◌<◌, ◌≡◌, ◌∙◌, refl, sym, ap, true, false, none, some, List, [], ◌∷◌, ◌++◌,
  ◌==◌, ==_iff, any, find, find-append_none, append_cancel, update, length, arith, Option-cases,
  inl, inr,
}
use internet_ms.Base.Text.{Text, text_eq-eq}
use internet_ms.Base.Digits.{digits, pad, pad_injective}
use internet_ms.Numbering.Search.{first_free, first_free-found, first_free-enough}
use internet_ms.Numbering.Purchases.{
  Counter, Purchase, Store, format_number, is_counter_of, last_of, last_number_of, locked_with,
  free_number, shown, issued, get_or_create_locked_counter, set_last, save_counter, rounds, uses,
  is_used, preview_next_number, next_number,
}

format_number-injective : (year a b : ℕ) → format_number year a ≡ format_number year b → a ≡ b
unfolding format_number
format_number-injective year a b e =
    let numerals : 45 ∷ pad 5 a ≡ 45 ∷ pad 5 b =
      append_cancel (80 ∷ 85 ∷ 82 ∷ 45 ∷ digits year) (45 ∷ pad 5 a) (45 ∷ pad 5 b) e in
    pad_injective 5 a b (append_cancel (45 ∷ []) (pad 5 a) (pad 5 b) numerals)

-- The counter that is there after the lock, with its number; nothing else changes.
locked-keeps :
    (organization : ℕ) (s : Store)
    → let locked = get_or_create_locked_counter organization s in
      (locked.purchases ≡ s.purchases)
      × (last_number_of organization locked ≡ last_number_of organization s)
      × ((c : Counter) × (find (is_counter_of organization) locked.counters ≡ some c))
unfolding get_or_create_locked_counter
locked-keeps organization s = elim (Option-cases (find (is_counter_of organization) s.counters)) [
  | inl missing ↦
      let new : Counter = record { tenant_id = organization; last_number = 0 } in
      let own : (organization == organization) ≡ true = (==_iff organization organization).1 refl in
      let found : find (is_counter_of organization) (s.counters ++ new ∷ []) ≡ some new =
        find-append_none (is_counter_of organization) s.counters (new ∷ []) missing ∙ rw own refl in
      let same : get_or_create_locked_counter organization s ≡ locked_with organization s none =
        ap (locked_with organization s) missing in
      let last : last_number_of organization (locked_with organization s none)
          ≡ last_number_of organization s =
        ap last_of found ∙ ap last_of (sym missing) in
      (
        ap (λ x. x.purchases) same,
        ap (last_number_of organization) same ∙ last,
        (new, ap (λ x. find (is_counter_of organization) x.counters) same ∙ found),
      )
  | inr (c, found) ↦
      let same : get_or_create_locked_counter organization s ≡ s =
        ap (locked_with organization s) found in
      (
        ap (λ x. x.purchases) same,
        ap (last_number_of organization) same,
        (c, ap (λ x. find (is_counter_of organization) x.counters) same ∙ found),
      )
]

last-update :
    (organization n : ℕ) (cs : List Counter) (c : Counter)
    → find (is_counter_of organization) cs ≡ some c
    → last_of
        (find (is_counter_of organization) (update (is_counter_of organization) (set_last n) cs))
      ≡ n
last-update organization n [] c h = cc
last-update organization n (x ∷ cs) c h = ground (arith, h, last-update organization n cs c)

module _ (fold : Text → Text)
    -- The upper case of a reference of capitals, digits and dashes is the reference.
    (fold_keeps : (year number : ℕ)
      → fold (format_number year number) ≡ format_number year number) where
  uses_once :
      (organization year m k : ℕ) (p : Purchase)
      → uses fold organization year m p ≡ true
      → uses fold organization year k p ≡ true
      → m ≡ k
  uses_once organization year m k p a b =
      let first =
        text_eq-eq (fold p.reference_number) (fold (format_number year m)) (ground (arith, a)) in
      let second =
        text_eq-eq (fold p.reference_number) (fold (format_number year k)) (ground (arith, b)) in
      format_number-injective year m k
        (sym (fold_keeps year m) ∙ sym first ∙ second ∙ fold_keeps year k)

  free_number-found :
      (organization year : ℕ) (s : Store)
      → (number : ℕ) × (free_number fold organization year s ≡ some number)
  unfolding free_number
  free_number-found organization year s =
      first_free-enough (uses fold organization year) (uses_once organization year) (rounds s)
        (last_number_of organization s + 1) s.purchases (omega arith)

  free_number-ok :
      (organization year : ℕ) (s : Store) (number : ℕ)
      → free_number fold organization year s ≡ some number
      → (last_number_of organization s + 1 ≤ number)
        × (is_used fold organization year s number ≡ false)
        × ((k : ℕ)
            → last_number_of organization s + 1 ≤ k
            → k < number
            → is_used fold organization year s k ≡ true)
  unfolding free_number
  free_number-ok organization year s number h =
      first_free-found (rounds s) (last_number_of organization s + 1)
        (is_used fold organization year s) number h

  same_number :
      (organization year : ℕ) (s t : Store)
      → s.purchases ≡ t.purchases
      → last_number_of organization s ≡ last_number_of organization t
      → free_number fold organization year s ≡ free_number fold organization year t
  unfolding free_number
  same_number organization year s t rows last =
      ap
        (λ xs.
          first_free (suc (length xs)) (last_number_of organization s + 1)
            (λ k. any (uses fold organization year k) xs))
        rows
      ∙ ap (λ n. first_free (rounds t) (n + 1) (is_used fold organization year t)) last

  -- For any tables a number is allocated: it is the first one after the counter's that no purchase of the
  -- tenant has, the reference was the one that the preview showed, and the counter moves on to it.
  pub next_number-allocates :
      (organization year : ℕ) (s : Store)
      → (number : ℕ) × (s' : Store) × (next_number fold organization year s
          ≡ some (format_number year number, s'))
        × (preview_next_number fold organization year s ≡ some (format_number year number))
        × (last_number_of organization s < number)
        × (is_used fold organization year s number ≡ false)
        × ((k : ℕ)
            → last_number_of organization s < k
            → k < number
            → is_used fold organization year s k ≡ true)
        × (last_number_of organization s' ≡ number)
        × (s'.purchases ≡ s.purchases)
  unfolding next_number preview_next_number
  next_number-allocates organization year s =
      let locked = get_or_create_locked_counter organization s in
      let (rows, last, (c, there)) = locked-keeps organization s in
      let (number, found) = free_number-found organization year s in
      let (above, free, before) = free_number-ok organization year s number found in
      let same : free_number fold organization year locked ≡ some number =
        same_number organization year locked s rows last ∙ found in
      (
        number,
        save_counter organization number locked,
        ap (issued fold organization year locked) same,
        ap (shown fold year) found,
        omega (arith, above),
        free,
        λ k low high. before k (omega (arith, low)) high,
        last-update organization number locked.counters c there,
        rows,
      )
