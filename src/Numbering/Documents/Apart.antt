-- ===== src/Numbering/Documents/Apart.antt =====
-- The numbers of two annual documents of a tenant: billing/numbering.py.
use internet_ms.Base.{
  ℕ, ◌+◌, ◌≤◌, ◌≡◌, ◌≢◌, ◌∙◌, refl, sym, ap, Bool, true, Option, none, some, List, [], ◌∷◌, ◌++◌,
  all, append_cancel, find, find-satisfies, find-append_some, find-append_none, find-update, arith,
  Bool-cases, Option-cases, ◌⊎◌, inl, inr,
}
use internet_ms.Base.Text.{Text}
use internet_ms.Base.Digits.{
  digits, digits-all, int_of, int_of-digits, is_digit, pad, pad_injective,
}
use internet_ms.Billing.Models.{DocumentType}
use internet_ms.Billing.Calendar.{Date}
use internet_ms.Numbering.Documents.{
  Organization, Sequence, is_annual, prefix, format_number, same_type, has_year, is_sequence_of,
  new_sequence, locked_with, get_or_create_locked_counter, last_of, last_number_of, set_last,
  code_for, next_number,
}

same_type-eq : (a b : DocumentType) → same_type a b ≡ true → a ≡ b
same_type-eq a b h = ground arith

abbrev mark : DocumentType → ℕ
mark DocumentType.quotation = 81
mark DocumentType.invoice = 73
mark DocumentType.receipt = 82
mark DocumentType.credit_note = 67

mark_injective : (a b : DocumentType) → mark a ≡ mark b → a ≡ b
mark_injective a b h = ground (arith, h)

abbrev first_of : Text → ℕ
first_of [] = 0
first_of (c ∷ t) = c

first_of-prefix : (a : DocumentType) (t : Text) → first_of (prefix a ++ t) ≡ mark a
first_of-prefix DocumentType.quotation t = refl
first_of-prefix DocumentType.invoice t = refl
first_of-prefix DocumentType.receipt t = refl
first_of-prefix DocumentType.credit_note t = refl

split : (a b : DocumentType) (s t : Text) → prefix a ++ s ≡ prefix b ++ t → (a ≡ b) × (s ≡ t)
split a b s t h =
    let same : a ≡ b =
      mark_injective a b (sym (first_of-prefix a s) ∙ ap first_of h ∙ first_of-prefix b t) in
    (same, append_cancel (prefix b) s t (ap (λ x. prefix x ++ s) (sym same) ∙ h))

-- What stands before the first dash, and what after it.
cut :
    (s t : Text) (u v : Text)
    → all is_digit s ≡ true
    → all is_digit t ≡ true
    → s ++ 45 ∷ u ≡ t ++ 45 ∷ v
    → (s ≡ t) × (u ≡ v)
cut [] [] u v a b e = (refl, cc)
cut [] (d ∷ t) u v a b e = let dash : 45 ≡ d = cc in absurd (ground (arith, b, dash))
cut (c ∷ s) [] u v a b e = let dash : c ≡ 45 = cc in absurd (ground (arith, a, dash))
cut (c ∷ s) (d ∷ t) u v a b e =
    let (same, rest) = cut s t u v (ground (arith, a)) (ground (arith, b)) (cc) in
    let first : c ≡ d = cc in (cc, rest)

-- An annual number names its type, year and sequence number.
format_number-names :
    (a b : DocumentType) (p q : Text) (d e : Date) (m n : ℕ)
    → is_annual a ≡ true
    → is_annual b ≡ true
    → format_number a p d m ≡ format_number b q e n
    → (a ≡ b) × (d.year ≡ e.year) × (m ≡ n)
unfolding format_number
format_number-names a b p q d e m n x y h =
    let shape : prefix a ++ (45 ∷ 74 ∷ 83 ∷ 45 ∷ digits d.year ++ 45 ∷ pad 4 m)
        ≡ prefix b ++ (45 ∷ 74 ∷ 83 ∷ 45 ∷ digits e.year ++ 45 ∷ pad 4 n) =
      rw (x, y) at h in
    let (types, rest) =
      split a b (45 ∷ 74 ∷ 83 ∷ 45 ∷ digits d.year ++ 45 ∷ pad 4 m)
        (45 ∷ 74 ∷ 83 ∷ 45 ∷ digits e.year ++ 45 ∷ pad 4 n) shape in
    let numerals =
      append_cancel (45 ∷ 74 ∷ 83 ∷ 45 ∷ []) (digits d.year ++ 45 ∷ pad 4 m)
        (digits e.year ++ 45 ∷ pad 4 n) rest in
    let (years, numbers) =
      cut (digits d.year) (digits e.year) (pad 4 m) (pad 4 n) (digits-all d.year)
        (digits-all e.year) numerals in
    (
      types,
      sym (int_of-digits d.year) ∙ ap int_of years ∙ int_of-digits e.year,
      pad_injective 4 m n numbers,
    )

-- Two lookups of annual documents that one counter passes are the same lookup.
same_lookup :
    (o o' : ℕ) (a b : DocumentType) (d e : Date) (c : Sequence)
    → is_annual b ≡ true
    → is_sequence_of o a d c ≡ true
    → is_sequence_of o' b e c ≡ true
    → (y : Sequence) → is_sequence_of o' b e y ≡ is_sequence_of o a d y
same_lookup o o' a b d e c annual h k y =
    let tenant : o ≡ o' = ground (arith, h, k) in
    let first = same_type-eq c.document_type a (ground (arith, h)) in
    let second = same_type-eq c.document_type b (ground (arith, k)) in
    let types : a ≡ b = sym first ∙ second in
    let annual_a : is_annual a ≡ true = ap is_annual types ∙ annual in
    let year_a : has_year d.year c.year ≡ true = lookup_year o a d c annual_a h in
    let year_b : has_year e.year c.year ≡ true = lookup_year o' b e c annual k in
    let years : d.year ≡ e.year = one_year d.year e.year c.year year_a year_b in
    rw (tenant, types, annual, years) refl
  where
    lookup_year :
        (o : ℕ) (a : DocumentType) (d : Date) (c : Sequence)
        → is_annual a ≡ true
        → is_sequence_of o a d c ≡ true
        → has_year d.year c.year ≡ true
    lookup_year o a d c annual h = ground (arith, annual, h)

    one_year : (m n : ℕ) (o : Option ℕ) → has_year m o ≡ true → has_year n o ≡ true → m ≡ n
    one_year m n none h k = cc
    one_year m n (some y) h k = ground (arith, h, k)

find-same {ℓ} :
    {A : Type ℓ} (p q : A → Bool) (xs : List A) → ((x : A) → p x ≡ q x) → find p xs ≡ find q xs
find-same p q [] h = refl
find-same p q (x ∷ xs) h = ground (arith, h x, find-same p q xs h)

new-is_sequence_of :
    (o : ℕ) (a : DocumentType) (d : Date) → is_sequence_of o a d (new_sequence o a d) ≡ true
new-is_sequence_of o a d = elim a [
  | DocumentType.quotation ↦ ground arith
  | DocumentType.invoice ↦ ground arith
  | DocumentType.receipt ↦ ground arith
  | DocumentType.credit_note ↦ ground arith
]

-- The lock finds a counter, and changes no counter's number.
locked-there :
    (o : ℕ) (a : DocumentType) (d : Date) (table : List Sequence)
    → (c : Sequence) × (find (is_sequence_of o a d) (get_or_create_locked_counter o a d table)
        ≡ some c)
unfolding get_or_create_locked_counter
locked-there o a d table = elim (Option-cases (find (is_sequence_of o a d) table)) [
  | inl missing ↦
      let new = new_sequence o a d in
      (
        new,
        ap (λ x. find (is_sequence_of o a d) (locked_with o a d table x)) missing
            ∙ find-append_none (is_sequence_of o a d) table (new ∷ []) missing
            ∙ rw (new-is_sequence_of o a d) refl,
      )
  | inr (c, found) ↦
      (c, ap (λ x. find (is_sequence_of o a d) (locked_with o a d table x)) found ∙ found)
]

locked-last :
    (o o' : ℕ) (a b : DocumentType) (d e : Date) (table : List Sequence)
    → last_number_of o' b e (get_or_create_locked_counter o a d table) ≡ last_number_of o' b e table
unfolding get_or_create_locked_counter
locked-last o o' a b d e table = elim (Option-cases (find (is_sequence_of o a d) table)) [
  | inl missing ↦
      ap (λ x. last_number_of o' b e (locked_with o a d table x)) missing
      ∙ appended (Option-cases (find (is_sequence_of o' b e) table))
  | inr (c, found) ↦ ap (λ x. last_number_of o' b e (locked_with o a d table x)) found
]
  where
    appended :
        (find (is_sequence_of o' b e) table ≡ none)
          ⊎ ((c : Sequence) × (find (is_sequence_of o' b e) table ≡ some c))
        → last_number_of o' b e (table ++ new_sequence o a d ∷ []) ≡ last_number_of o' b e table
    appended (inl missing) =
        ap last_of
          (find-append_none (is_sequence_of o' b e) table (new_sequence o a d ∷ []) missing)
        ∙ fresh
        ∙ ap last_of (sym missing)
      where
        fresh : last_of (find (is_sequence_of o' b e) (new_sequence o a d ∷ [])) ≡ 0
        fresh = ground arith
    appended (inr (c, found)) =
        ap last_of
          (find-append_some (is_sequence_of o' b e) table (new_sequence o a d ∷ []) c found)
        ∙ ap last_of (sym found)

-- The number that a call gives is one more than the counter's, and the counter moves on to it.
given_number :
    (organization : Organization) (a : DocumentType) (d : Date) (table : List Sequence)
    → let (given, after) = next_number organization a d table in
      (given.value
        ≡ format_number a
            (code_for organization a)
            d
            (last_number_of organization.pk a d table + 1))
      × (last_number_of organization.pk a d after ≡ last_number_of organization.pk a d table + 1)
unfolding next_number
given_number organization a d table =
    let o = organization.pk in
    let locked = get_or_create_locked_counter o a d table in
    let (c, found) = locked-there o a d table in
    let last = locked-last o o a a d d table in
    let passes = find-satisfies (is_sequence_of o a d) locked c found in
    (
      ap (λ n. format_number a (code_for organization a) d (n + 1)) last,
      ap last_of (
            find-update (is_sequence_of o a d) (is_sequence_of o a d)
              (set_last (last_number_of o a d locked + 1)) locked c (λ y. refl) found)
          ∙ rw passes (ap (λ n. n + 1) last),
    )

-- No call lowers the counter of an annual type.
counters_grow :
    (organization : Organization) (o' : ℕ) (a b : DocumentType) (d e : Date) (table : List Sequence)
    → is_annual b ≡ true
    → last_number_of o' b e table ≤ last_number_of o' b e (next_number organization a d table).1
unfolding next_number
counters_grow organization o' a b d e table annual =
    let o = organization.pk in
    let locked = get_or_create_locked_counter o a d table in
    let n = last_number_of o a d locked + 1 in
    let last = locked-last o o' a b d e table in
    elim (Option-cases (find (is_sequence_of o' b e) locked)) [
      | inl missing ↦
          let none_yet : last_number_of o' b e table ≡ 0 = sym last ∙ ap last_of missing in
          omega (arith, none_yet)
      | inr (x, found) ↦
          let before : last_number_of o' b e table ≡ x.last_number = sym last ∙ ap last_of found in
          let after = ap last_of (
            find-update (is_sequence_of o' b e) (is_sequence_of o a d) (set_last n) locked x
              (λ y. refl) found) in
          elim (Bool-cases (is_sequence_of o a d x)) [
            | inl mine ↦
                let passes = find-satisfies (is_sequence_of o' b e) locked x found in
                let same =
                  find-same (is_sequence_of o' b e) (is_sequence_of o a d) locked
                    (same_lookup o o' a b d e x annual mine passes) in
                let there : last_number_of o a d locked ≡ x.last_number =
                  ap last_of (sym same ∙ found) in
                let raised = rw mine at after in omega (arith, before, raised, there)
            | inr other ↦ let kept = rw other at after in omega (arith, before, kept)
          ]
    ]

-- The table after any number of calls, for any organization, type and date.
pub data Later : List Sequence → List Sequence → Type 0 where
  now : {table : List Sequence} → Later table table
  after_call :
      {table last : List Sequence} (organization : Organization) (document_type : DocumentType)
      (issue_date : Date)
      → Later (next_number organization document_type issue_date table).1 last
      → Later table last

calls_grow :
    (o : ℕ) (b : DocumentType) (e : Date) (s t : List Sequence)
    → is_annual b ≡ true
    → Later s t
    → last_number_of o b e s ≤ last_number_of o b e t
calls_grow o b e s t annual now = omega arith
calls_grow o b e s t annual (after_call organization a d rest) =
    let first = counters_grow organization o a b d e s annual in
    let later = calls_grow o b e (next_number organization a d s).1 t annual rest in
    omega (arith, first, later)

-- Two quotations, invoices or receipts of a tenant never have the same number, whatever calls come between
-- the two that number them, and whatever their types and dates.
pub annual_numbers_differ :
    (organization later_organization : Organization) (a b : DocumentType) (d e : Date)
    (s t : List Sequence)
    → later_organization.pk ≡ organization.pk
    → is_annual a ≡ true
    → is_annual b ≡ true
    → Later (next_number organization a d s).1 t
    → (next_number organization a d s).0.value ≢ (next_number later_organization b e t).0.value
annual_numbers_differ organization later_organization a b d e s t tenant x y calls same =
    let first = given_number organization a d s in
    let second = given_number later_organization b e t in
    let (types, years, numbers) =
      format_number-names a b (code_for organization a) (code_for later_organization b) d e
        (last_number_of organization.pk a d s + 1) (last_number_of later_organization.pk b e t + 1)
        x y (sym first.0 ∙ same ∙ second.0) in
    let middle = (next_number organization a d s).1 in
    let one : last_number_of later_organization.pk b e middle
        ≡ last_number_of organization.pk a d middle =
      ap last_of (find-same _ _ middle (λ c. rw (tenant, types, y, years) refl)) in
    let grown = calls_grow later_organization.pk b e middle t y calls in
    let counted = first.1 in omega (arith, numbers, one, grown, counted)
