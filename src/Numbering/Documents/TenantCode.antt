-- ===== src/Numbering/Documents/TenantCode.antt =====
-- The form of a tenant's code: billing/numbering.py.
use internet_ms.Base.{
  ℕ, zero, suc, ◌+◌, ◌≤◌, ◌≡◌, ◌∙◌, refl, Bool, true, false, ◌&&◌, ◌||◌, Option, none, some, List,
  [], ◌∷◌, ◌++◌, leb, ltb, all, all-append, find, filter, map, length, All, All-filter_keep,
  All-filter, All-both, arith, Bool-cases, inl, inr,
}
use internet_ms.Base.Text.{Text}
use internet_ms.Numbering.Documents.{
  Organization, is_alphanumeric, upper_letter, take, or_text, default_code, normalize_code,
  split_from, is_part, parts, initial_of, initials, code_from_name, code_from_slug, first_code,
  get_tenant_code,
}

-- `[A-Z0-9]`
abbrev pub is_code : ℕ → Bool
is_code c = (leb 48 c && leb c 57) || (leb 65 c && leb c 90)

-- One to eight capital letters and digits.
abbrev pub IsCode : Text → Type 0
IsCode t = (1 ≤ length t) × (length t ≤ 8) × (all is_code t ≡ true)

upper_letter-is_code : (c : ℕ) → is_alphanumeric c ≡ true → is_code (upper_letter c) ≡ true
upper_letter-is_code c h = ground (arith, h)

length-take : (n : ℕ) (t : Text) → length (take n t) ≤ n
length-take zero t = omega arith
length-take (suc n) [] = omega arith
length-take (suc n) (c ∷ t) = omega (arith, length-take n t)

all-take : (n : ℕ) (t : Text) → all is_code t ≡ true → all is_code (take n t) ≡ true
all-take zero t h = refl
all-take (suc n) [] h = refl
all-take (suc n) (c ∷ t) h = ground (arith, h, all-take n t)

all-upper : (t : Text) → all is_alphanumeric t ≡ true → all is_code (map upper_letter t) ≡ true
all-upper [] h = refl
all-upper (c ∷ t) h = ground (arith, h, upper_letter-is_code c, all-upper t)

all-kept : (t : Text) → all is_alphanumeric (filter is_alphanumeric t) ≡ true
all-kept [] = refl
all-kept (c ∷ t) = ground (arith, all-kept t)

normalize_code-IsCode : (value : Text) → IsCode (normalize_code value)
unfolding normalize_code
normalize_code-IsCode value =
    let cleaned = map upper_letter (filter is_alphanumeric value) in
    or_default (take 8 cleaned) (length-take 8 cleaned)
      (all-take 8 cleaned (all-upper (filter is_alphanumeric value) (all-kept value)))
  where
    or_default : (t : Text) → length t ≤ 8 → all is_code t ≡ true → IsCode (or_text t default_code)
    or_default [] short codes = (omega arith, omega arith, refl)
    or_default (c ∷ t) short codes = (omega arith, short, codes)

split_from-All :
    (part t : Text)
    → all is_alphanumeric part ≡ true
    → All (λ p. all is_alphanumeric p ≡ true) (split_from part t)
unfolding split_from
split_from-All part [] h = (h, tt)
split_from-All part (c ∷ t) h = elim (Bool-cases (is_alphanumeric c)) [
  | inl e ↦ rw e (
      split_from-All (part ++ c ∷ []) t
        (all-append is_alphanumeric part (c ∷ []) ∙ ground (arith, h, e)))
  | inr e ↦ rw e (h, split_from-All [] t refl)
]

abbrev IsWord : Text → Type 0
IsWord p = (is_part p ≡ true) × (all is_alphanumeric p ≡ true)

parts-All : (t : Text) → All IsWord (parts t)
parts-All t =
    All-both (λ p. is_part p ≡ true) (λ p. all is_alphanumeric p ≡ true) (parts t)
      (All-filter (λ p. is_part p ≡ true) is_part (split_from [] t) (λ p h. h))
      (All-filter_keep (λ p. all is_alphanumeric p ≡ true) is_part (split_from [] t)
        (split_from-All [] t refl))

initial_of-IsCode :
    (p : Text) → IsWord p → (length (initial_of p) ≡ 1) × (all is_code (initial_of p) ≡ true)
initial_of-IsCode [] h = let empty = h.0 in cc
initial_of-IsCode (c ∷ p) h = let word = h.1 in (refl, ground (arith, word, upper_letter-is_code c))

length-append : (s t : Text) → length (s ++ t) ≡ length s + length t
length-append [] t = omega arith
length-append (c ∷ s) t = omega (arith, length-append s t)

initials-IsCode :
    (n : ℕ) (ts : List Text)
    → All IsWord ts
    → (length (initials n ts) ≤ n) × (all is_code (initials n ts) ≡ true)
initials-IsCode zero ts h = (omega arith, refl)
initials-IsCode (suc n) [] h = (omega arith, refl)
initials-IsCode (suc n) (t ∷ ts) h =
    let first = initial_of-IsCode t h.0 in
    let rest = initials-IsCode n ts h.1 in
    let size = length-append (initial_of t) (initials n ts) in
    let codes = all-append is_code (initial_of t) (initials n ts) in
    (omega (arith, size, first.0, rest.0), codes ∙ ground (arith, first.1, rest.1))

name_initials-IsCode :
    (ts : List Text) → All IsWord ts → ltb (length ts) 2 ≡ false → IsCode (initials 4 ts)
name_initials-IsCode [] h many = cc
name_initials-IsCode (t ∷ ts) h many =
    let first = initial_of-IsCode t h.0 in
    let size = length-append (initial_of t) (initials 3 ts) in
    let all_four = initials-IsCode 4 (t ∷ ts) h in
    (omega (arith, size, first.0), omega (arith, all_four.0), all_four.1)

code_from_name-IsCode : (name : Text) → IsCode (code_from_name name)
code_from_name-IsCode name = elim (Bool-cases (ltb (length (parts name)) 2)) [
  | inl few ↦ rw few (normalize_code-IsCode (or_text name default_code))
  | inr many ↦ rw many (name_initials-IsCode (parts name) (parts-All name) many)
]

code_from_slug-IsCode :
    (organization : Organization) (ts : List Text) → IsCode (code_from_slug organization ts)
code_from_slug-IsCode organization [] =
    code_from_name-IsCode (or_text organization.name organization.slug)
code_from_slug-IsCode organization (part ∷ ts) = elim (Bool-cases (leb (length part) 6)) [
  | inl short ↦ rw short (normalize_code-IsCode part)
  | inr long ↦ rw long (code_from_name-IsCode (or_text organization.name organization.slug))
]

-- Whatever an organization's attributes, slug and name are, its code has one to eight characters, each a
-- capital letter or a digit.
pub get_tenant_code-IsCode : (organization : Organization) → IsCode (get_tenant_code organization)
unfolding get_tenant_code
get_tenant_code-IsCode organization = from (find is_part organization.code_attributes)
  where
    from : (o : Option Text) → IsCode (first_code organization o)
    from none = code_from_slug-IsCode organization (parts organization.slug)
    from (some raw) = normalize_code-IsCode raw
