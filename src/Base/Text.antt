-- ===== src/Base/Text.antt =====
-- Free text as a list of code points, with Python's `str.strip` and `len`.
use Prim.Native.Nat.{ℕ, ◌+◌}
use mathlib.Core.Path.{◌≡◌, refl}
use native.Mathlib.Omega.{arith}
use Prim.Native.Char.{code}
use Prim.Native.String.{String}
use mathlib.Core.Bool.{Bool, true, false, not, ◌&&◌, ◌||◌}
use mathlib.Core.Path.{◌∙◌, ap}
use mathlib.Core.List.{List, [], ◌∷◌, reverse, reverse-reverse, reverse-cons}
use internet_ms.Base.Lists.{all, all-append}
use internet_ms.Base.Tests.{leb, ◌==◌, if◌then◌else◌}

abbrev pub Text : Type 0
Text = List ℕ

-- `str.isspace` of one code point
abbrev pub is_space : ℕ → Bool
is_space c =
    (leb 9 c && leb c 13)
    || (leb 28 c && leb c 32)
    || c == 133
    || c == 160
    || c == 5760
    || (leb 8192 c && leb c 8202)
    || c == 8232
    || c == 8233
    || c == 8239
    || c == 8287
    || c == 12288

abbrev lstrip : Text → Text
lstrip [] = []
lstrip (c ∷ t) = if is_space c then lstrip t else c ∷ t

unfoldable pub strip : Text → Text
strip t = reverse (lstrip (reverse (lstrip t)))

-- `not text`
abbrev pub is_empty {ℓ} : {A : Type ℓ} → List A → Bool
is_empty [] = true
is_empty (_ ∷ _) = false

unfoldable pub text_eq : Text → Text → Bool
text_eq [] [] = true
text_eq (a ∷ s) (b ∷ t) = (a == b) && text_eq s t
text_eq _ _ = false

-- The code points of a literal.
abbrev pub codes : String → Text
codes String.[] = []
codes (String.◌∷◌ c s) = code c ∷ codes s

-- `str.lower` of an ASCII text
abbrev lower_ascii : Text → Text
lower_ascii [] = []
lower_ascii (c ∷ t) = (if leb 65 c && leb c 90 then c + 32 else c) ∷ lower_ascii t

-- `str.lower`; `lower_wide` is what it makes of a text with other letters.
unfoldable pub lower : (Text → Text) → Text → Text
lower lower_wide t = if all (λ c. leb c 127) t then lower_ascii t else lower_wide t

pub text_eq_refl : (t : Text) → text_eq t t ≡ true
unfolding text_eq
text_eq_refl [] = refl
text_eq_refl (c ∷ t) = ground (arith, text_eq_refl t)

lstrip-solid : (t : Text) → all (λ c. not (is_space c)) t ≡ true → lstrip t ≡ t
lstrip-solid [] h = refl
lstrip-solid (c ∷ t) h =
    elim (is_space c)
        as (λ b.
          (not b && all (λ x. not (is_space x)) t) ≡ true
          → (if b then lstrip t else c ∷ t) ≡ c ∷ t) [ true ↦ λ e. cc | false ↦ λ e. refl ]
      h

all-reverse : (p : ℕ → Bool) (t : Text) → all p t ≡ true → all p (reverse t) ≡ true
all-reverse p [] h = refl
all-reverse p (c ∷ t) h =
    ap (all p) (reverse-cons c t)
    ∙ all-append p (reverse t) (c ∷ [])
    ∙ ground (arith, h, all-reverse p t)

-- A text without spaces stays as it is.
pub strip-solid : (t : Text) → all (λ c. not (is_space c)) t ≡ true → strip t ≡ t
unfolding strip
strip-solid t h =
    ap (λ x. reverse (lstrip (reverse x))) (lstrip-solid t h)
    ∙ ap reverse (lstrip-solid (reverse t) (all-reverse (λ c. not (is_space c)) t h))
    ∙ reverse-reverse t

pub text_eq-eq : (s t : Text) → text_eq s t ≡ true → s ≡ t
unfolding text_eq
text_eq-eq [] [] h = refl
text_eq-eq [] (c ∷ t) h = cc
text_eq-eq (c ∷ s) [] h = cc
text_eq-eq (a ∷ s) (b ∷ t) h =
    let here : a ≡ b = ground (arith, h) in
    let later : s ≡ t = text_eq-eq s t (ground (arith, h)) in cc
