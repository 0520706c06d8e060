-- ===== src/Numbering/Purchases.antt =====
-- inventory/numbering.py: the references of purchases. Parameter: `fold`, the upper case that the database
-- compares `iexact` by.
pub mod Allocation
use internet_ms.Base.{
  ℕ, suc, ◌+◌, Bool, true, Option, none, some, List, [], ◌∷◌, ◌++◌, ◌==◌, ◌&&◌, any, find, update,
  length,
}
use internet_ms.Base.Text.{Text, text_eq}
use internet_ms.Base.Digits.{digits, pad}
use internet_ms.Numbering.Search.{first_free}

-- `PurchaseReferenceSequence`
pub record Counter : Type 0 where
  pub tenant_id : ℕ
  pub last_number : ℕ

-- `Purchase`, what the numbering reads of it
pub record Purchase : Type 0 where
  pub tenant_id : ℕ
  pub reference_number : Text

pub record Store : Type 0 where
  pub counters : List Counter
  pub purchases : List Purchase

-- `_format_number`: PUR, the year, the number with five digits.
unfoldable pub format_number : ℕ → ℕ → Text
format_number year sequence_number = 80 ∷ 85 ∷ 82 ∷ 45 ∷ digits year ++ 45 ∷ pad 5 sequence_number

abbrev pub is_counter_of : ℕ → Counter → Bool
is_counter_of organization c = c.tenant_id == organization

abbrev pub last_of : Option Counter → ℕ
last_of none = 0
last_of (some c) = c.last_number

-- `counter.last_number if counter else 0`
abbrev pub last_number_of : ℕ → Store → ℕ
last_number_of organization s = last_of (find (is_counter_of organization) s.counters)

abbrev pub locked_with : ℕ → Store → Option Counter → Store
locked_with organization s (some c) = s
locked_with organization s none = record s {
  counters = s.counters ++ (record { tenant_id = organization; last_number = 0 }) ∷ [];
}

-- `_get_or_create_locked_counter`: the tables with a counter.
unfoldable pub get_or_create_locked_counter : ℕ → Store → Store
get_or_create_locked_counter organization s =
    locked_with organization s (find (is_counter_of organization) s.counters)

abbrev pub set_last : ℕ → Counter → Counter
set_last number c = record c { last_number = number }

-- `counter.save(update_fields=["last_number", "updated_at"])`
abbrev pub save_counter : ℕ → ℕ → Store → Store
save_counter organization number s = record s {
  counters = update (is_counter_of organization) (set_last number) s.counters;
}

-- One round more than there are purchases.
abbrev pub rounds : Store → ℕ
rounds s = suc (length s.purchases)

module _ (fold : Text → Text) where
  -- `filter(tenant=organization, reference_number__iexact=candidate)`
  abbrev pub uses : ℕ → ℕ → ℕ → Purchase → Bool
  uses organization year number p =
      p.tenant_id == organization
      && text_eq (fold p.reference_number) (fold (format_number year number))

  abbrev pub is_used : ℕ → ℕ → Store → ℕ → Bool
  is_used organization year s number = any (uses organization year number) s.purchases

  -- The number that the loop ends with.
  unfoldable pub free_number : ℕ → ℕ → Store → Option ℕ
  unfolding first_free
  free_number organization year s =
      first_free (rounds s) (last_number_of organization s + 1) (is_used organization year s)

  abbrev pub shown : ℕ → Option ℕ → Option Text
  shown year none = none
  shown year (some number) = some (format_number year number)

  unfoldable pub preview_next_number : ℕ → ℕ → Store → Option Text
  unfolding free_number format_number
  preview_next_number organization year s = shown year (free_number organization year s)

  abbrev pub issued : ℕ → ℕ → Store → Option ℕ → Option (Text × Store)
  issued organization year s none = none
  issued organization year s (some number) =
      some (format_number year number, save_counter organization number s)

  unfoldable pub next_number : ℕ → ℕ → Store → Option (Text × Store)
  unfolding free_number format_number get_or_create_locked_counter
  next_number organization year s =
      let locked = get_or_create_locked_counter organization s in
      issued organization year locked (free_number organization year locked)
