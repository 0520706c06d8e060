-- ===== src/Products/Tests.antt =====
-- Runs of the allocation of SKUs, and the theorems at concrete products.
use internet_ms.Base.{ℕ, ◌≤◌, ◌≡◌, refl, arith, Bool, true, false, none, some, [], ◌∷◌, any}
use internet_ms.Base.Text.{Text, codes, strip}
use internet_ms.Base.Digits.{int_from}
use internet_ms.Base.Result.{ok, err}
use internet_ms.Products.Sku.{
  SkuError, generated_sku, generated_suffix, suffix_number, upper, generated_number,
  validate_manual_sku,
}
use internet_ms.Products.Sku.Generated.{generated_number-generated_sku, normal_sku}
use internet_ms.Products.Creation.{
  Product, Store, starts_generated, row_number, scan, occupied_max, uses, allocate,
}
use internet_ms.Products.Creation.Recovery.{allocation_recovers, numbered_row, numbered_store}

abbrev unchanged : ℕ → Text
unchanged c = c ∷ []

-- A database whose normal form is Python's.
abbrev normal : Text → Text
normal t = upper unchanged (strip t)

abbrev any_product : Product → Bool
any_product _ = true

abbrev modem : Product
modem = record {
  pk = none;
  tenant_id = some 1;
  organization_id = some 1;
  sku = [];
  name = codes "Modem";
  quantity = 0;
  stock = 0;
}

-- A legacy row has the counter's next number.
abbrev legacy : Store
legacy = record {
  memberships = [];
  products = (record modem { pk = some 7; sku = codes " prd-000041" }) ∷ [];
  counters = (record { tenant_id = 1; next_number = 41 }) ∷ [];
  audit = [];
  next_pk = 8;
}

scan-finds : occupied_max unchanged normal any_product 1 legacy ≡ ok 41
unfolding occupied_max scan row_number starts_generated generated_number generated_suffix
    suffix_number upper strip int_from
scan-finds = refl

normal-meets :
    (t : Text) (n : ℕ) → normal t ≡ generated_sku n → upper unchanged (strip t) ≡ generated_sku n
normal-meets t n h = h

generated_number-generated_sku_example :
    (generated_number unchanged (generated_sku 41) ≡ ok (some 41))
    × ((e : SkuError) × (validate_manual_sku unchanged (generated_sku 41) [] ≡ err e))
generated_number-generated_sku_example = generated_number-generated_sku unchanged 41 (omega arith)

allocation_recovers_example :
    (n : ℕ) × (41 ≤ n)
    × (any (uses unchanged normal any_product 1 (generated_sku n)) legacy.products ≡ false)
    × (allocate unchanged normal any_product 1 41 modem legacy
        ≡ ok (numbered_row n modem legacy, numbered_store 1 n modem legacy))
allocation_recovers_example =
    allocation_recovers unchanged normal any_product normal-meets (normal_sku unchanged) 1 41 41
      modem legacy scan-finds (omega arith) (λ n. refl)
