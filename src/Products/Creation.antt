-- ===== src/Products/Creation.antt =====
-- products/creation.py: the allocation of SKUs when a product is created. Parameters: `upper_wide` as in
-- Sku; `db_normal`, which is the database's `Upper(Trim(…))`; `valid_product`, the validation of a
-- product's other fields.
pub mod Recovery
use internet_ms.Base.{
  ℕ, suc, ◌+◌, Bool, true, false, not, ◌&&◌, ◌||◌, String, Option, none, some, List, [], ◌∷◌, ◌++◌,
  ◌==◌, ltb, leb, any, find, update, filter, max, if◌then◌else◌,
}
use internet_ms.Base.Text.{Text, strip, is_empty, text_eq}
use internet_ms.Base.Result.{Result, ok, err, ◌>>=◌, ◌>>◌, raise_if}
use internet_ms.Users.PermissionCode
use internet_ms.Users.Models.{Membership, User}
use internet_ms.Users.Permissions.{has_tenant_permission}
use internet_ms.Products.Sku.{
  SkuError, suffix_too_large, exhausted, sku_in_use, changed_repeatedly, no_business,
  existing_product, foreign_product, stocked_product, no_permission, invalid_product, max_number,
  generated_sku, upper, generated_number, validate_manual_sku,
}

-- `Product`, before it is saved and as a row.
pub record Product : Type 0 where
  pub pk : Option ℕ
  pub tenant_id : Option ℕ
  pub organization_id : Option ℕ
  pub sku : Text
  pub name : Text
  pub quantity : ℕ
  pub stock : ℕ

-- `ProductSKUCounter`
pub record Counter : Type 0 where
  pub tenant_id : ℕ
  pub next_number : ℕ

-- The audit row of a new product.
pub record AuditEntry : Type 0 where
  pub organization_id : ℕ
  pub actor_id : ℕ
  pub sku : Text
  pub name : Text

pub record Store : Type 0 where
  pub memberships : List Membership
  pub products : List Product
  pub counters : List Counter
  pub audit : List AuditEntry
  pub next_pk : ℕ

abbrev pub is_of : ℕ → Option ℕ → Bool
is_of organization none = false
is_of organization (some key) = key == organization

abbrev pub foreign : ℕ → Option ℕ → Bool
foreign organization none = false
foreign organization (some key) = not (key == 0) && not (key == organization)

-- `product.pk`
abbrev pub is_saved : Option ℕ → Bool
is_saved none = false
is_saved (some key) = not (key == 0)

-- `startswith('PRD-')`
unfoldable pub starts_generated : Text → Bool
starts_generated (p ∷ r ∷ d ∷ dash ∷ t) = p == 80 && r == 82 && d == 68 && dash == 45
starts_generated _ = false

abbrev pub number_or : ℕ → Option ℕ → ℕ
number_or maximum none = maximum
number_or maximum (some number) = max maximum number

abbrev pub is_counter_of : ℕ → Counter → Bool
is_counter_of organization c = c.tenant_id == organization

abbrev pub set_number : ℕ → Counter → Counter
set_number number c = record c { next_number = number }

-- `counter.save(update_fields=['next_number'])`
abbrev pub save_counter : ℕ → ℕ → Store → Store
save_counter organization number s = record s {
  counters = update (is_counter_of organization) (set_number number) s.counters;
}

-- How `product.save()` ends.
pub data Saved : Type 0 where
  stored : Product → Store → Saved
  conflict : Saved
  refused : SkuError → Saved

-- How one round of the loop ends: with the product, with an error, or with `continue`.
pub data Attempt : Type 0 where
  done : Product → Store → Attempt
  fails : SkuError → Attempt
  again : ℕ → Attempt

module _ (upper_wide : ℕ → Text) (db_normal : Text → Text) (valid_product : Product → Bool) where
  -- The number of a row that the query of `occupied_max` returns.
  unfoldable pub row_number : ℕ → Product → Result SkuError (Option ℕ)
  unfolding generated_number starts_generated
  row_number organization x =
      if is_of organization x.tenant_id && starts_generated (db_normal x.sku)
      then generated_number upper_wide x.sku
      else ok none

  -- The loop of `occupied_max`
  unfoldable pub scan : ℕ → ℕ → List Product → Result SkuError ℕ
  unfolding row_number
  scan organization maximum [] = ok maximum
  scan organization maximum (x ∷ xs) = do
    number ← row_number organization x
    scan organization (number_or maximum number) xs

  unfoldable pub occupied_max : ℕ → Store → Result SkuError ℕ
  unfolding scan
  occupied_max organization s = scan organization 0 s.products

  -- `locked_counter`: the counter's number, and the tables with the counter.
  unfoldable pub locked_counter : ℕ → Store → Result SkuError (ℕ × Store)
  unfolding occupied_max
  locked_counter organization s = elim (find (is_counter_of organization) s.counters) [
    | some c ↦ ok (c.next_number, s)
    | none ↦ do
      maximum ← occupied_max organization s
      ok (
        maximum + 1,
        record s {
          counters = s.counters ++ (record { tenant_id = organization; next_number = 1 }) ∷ [];
        },
      )
  ]

  -- A product of the tenant whose normal form is the SKU.
  abbrev pub uses : ℕ → Text → Product → Bool
  uses organization sku x = is_of organization x.tenant_id && text_eq (db_normal x.sku) sku

  -- The unique constraints of the table of products.
  abbrev pub clashes : ℕ → Text → Product → Bool
  clashes organization sku x =
      is_of organization x.tenant_id
      && not (is_empty x.sku)
      && (text_eq x.sku sku || text_eq (db_normal x.sku) (db_normal sku))

  -- `product.save()` of a new product; `Product.save` normalizes its SKU.
  unfoldable pub save_product : ℕ → Product → Store → Saved
  unfolding upper
  save_product organization product s =
      let row = record product {
        pk = some s.next_pk;
        sku = upper upper_wide (strip product.sku);
      } in
      if not (valid_product row)
      then refused invalid_product
      else if not (is_empty row.sku) && any (clashes organization row.sku) s.products
      then conflict
      else stored row (record s { products = s.products ++ row ∷ []; next_pk = suc s.next_pk })

  abbrev pub retry : (ℕ → ℕ) → Result SkuError ℕ → Attempt
  retry next (err e) = fails e
  retry next (ok maximum) = again (next maximum)

  -- What a round does with the end of `product.save()`.
  abbrev pub after_save : ℕ → ℕ → Store → Saved → Attempt
  after_save organization number s (stored row s') =
      done row (save_counter organization (number + 1) s')
  after_save organization number s conflict =
      retry (λ maximum. max (number + 1) (maximum + 1)) (occupied_max organization s)
  after_save organization number s (refused e) = fails e

  -- One round of the loop with a counter.
  unfoldable pub attempt : Bool → ℕ → ℕ → Product → Store → Attempt
  unfolding occupied_max save_product generated_sku
  attempt recovery organization number product s =
      if ltb max_number number
      then fails exhausted
      else if any (uses organization (generated_sku number)) s.products
      then (if recovery
          then fails changed_repeatedly
          else retry (λ maximum. max number (maximum + 1)) (occupied_max organization s))
      else after_save organization number s
          (save_product organization (record product { sku = generated_sku number }) s)

  -- The second round, `recovery == 1`.
  abbrev pub finish : Attempt → Result SkuError (Product × Store)
  finish (done row s) = ok (row, s)
  finish (fails e) = err e
  finish (again number) = err changed_repeatedly

  abbrev pub recover : ℕ → Product → Store → Attempt → Result SkuError (Product × Store)
  recover organization product s (done row s') = ok (row, s')
  recover organization product s (fails e) = err e
  recover organization product s (again number) =
      finish (attempt true organization number product s)

  -- `for recovery in range(2)` with a counter
  unfoldable pub allocate : ℕ → ℕ → Product → Store → Result SkuError (Product × Store)
  unfolding attempt
  allocate organization number product s =
      recover organization product s (attempt false organization number product s)

  abbrev pub saved_as : Saved → Result SkuError (Product × Store)
  saved_as (stored row s) = ok (row, s)
  saved_as conflict = err sku_in_use
  saved_as (refused e) = err e

  -- The loop with a SKU that was supplied.
  unfoldable pub save_supplied : ℕ → Text → Product → Store → Result SkuError (Product × Store)
  unfolding save_product
  save_supplied organization sku product s =
      if any (uses organization sku) s.products
      then err sku_in_use
      else saved_as (save_product organization (record product { sku = sku }) s)

  abbrev pub numbered :
      ℕ → Product → Result SkuError (ℕ × Store) → Result SkuError (Product × Store)
  numbered organization product (err e) = err e
  numbered organization product (ok (number, s)) = allocate organization number product s

  abbrev pub may_create : Store → ℕ → Option User → Bool
  may_create s organization none = true
  may_create s organization (some actor) =
      has_tenant_permission s.memberships (some actor) (some organization)
        PermissionCode.products_create none

  abbrev pub log_created : ℕ → Option User → Product → Store → Store
  log_created organization none row s = s
  log_created organization (some actor) row s = record s {
    audit =
        s.audit
        ++ (record {
          organization_id = organization;
          actor_id = actor.pk;
          sku = row.sku;
          name = row.name;
        })
          ∷ [];
  }

  -- `save_purchase_product` without `_backfill`; no organization is 0.
  unfoldable pub save_purchase_product :
      ℕ → Text → Option User → Product → Store → Result SkuError (Product × Store)
  unfolding validate_manual_sku locked_counter allocate save_supplied
  save_purchase_product organization supplied_sku actor product s = do
    raise_if (organization == 0) no_business
    raise_if (is_saved product.pk) existing_product
    raise_if
        (foreign organization product.tenant_id || foreign organization product.organization_id)
        foreign_product
    raise_if (not (product.quantity == 0) || not (product.stock == 0)) stocked_product
    raise_if (not (may_create s organization actor)) no_permission
    let owned : Product = record product {
      tenant_id = some organization;
      organization_id = some organization;
    }
    sku ← validate_manual_sku upper_wide supplied_sku []
    (row, kept) ←
        (if is_empty sku
          then numbered organization owned (locked_counter organization s)
          else save_supplied organization sku owned s)
    ok (row, log_created organization actor row kept)
