-- ===== src/Products/Creation/Recovery.antt =====
-- The rounds of the allocation of a SKU: products/creation.py.
use internet_ms.Base.{
  ℕ, suc, ◌+◌, ◌≤◌, ◌<◌, ◌≡◌, ◌∙◌, refl, sym, ap, Bool, true, false, Option, none, some, List, [],
  ◌∷◌, ◌++◌, ltb, any, any-fewer, max, arith, Bool-cases, inl, inr,
}
use internet_ms.Base.Text.{Text, strip, text_eq, text_eq_refl, text_eq-eq}
use internet_ms.Base.Result.{Result, ok, >>=-eq-ok}
use internet_ms.Products.Sku.{SkuError, max_number, generated_sku, upper}
use internet_ms.Products.Sku.Generated.{normal-generated_number, normal_sku}
use internet_ms.Products.Creation.{
  Product, Store, done, again, is_of, save_counter, number_or, starts_generated, row_number, scan,
  occupied_max, uses, clashes, save_product, attempt, allocate, recover, finish,
}

starts-generated_sku : (n : ℕ) → starts_generated (generated_sku n) ≡ true
unfolding starts_generated generated_sku
starts-generated_sku n = refl

-- The row that is stored for a free number.
abbrev pub numbered_row : ℕ → Product → Store → Product
numbered_row n product s = record product { pk = some s.next_pk; sku = generated_sku n }

abbrev pub numbered_store : ℕ → ℕ → Product → Store → Store
numbered_store organization n product s =
    save_counter organization (n + 1)
      (record s { products = s.products ++ numbered_row n product s ∷ []; next_pk = suc s.next_pk })

number_or-above : (acc : ℕ) (o : Option ℕ) → acc ≤ number_or acc o
number_or-above acc none = omega arith
number_or-above acc (some n) = omega arith

abbrev the_result : Option ℕ → Result SkuError (Option ℕ)
the_result o = ok o

ok-eq : {a b : Option ℕ} → the_result a ≡ ok b → a ≡ b
ok-eq e = cc

module _ (upper_wide : ℕ → Text) (db_normal : Text → Text) (valid_product : Product → Bool)
    -- What the database brings to the form of an allocated SKU, `strip` and `upper` bring there too.
    (normal_forms_meet : (t : Text) (n : ℕ)
      → db_normal t ≡ generated_sku n
      → upper upper_wide (strip t) ≡ generated_sku n) where
  row_number-ok :
      (organization n : ℕ) (x : Product)
      → uses upper_wide db_normal valid_product organization (generated_sku n) x ≡ true
      → n ≤ max_number
      → row_number upper_wide db_normal valid_product organization x ≡ ok (some n)
  unfolding row_number
  row_number-ok organization n x h small =
      let normal : db_normal x.sku ≡ generated_sku n =
        text_eq-eq (db_normal x.sku) (generated_sku n) (ground (arith, h)) in
      let own : is_of organization x.tenant_id ≡ true = ground (arith, h) in
      rw (own, normal, starts-generated_sku n)
        (normal-generated_number upper_wide x.sku n (normal_forms_meet x.sku n normal) small)

  -- The scan's result is no less than where it starts, and than the number of any allocated SKU.
  scan-bound :
      (organization n : ℕ) (xs : List Product) (acc maximum : ℕ)
      → n ≤ max_number
      → scan upper_wide db_normal valid_product organization acc xs ≡ ok maximum
      → (acc ≤ maximum)
        × (any (uses upper_wide db_normal valid_product organization (generated_sku n)) xs ≡ true
            → n ≤ maximum)
  unfolding scan
  scan-bound organization n [] acc maximum small h =
      let same : acc ≡ maximum = cc in (omega (arith, same), λ e. cc)
  scan-bound organization n (x ∷ xs) acc maximum small h =
      let (number, reads, h1) =
        >>=-eq-ok (row_number upper_wide db_normal valid_product organization x) _ _ h in
      let (above, later) = scan-bound organization n xs (number_or acc number) maximum small h1 in
      (
        omega (arith, above, number_or-above acc number),
        λ e.
            elim (Bool-cases
              (uses upper_wide db_normal valid_product organization (generated_sku n) x)) [
                | inl used ↦
                    let same : number ≡ some n =
                      ok-eq (sym reads ∙ row_number-ok organization n x used small) in
                    let least : max acc n ≤ maximum = rw (sym (ap (number_or acc) same)) above in
                    omega (arith, least)
                | inr free ↦ later (ground (arith, e, free))
              ],
      )

  free_above :
      (organization n maximum : ℕ) (s : Store)
      → occupied_max upper_wide db_normal valid_product organization s ≡ ok maximum
      → n ≤ max_number
      → maximum < n
      → any (uses upper_wide db_normal valid_product organization (generated_sku n)) s.products
        ≡ false
  unfolding occupied_max
  free_above organization n maximum s h small above =
      let bound = (scan-bound organization n s.products 0 maximum small h).1 in
      elim (Bool-cases
        (any (uses upper_wide db_normal valid_product organization (generated_sku n)) s.products)) [
          | inl used ↦ absurd (omega (arith, above, bound used))
          | inr free ↦ free
        ]

  module _ (db_keeps : (n : ℕ) → db_normal (generated_sku n) ≡ generated_sku n) where
    clashes-uses :
        (organization n : ℕ) (x : Product)
        → clashes upper_wide db_normal valid_product organization (generated_sku n) x ≡ true
        → uses upper_wide db_normal valid_product organization (generated_sku n) x ≡ true
    clashes-uses organization n x h = elim (Bool-cases (text_eq x.sku (generated_sku n))) [
      | inl same ↦
          let normal : db_normal x.sku ≡ generated_sku n =
            ap db_normal (text_eq-eq x.sku (generated_sku n) same) ∙ db_keeps n in
          let equal : text_eq (db_normal x.sku) (generated_sku n) ≡ true =
            ap (λ t. text_eq t (generated_sku n)) normal ∙ text_eq_refl (generated_sku n) in
          ground (arith, h, equal)
      | inr other ↦
          let equal : text_eq (db_normal x.sku) (db_normal (generated_sku n)) ≡ true =
            ground (arith, h, other) in
          let equal2 : text_eq (db_normal x.sku) (generated_sku n) ≡ true =
            ap (text_eq (db_normal x.sku)) (sym (db_keeps n)) ∙ equal in
          ground (arith, h, equal2)
    ]

    attempt_free :
        (recovery : Bool) (organization n : ℕ) (product : Product) (s : Store)
        → n ≤ max_number
        → valid_product (numbered_row n product s) ≡ true
        → any (uses upper_wide db_normal valid_product organization (generated_sku n)) s.products
          ≡ false
        → attempt upper_wide db_normal valid_product recovery organization n product s
          ≡ done (numbered_row n product s) (numbered_store organization n product s)
    unfolding attempt save_product
    attempt_free recovery organization n product s small valid free =
        let in_range : ltb max_number n ≡ false = ground (arith, small) in
        let no_clash =
          any-fewer (clashes upper_wide db_normal valid_product organization (generated_sku n)) _
            s.products (clashes-uses organization n) free in
        rw (in_range, free, normal_sku upper_wide n, valid, no_clash) refl

    attempt_used :
        (organization number maximum : ℕ) (product : Product) (s : Store)
        → occupied_max upper_wide db_normal valid_product organization s ≡ ok maximum
        → number ≤ max_number
        → any
            (uses upper_wide db_normal valid_product organization (generated_sku number))
            s.products
          ≡ true
        → attempt upper_wide db_normal valid_product false organization number product s
          ≡ again (max number (maximum + 1))
    unfolding attempt
    attempt_used organization number maximum product s scanned small used =
        let in_range : ltb max_number number ≡ false = ground (arith, small) in
        rw (in_range, used, scanned) refl

    -- When the scan finds numbers up to `maximum` at the tenant's products, the counter's number and the one
    -- after `maximum` are in range, and the product's row is valid with every allocated SKU, two rounds allocate:
    -- the product is stored under the counter's number, or under a later one, which no product of the tenant
    -- uses, and the counter moves on to the next. The database's normal form keeps allocated SKUs and meets
    -- `strip` and `upper` there.
    pub allocation_recovers :
        (organization number maximum : ℕ) (product : Product) (s : Store)
        → occupied_max upper_wide db_normal valid_product organization s ≡ ok maximum
        → max number (maximum + 1) ≤ max_number
        → ((n : ℕ) → valid_product (numbered_row n product s) ≡ true)
        → (n : ℕ) × (number ≤ n)
          × (any (uses upper_wide db_normal valid_product organization (generated_sku n)) s.products
              ≡ false)
          × (allocate upper_wide db_normal valid_product organization number product s
              ≡ ok (numbered_row n product s, numbered_store organization n product s))
    unfolding allocate
    allocation_recovers organization number maximum product s scanned left valid =
        elim (Bool-cases (
          any (uses upper_wide db_normal valid_product organization (generated_sku number))
            s.products)) [
              | inr free ↦ (
                number,
                omega arith,
                free,
                ap (recover upper_wide db_normal valid_product organization product s) (
                    attempt_free false organization number product s (omega (arith, left))
                      (valid number) free),
              )
              | inl used ↦
                  let n = max number (maximum + 1) in
                  let free = free_above organization n maximum s scanned left (omega arith) in
                  (
                    n,
                    omega arith,
                    free,
                    ap (recover upper_wide db_normal valid_product organization product s) (
                          attempt_used organization number maximum product s scanned
                            (omega (arith, left)) used)
                        ∙ ap (finish upper_wide db_normal valid_product)
                            (attempt_free true organization n product s left (valid n) free),
                  )
            ]
