-- ===== src/Product/Http/Fresh.antt =====
-- internal/product/port/http/handlers.go: the products that Redis holds are those on record. `at`
-- reads the product that Redis holds under a key.
use scalable_e_commerce_plat.Base.{
  ◌≡◌, subst, pos, List, [], ◌∷◌, ◌++◌, ◌⊎◌, some, none, String, arith, Option, Bool-cases, inl,
  inr, false, ◌==◌, eq_iff, sym, ◌∙◌, ok, err, Error, if◌then◌else◌, ℤ,
}
use scalable_e_commerce_plat.Dbs.Rows.{save_row}
use scalable_e_commerce_plat.Dbs.Keyed.{find_key, find_key-append}
use scalable_e_commerce_plat.Dbs.Saved.{find_key-save_row}
use scalable_e_commerce_plat.Order.Model.{Product}
use scalable_e_commerce_plat.Product.Http.Keys.{
  product_detail_cache_key-eq, product_detail_cache_key-version,
}
use scalable_e_commerce_plat.Product.Http.{
  product_detail_cache_key, product_list_cache_version_key, copy_product, product_caching_time,
  ProductRes, ProductCache,
}

module _ {R F : Type 0} (at : R → String → Option (ProductRes F)) where
  -- GET, SET and DEL of a key, and INCR of another, by a Redis that reports no error.
  pub record IsProductCache (cache : ProductCache R F) : Type 0 where
    pub get_lem :
        (key : String) (r : R)
        → ((x : ProductRes F) × (cache.get_product key r ≡ (ok x, r)) × (at r key ≡ some x))
          ⊎ ((e : Error) × (cache.get_product key r ≡ (err e, r)) × (at r key ≡ none))
    pub set_lem :
        (key k : String) (x : ProductRes F) (ttl : ℤ) (r : R)
        → at (cache.set_product key x ttl r).1 k ≡ (if k == key then some x else at r k)
    pub remove_lem :
        (key k : String) (r : R) → at (cache.remove key r).1 k ≡ (if k == key then none else at r k)
    pub increment_lem :
        (key k : String) (ttl : ℤ) (r : R)
        → (k == key) ≡ false
        → at (cache.increment key ttl r).1 k ≡ at r k

abbrev pub id_of : {F : Type 0} → Product F → String
id_of p = p.id

module _ {R F : Type 0} (at : R → String → Option (ProductRes F)) where
  -- A product that Redis holds is the one on record.
  abbrev pub IsFresh : List (Product F) → R → Type 0
  IsFresh products r =
      (id : String)
      → (at r (product_detail_cache_key id) ≡ none)
        ⊎ ((row : Product F) × (find_key id_of id products ≡ some row)
            × (at r (product_detail_cache_key id) ≡ some (copy_product row)))

  pub append-IsFresh :
      (row : Product F) (products : List (Product F)) (r : R)
      → IsFresh products r
      → IsFresh (products ++ (row ∷ [])) r
  append-IsFresh row products r fresh id = elim (fresh id) [
    | inl e ↦ inl e
    | inr (old, z, e) ↦ inr (old, ground (arith, find_key-append id_of id row products, z), e)
  ]

  module _ (cache : ProductCache R F) (laws : IsProductCache at cache) where
    pub increment-IsFresh :
        (products : List (Product F)) (r : R)
        → IsFresh products r
        → IsFresh products (cache.increment product_list_cache_version_key (pos 0) r).1
    increment-IsFresh products r fresh id =
        let same =
          laws.increment_lem product_list_cache_version_key (product_detail_cache_key id) (pos 0) r
            (product_detail_cache_key-version id) in
        elim (fresh id) [ inl e ↦ inl (same ∙ e) | inr (row, z, e) ↦ inr (row, z, same ∙ e) ]

    pub set_product-IsFresh :
        (row : Product F) (id : String) (products : List (Product F)) (r : R)
        → find_key id_of id products ≡ some row
        → IsFresh products r
        → IsFresh products
            (cache.set_product
              (product_detail_cache_key id)
              (copy_product row)
              product_caching_time
              r).1
    set_product-IsFresh row id products r found fresh j =
        let held =
          laws.set_lem (product_detail_cache_key id) (product_detail_cache_key j) (copy_product row)
            product_caching_time r in
        let keys = product_detail_cache_key-eq j id in
        elim (Bool-cases (j == id)) [
          | inl t ↦ inr (
            row,
            subst (λ i. find_key id_of i products ≡ some row) (sym ((eq_iff j id).0 t)) found,
            ground (arith, held, keys, t),
          )
          | inr f ↦ elim (fresh j) [
            | inl e ↦ inl (ground (arith, held, keys, f, e))
            | inr (old, z, e) ↦ inr (old, z, ground (arith, held, keys, f, e))
          ]
        ]

    pub save_row-IsFresh :
        (row : Product F) (id : String) (products : List (Product F)) (r : R)
        → row.id ≡ id
        → IsFresh products r
        → IsFresh
            (save_row (λ p. p.id == row.id) row products)
            (cache.remove (product_detail_cache_key id) r).1
    save_row-IsFresh row id products r same fresh j =
        let held = laws.remove_lem (product_detail_cache_key id) (product_detail_cache_key j) r in
        let keys = product_detail_cache_key-eq j id in
        let rows = find_key-save_row id_of j row products in
        elim (Bool-cases (j == id)) [
          | inl t ↦ inl (ground (arith, held, keys, t))
          | inr f ↦ elim (fresh j) [
            | inl e ↦ inl (ground (arith, held, keys, f, e))
            | inr (old, z, e) ↦ inr (
              old,
              ground (arith, rows, z, same, eq_iff j id, eq_iff row.id j, f),
              ground (arith, held, keys, f, e),
            )
          ]
        ]
