-- ===== src/Product/Written.antt =====
-- internal/product/service/product.go: what Create and Update leave of the products.
use scalable_e_commerce_plat.Base.{
  String, Bool, ◌≡◌, ◌⊎◌, inl, inr, false, refl, none, some, Option, List, [], ◌∷◌, ◌++◌, ok, err,
  Error, Result-cases, Bool-cases, Option-cases, ◌==◌, arith, engine, other, record_not_found,
  unique_violation, Fault, if◌then◌else◌,
}
use scalable_e_commerce_plat.Dbs.{Engine}
use scalable_e_commerce_plat.Dbs.Rows.{first_where, save_row, first_violated, write_row}
use scalable_e_commerce_plat.Dbs.Keyed.{find_key, find_key-key}
use scalable_e_commerce_plat.Money.{Floats, to_minor_units}
use scalable_e_commerce_plat.Store.{Tables, write_products}
use scalable_e_commerce_plat.Order.Model.{Product}
use scalable_e_commerce_plat.Product.Repository as Products
use scalable_e_commerce_plat.Product.Repository.{
  Env, CreateProductReq, UpdateProductReq, created, updated, refused, violates,
}
use scalable_e_commerce_plat.Product.Service as Service
use scalable_e_commerce_plat.Product.Service.{copied, is_zero}

first_where-never : {R : Type 0} (rows : List R) → first_where (λ _. false) rows ≡ none
first_where-never [] = refl
first_where-never (r ∷ rows) = first_where-never rows

-- A write that succeeds has saved the row.
write_row_saves :
    {R : Type 0} (bad : Option Fault) (same : R → Bool) (violates : R → List String) (row : R)
    (rows : List R)
    → ((e : Error) × (write_row bad same violates row rows ≡ err e))
      ⊎ (write_row bad same violates row rows ≡ ok (save_row same row rows))
write_row_saves (some f) same violates row rows = inl (engine f, refl)
write_row_saves none same violates row rows =
    elim (Option-cases (first_violated (λ r. if same r then [] else violates r) rows)) [
      | inl z ↦ inr (ground (arith, z))
      | inr (c, z) ↦ inl (engine (unique_violation c), ground (arith, z))
    ]

module _ (fl : Floats) (db : Engine) (env : Env fl.Float) where
  saved_lem :
      (product : Product fl.Float) (s : Tables fl.Float)
      → let row = updated fl db env product in
        ((e : Error) × (Products.update fl db env product s ≡ (err e, s)))
        ⊎ (Products.update fl db env product s
            ≡ (ok row, write_products (save_row (λ p. p.id == row.id) row s.products) s))
  unfolding Products.update
  saved_lem product s =
      let row = updated fl db env product in
      elim (db.write_replies (Product fl.Float) (refused fl db env row) (λ p. p.id == row.id)
        (violates row) row s.products) [
          | inr (n, f) ↦ inl (engine (other n), ground (arith, f))
          | inl f ↦
              elim (write_row_saves (refused fl db env row) (λ p. p.id == row.id) (violates row) row
                s.products) [
                  | inl (e, g) ↦ inl (e, ground (arith, f, g))
                  | inr g ↦ inr (ground (arith, f, g))
                ]
        ]

  inserted_lem :
      (product : Product fl.Float) (s : Tables fl.Float)
      → let row = created fl db env product in
        ((e : Error) × (Products.create fl db env product s ≡ (err e, s)))
        ⊎ (Products.create fl db env product s
            ≡ (ok row, write_products (s.products ++ (row ∷ [])) s))
  unfolding Products.create
  inserted_lem product s =
      let row = created fl db env product in
      elim (db.write_replies (Product fl.Float) (refused fl db env row) (λ _. false) (violates row)
        row s.products) [
          | inr (n, f) ↦ inl (engine (other n), ground (arith, f))
          | inl f ↦
              elim (write_row_saves (refused fl db env row) (λ _. false) (violates row) row
                s.products) [
                  | inl (e, g) ↦ inl (e, ground (arith, f, g))
                  | inr g ↦ inr (ground (arith, f, g, first_where-never s.products))
                ]
        ]

  pub create_lem :
      (req : CreateProductReq fl.Float) (s : Tables fl.Float)
      → ((e : Error) × (Service.create fl db env req s ≡ (err e, s)))
        ⊎ ((row : Product fl.Float) × (Service.create fl db env req s
              ≡ (ok row, write_products (s.products ++ (row ∷ [])) s)))
  unfolding Service.create
  create_lem req s =
      let product : Product fl.Float = record {
        id = "";
        code = "";
        name = req.name;
        description = req.description;
        price = req.price;
        active = false;
        created_at = 0;
        updated_at = 0;
      } in
      elim (Result-cases (env.validate_create req)) [
        | inr (e, a) ↦ inl (e, ground (arith, a))
        | inl (u, a) ↦ elim (Result-cases (to_minor_units fl req.price)) [
          | inr (e, b) ↦ inl (e, ground (arith, a, b))
          | inl (v, b) ↦ elim (inserted_lem product s) [
            | inl (e, f) ↦ inl (e, ground (arith, a, b, f))
            | inr f ↦ inr (created fl db env product, ground (arith, a, b, f))
          ]
        ]
      ]

  found_lem :
      (id : String) (s : Tables fl.Float)
      → ((e : Error) × (Products.get_product_by_id fl db env id s ≡ (err e, s)))
        ⊎ ((row : Product fl.Float) × (row.id ≡ id)
            × (Products.get_product_by_id fl db env id s ≡ (ok row, s)))
  unfolding Products.get_product_by_id
  found_lem id s = elim (db.first_replies (Product fl.Float) (λ p. p.id == id) s.products) [
    | inr (n, f) ↦ inl (engine (other n), ground (arith, f))
    | inl f ↦ elim (Option-cases (find_key (λ (p : Product fl.Float). p.id) id s.products)) [
      | inl z ↦ inl (engine record_not_found, ground (arith, f, z))
      | inr (row, z) ↦ inr (
        row,
        find_key-key (λ (p : Product fl.Float). p.id) id s.products row z,
        ground (arith, f, z),
      )
    ]
  ]

  update_found :
      (req : UpdateProductReq fl.Float) (id : String) (s : Tables fl.Float) (old : Product fl.Float)
      → old.id ≡ id
      → Service.update fl db env id req s ≡ Products.update fl db env (copied fl db env req old) s
      → ((e : Error) × (Service.update fl db env id req s ≡ (err e, s)))
        ⊎ ((row : Product fl.Float) × (row.id ≡ id)
            × (Service.update fl db env id req s
                ≡ (ok row, write_products (save_row (λ p. p.id == row.id) row s.products) s)))
  update_found req id s old same f = elim (saved_lem (copied fl db env req old) s) [
    | inl (e, g) ↦ inl (e, ground (arith, f, g))
    | inr g ↦ inr (updated fl db env (copied fl db env req old), same, ground (arith, f, g))
  ]

  pub update_lem :
      (id : String) (req : UpdateProductReq fl.Float) (s : Tables fl.Float)
      → ((e : Error) × (Service.update fl db env id req s ≡ (err e, s)))
        ⊎ ((row : Product fl.Float) × (row.id ≡ id)
            × (Service.update fl db env id req s
                ≡ (ok row, write_products (save_row (λ p. p.id == row.id) row s.products) s)))
  unfolding Service.update
  update_lem id req s = elim (Result-cases (env.validate_update req)) [
    | inr (e, a) ↦ inl (e, ground (arith, a))
    | inl (u, a) ↦ elim (found_lem id s) [
      | inl (e, f) ↦ elim (Bool-cases (is_zero fl db env req.price)) [
        | inl z ↦ inl (e, ground (arith, a, z, f))
        | inr z ↦ elim (Result-cases (to_minor_units fl req.price)) [
          | inr (x, b) ↦ inl (x, ground (arith, a, z, b))
          | inl (v, b) ↦ inl (e, ground (arith, a, z, b, f))
        ]
      ]
      | inr (old, same, f) ↦ elim (Bool-cases (is_zero fl db env req.price)) [
        | inl z ↦ update_found req id s old same (ground (arith, a, z, f))
        | inr z ↦ elim (Result-cases (to_minor_units fl req.price)) [
          | inr (x, b) ↦ inl (x, ground (arith, a, z, b))
          | inl (v, b) ↦ update_found req id s old same (ground (arith, a, z, b, f))
        ]
      ]
    ]
  ]
