-- ===== src/Cart/Steps.antt =====
-- internal/cart/repository/cart.go: the statements of its transactions, one by one.
use scalable_e_commerce_plat.Base.{
  ℕ, ◌≤◌, String, ◌≡◌, refl, Bool, true, false, none, some, List, [], ◌∷◌, eq_iff, arith, inl, inr,
  ◌⊎◌, Option-cases, Result-cases, Result, ok, err, ◌>>=◌, ◌>>◌, Action,
}
use scalable_e_commerce_plat.Dbs.{Engine}
use scalable_e_commerce_plat.Dbs.Rows.{first_violated, delete_rows}
use scalable_e_commerce_plat.Dbs.Keyed.{first_where-snoc}
use scalable_e_commerce_plat.Cart.Model.{Cart, CartLine, CartTables, before_create}
use scalable_e_commerce_plat.Cart.Repository.{
  of_user, is_line, cart_keys, new_cart, new_line, refuses_quantity, lacks_user, lacks_product,
  get_or_create_locked_cart, preload, load_cart, insert_line, delete_line, with_locked_cart,
}
use scalable_e_commerce_plat.Cart.Contents.{cart_of, line_in, with_cart, with_line}

nothing_violated : {F : Type 0} (rows : List (CartLine F)) → first_violated (λ _. []) rows ≡ none
nothing_violated [] = refl
nothing_violated (r ∷ rows) = nothing_violated rows

-- A failure, whatever it leaves: the transaction takes it back.
abbrev pub is_err : {A : Type 0} → Result A → Bool
is_err (ok a) = false
is_err (err e) = true

abbrev pub Fails : {F A : Type 0} → Result A × CartTables F → Type 0
Fails out = is_err out.0 ≡ true

module _ {F : Type 0} (db : Engine) where
  pub data Ensured (uuid user_id : String) (s : CartTables F) (out : Result (Cart F) × CartTables F)
      : Type 0 where
    not_ensured : Fails out → Ensured uuid user_id s out
    found :
        (cart : Cart F)
        → cart_of s user_id ≡ some cart
        → out ≡ (ok cart, s)
        → Ensured uuid user_id s out
    created :
        cart_of s user_id ≡ none
        → out ≡ (ok (new_cart uuid user_id), with_cart uuid user_id s)
        → Ensured uuid user_id s out

  pub get_or_create_locked_cart-Ensured :
      (uuid user_id : String) (s : CartTables F)
      → Ensured uuid user_id s (get_or_create_locked_cart db uuid user_id s)
  unfolding get_or_create_locked_cart before_create
  get_or_create_locked_cart-Ensured uuid user_id s =
      let ensure =
        db.insert_ignoring_replies (Cart F) none (of_user user_id) (cart_keys uuid)
          (lacks_user user_id s) (new_cart uuid user_id) s.carts in
      elim ensure [
        | inr (n, e) ↦ not_ensured (ground (arith, e))
        | inl e ↦ elim (Option-cases (cart_of s user_id)) [
          | inr (cart, g) ↦ elim (db.first_replies (Cart F) (of_user user_id) s.carts) [
            | inr (n, f) ↦ not_ensured (ground (arith, e, g, f))
            | inl f ↦ found cart g (ground (arith, e, g, f))
          ]
          | inl g ↦ elim (Option-cases (first_violated (cart_keys uuid) s.carts)) [
            | inr (k, v) ↦ not_ensured (ground (arith, e, g, v))
            | inl v ↦ elim (Option-cases (lacks_user user_id s)) [
              | inr (l, w) ↦ not_ensured (ground (arith, e, g, v, w))
              | inl w ↦
                  let rows = (with_cart uuid user_id s).carts in
                  let last = first_where-snoc (of_user user_id) s.carts (new_cart uuid user_id) in
                  elim (db.first_replies (Cart F) (of_user user_id) rows) [
                    | inr (n, f) ↦ not_ensured (ground (arith, e, g, v, w, f))
                    | inl f ↦
                        created g (ground (arith, e, g, v, w, f, last, eq_iff user_id user_id))
                  ]
            ]
          ]
        ]
      ]

  pub data LineAdded (cart : Cart F) (product_id : String) (n : ℕ) (s : CartTables F)
      (out : Result (Unit {0}) × CartTables F) : Type 0 where
    not_added : Fails out → LineAdded cart product_id n s out
    kept :
        (line : CartLine F)
        → line_in s cart.id product_id ≡ some line
        → out ≡ (ok tt, s)
        → LineAdded cart product_id n s out
    added :
        line_in s cart.id product_id ≡ none
        → 1 ≤ n
        → out ≡ (ok tt, with_line cart.id product_id n s)
        → LineAdded cart product_id n s out

  pub insert_line-LineAdded :
      (product_id : String) (n : ℕ) (cart : Cart F) (s : CartTables F)
      → LineAdded cart product_id n s (insert_line db product_id n cart s)
  unfolding insert_line
  insert_line-LineAdded product_id n cart s =
      let line = is_line cart.id product_id in
      elim (db.insert_ignoring_replies (CartLine F) (refuses_quantity n) line (λ _. [])
        (lacks_product product_id s) (new_line cart.id product_id n) s.cart_lines) [
          | inr (m, e) ↦ not_added (ground (arith, e))
          | inl e ↦ elim (Option-cases (refuses_quantity n)) [
            | inr (x, r) ↦ not_added (ground (arith, e, r))
            | inl r ↦ elim (Option-cases (line_in s cart.id product_id)) [
              | inr (l, g) ↦ kept l g (ground (arith, e, r, g))
              | inl g ↦ elim (Option-cases (lacks_product product_id s)) [
                | inr (x, w) ↦ not_added (ground (arith, e, r, g, w, nothing_violated s.cart_lines))
                | inl w ↦
                    added g (ground (arith, r))
                      (ground (arith, e, r, g, w, nothing_violated s.cart_lines))
              ]
            ]
          ]
        ]

  pub delete_line_lem :
      (product_id : String) (cart : Cart F) (s : CartTables F)
      → Fails (delete_line db product_id cart s)
        ⊎ (delete_line db product_id cart s ≡ (
          ok tt,
          record s { cart_lines = delete_rows (is_line cart.id product_id) s.cart_lines },
        ))
  unfolding delete_line
  delete_line_lem product_id cart s =
      elim (db.delete_replies (CartLine F) (is_line cart.id product_id) s.cart_lines) [
        | inr (n, e) ↦ inl (ground (arith, e))
        | inl e ↦ inr (ground (arith, e))
      ]

  -- A load reads.
  pub load_cart_reads : (user_id : String) (s : CartTables F) → (load_cart db user_id s).1 ≡ s
  unfolding load_cart preload
  load_cart_reads user_id s = ground arith

  -- What a transaction of the cart comes to: the statements have succeeded on the locked cart, or
  -- nothing is written.
  pub data Committed (uuid user_id : String) (mutate : Cart F → Action (CartTables F) (Unit {0}))
      (s : CartTables F) (out : Result (Cart F) × CartTables F) : Type 0 where
    rolled_back : Fails out → out.1 ≡ s → Committed uuid user_id mutate s out
    committed :
        (cart : Cart F) (s1 : CartTables F)
        → get_or_create_locked_cart db uuid user_id s ≡ (ok cart, s1)
        → is_err (mutate cart s1).0 ≡ false
        → out.1 ≡ (mutate cart s1).1
        → Committed uuid user_id mutate s out

  pub with_locked_cart-Committed :
      (uuid user_id : String) (mutate : Cart F → Action (CartTables F) (Unit {0}))
      (s : CartTables F)
      → Committed uuid user_id mutate s (with_locked_cart db uuid user_id mutate s)
  unfolding with_locked_cart
  with_locked_cart-Committed uuid user_id mutate s =
      elim (db.transaction_settles (CartTables F) (Cart F)
        (get_or_create_locked_cart db uuid user_id >>= λ cart. mutate cart >> load_cart db user_id)
        s) [
          | inr (n, e) ↦ rolled_back (ground (arith, e)) (ground (arith, e))
          | inl e ↦
              let (first, s1) = get_or_create_locked_cart db uuid user_id s in
              elim (Result-cases first) [
                | inr (x, f) ↦ rolled_back (ground (arith, e, f)) (ground (arith, e, f))
                | inl (cart, f) ↦ elim (Result-cases (mutate cart s1).0) [
                  | inr (x, g) ↦ rolled_back (ground (arith, e, f, g)) (ground (arith, e, f, g))
                  | inl (u, g) ↦
                      let s2 = (mutate cart s1).1 in
                      let same = load_cart_reads user_id s2 in
                      elim (Result-cases (load_cart db user_id s2).0) [
                        | inr (x, h) ↦
                            rolled_back (ground (arith, e, f, g, h)) (ground (arith, e, f, g, h))
                        | inl (loaded, h) ↦
                            committed cart s1 (λ i. (f i, s1)) (ground (arith, g))
                              (ground (arith, e, f, g, h, same))
                      ]
                ]
              ]
        ]
