-- ===== src/Cart/Adding.antt =====
-- internal/cart/repository/cart.go: AddProduct.
use scalable_e_commerce_plat.Base.{
  ℕ, ◌≤◌, String, ◌≡◌, refl, false, ◌&&◌, Option, none, some, ◌==◌, eq_iff, arith, sym, subst, ◌∙◌,
  inl, inr, ◌⊎◌, Bool-cases, Result, ok, err, if◌then◌else◌,
}
use scalable_e_commerce_plat.Dbs.{Engine}
use scalable_e_commerce_plat.Dbs.Keyed.{first_where-snoc}
use scalable_e_commerce_plat.Cart.Model.{Cart, CartTables, before_create}
use scalable_e_commerce_plat.Cart.Repository.{
  of_user, new_cart, get_or_create_locked_cart, insert_line, add_product,
}
use scalable_e_commerce_plat.Cart.Contents.{
  cart_of, quantity, IsTidy, IsFresh, with_cart, quantity-with_cart, IsTidy-with_cart,
  quantity-with_line,
}
use scalable_e_commerce_plat.Cart.Steps.{
  is_err, Fails, not_ensured, found, created, get_or_create_locked_cart-Ensured, not_added, kept,
  added, insert_line-LineAdded, rolled_back, committed, with_locked_cart-Committed,
}

-- What is chosen once the product is there: the first choice stays.
abbrev pub or_else : ℕ → Option ℕ → ℕ
or_else n none = n
or_else n (some old) = old

module _ {F : Type 0} where
  -- The cart of the user is there, and nobody's choice has changed.
  pub record IsLocked (user_id : String) (s : CartTables F) (cart : Cart F) (s1 : CartTables F)
      : Type 0 where
    pub tidy : IsTidy s1
    pub has : cart_of s1 user_id ≡ some cart
    pub same : (u q : String) → quantity s1 u q ≡ quantity s u q

  pub record IsAdded (user_id product_id : String) (n : ℕ) (s s' : CartTables F) : Type 0 where
    pub tidy : IsTidy s'
    pub positive : quantity s user_id product_id ≡ none → 1 ≤ n
    pub chosen :
        (u q : String)
        → quantity s' u q ≡ (
            if user_id == u && product_id == q
            then some (or_else n (quantity s user_id product_id))
            else quantity s u q)

module _ {F : Type 0} (db : Engine) where
  created_cart :
      (uuid user_id : String) (s : CartTables F)
      → cart_of s user_id ≡ none
      → cart_of (with_cart uuid user_id s) user_id ≡ some (new_cart uuid user_id)
  unfolding before_create
  created_cart uuid user_id s g = ground (
    arith,
    g,
    first_where-snoc (of_user user_id) s.carts (new_cart uuid user_id),
    eq_iff user_id user_id,
  )

  pub get_or_create_locked_cart-IsLocked :
      (uuid user_id : String) (s : CartTables F) (cart : Cart F) (s1 : CartTables F)
      → IsTidy s
      → IsFresh uuid s
      → get_or_create_locked_cart db uuid user_id s ≡ (ok cart, s1)
      → IsLocked user_id s cart s1
  get_or_create_locked_cart-IsLocked uuid user_id s cart s1 tidy fresh e =
      elim (get_or_create_locked_cart-Ensured db uuid user_id s) [
        | not_ensured f ↦ absurd (ground (arith, e, f))
        | found c g f ↦
            subst
              (λ (x : Result (Cart F) × CartTables F). elim x.0 [
                | ok y ↦ IsLocked user_id s y x.1
                | err z ↦ Unit
              ])
              (sym f ∙ e) (record { tidy = tidy; has = g; same = λ u q. refl })
        | created g f ↦
            subst
              (λ (x : Result (Cart F) × CartTables F). elim x.0 [
                | ok y ↦ IsLocked user_id s y x.1
                | err z ↦ Unit
              ])
              (sym f ∙ e)
              (record {
                tidy = IsTidy-with_cart uuid user_id s fresh g tidy;
                has = created_cart uuid user_id s g;
                same = quantity-with_cart uuid user_id s fresh g;
              })
      ]

  insert_line-IsAdded :
      (user_id product_id : String) (n : ℕ) (cart : Cart F) (s : CartTables F)
      → IsTidy s
      → cart_of s user_id ≡ some cart
      → is_err (insert_line db product_id n cart s).0 ≡ false
      → IsAdded user_id product_id n s (insert_line db product_id n cart s).1
  insert_line-IsAdded user_id product_id n cart s tidy has fine =
      elim (insert_line-LineAdded db product_id n cart s) [
        | not_added f ↦ absurd (ground (arith, f, fine))
        | kept line g f ↦
            let now : quantity s user_id product_id ≡ some line.quantity = ground (arith, has, g) in
            subst (λ (x : Result (Unit {0}) × CartTables F). IsAdded user_id product_id n s x.1)
              (sym f)
              (record {
                tidy = tidy;
                positive = λ e. absurd (ground (arith, e, now));
                chosen = λ u q. elim (Bool-cases (user_id == u && product_id == q)) [
                  | inr t ↦ ground (arith, t)
                  | inl t ↦
                      let user : user_id ≡ u = (eq_iff user_id u).0 (ground (arith, t)) in
                      let product : product_id ≡ q = (eq_iff product_id q).0 (ground (arith, t)) in
                      let here : quantity s u q ≡ some line.quantity =
                        (λ i. quantity s (sym user i) (sym product i)) ∙ now in
                      ground (arith, t, now, here)
                ];
              })
        | added g one f ↦
            subst (λ (x : Result (Unit {0}) × CartTables F). IsAdded user_id product_id n s x.1)
              (sym f)
              (record {
                tidy = tidy;
                positive = λ e. one;
                chosen = λ u q.
                    ground (
                      arith,
                      quantity-with_line user_id product_id n cart s tidy has g u q,
                      has,
                      g,
                    );
              })
      ]

  -- AddProduct of the cart repository, where no two users share a cart and the new id is no cart's,
  -- fails and changes no table, or acts on the chosen quantities alone: the user has the quantity
  -- of the product that was in the cart already, or else the given one, which is then positive, and
  -- every other choice of every user is as before; still no two users share a cart.
  pub add_product-IsAdded :
      (uuid user_id product_id : String) (n : ℕ) (s : CartTables F)
      → IsTidy s
      → IsFresh uuid s
      → let out = add_product db uuid user_id product_id n s in
        (Fails out × (out.1 ≡ s)) ⊎ IsAdded user_id product_id n s out.1
  unfolding add_product
  add_product-IsAdded uuid user_id product_id n s tidy fresh =
      elim (with_locked_cart-Committed db uuid user_id (insert_line db product_id n) s) [
        | rolled_back f e ↦ inl (f, e)
        | committed cart s1 e fine out ↦
            let locked = get_or_create_locked_cart-IsLocked uuid user_id s cart s1 tidy fresh e in
            let new =
              insert_line-IsAdded user_id product_id n cart s1 locked.tidy locked.has fine in
            inr (
              subst (IsAdded user_id product_id n s) (sym out) (record {
                tidy = new.tidy;
                positive = λ h. new.positive (locked.same user_id product_id ∙ h);
                chosen = λ u q.
                    ground (arith, new.chosen u q, locked.same u q, locked.same user_id product_id);
              }))
      ]
