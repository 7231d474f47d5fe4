-- ===== src/Cart/Removing.antt =====
-- internal/cart/repository/cart.go: RemoveProduct.
use scalable_e_commerce_plat.Base.{
  String, ◌≡◌, ◌&&◌, none, some, List, [], ◌∷◌, ◌==◌, eq_iff, arith, ap, sym, subst, ◌∙◌, inl, inr,
  ◌⊎◌, Option-cases, if◌then◌else◌,
}
use scalable_e_commerce_plat.Dbs.{Engine}
use scalable_e_commerce_plat.Dbs.Rows.{first_where, delete_rows}
use scalable_e_commerce_plat.Cart.Model.{Cart, CartLine, CartTables}
use scalable_e_commerce_plat.Cart.Repository.{is_line, delete_line, remove_product}
use scalable_e_commerce_plat.Cart.Contents.{cart_of, quantity, IsTidy, IsFresh, same_user, no_user}
use scalable_e_commerce_plat.Cart.Steps.{
  Fails, delete_line_lem, rolled_back, committed, with_locked_cart-Committed,
}
use scalable_e_commerce_plat.Cart.Adding.{get_or_create_locked_cart-IsLocked}

module _ {F : Type 0} where
  abbrev without_line : String → String → CartTables F → CartTables F
  without_line cart_id product_id s = record s {
    cart_lines = delete_rows (is_line cart_id product_id) s.cart_lines;
  }

  line_in-without_line :
      (x q cart_id product_id : String) (rows : List (CartLine F))
      → first_where (is_line x q) (delete_rows (is_line cart_id product_id) rows)
        ≡ (if cart_id == x && product_id == q then none else first_where (is_line x q) rows)
  line_in-without_line x q cart_id product_id [] = ground arith
  line_in-without_line x q cart_id product_id (r ∷ rows) = ground (
    arith,
    line_in-without_line x q cart_id product_id rows,
    eq_iff r.cart_id x,
    eq_iff r.cart_id cart_id,
    eq_iff r.product_id q,
    eq_iff r.product_id product_id,
    eq_iff cart_id x,
    eq_iff product_id q,
  )

  quantity-without_line :
      (user_id product_id : String) (cart : Cart F) (s : CartTables F)
      → IsTidy s
      → cart_of s user_id ≡ some cart
      → (u q : String)
      → quantity (without_line cart.id product_id s) u q
        ≡ (if user_id == u && product_id == q then none else quantity s u q)
  quantity-without_line user_id product_id cart s tidy e u q = elim (Option-cases (cart_of s u)) [
    | inl g ↦ ground (arith, g, no_user user_id u cart s e g)
    | inr (c, g) ↦ ground (
      arith,
      g,
      line_in-without_line c.id q cart.id product_id s.cart_lines,
      same_user user_id u cart c s tidy e g,
    )
  ]

  pub record IsRemoved (user_id product_id : String) (s s' : CartTables F) : Type 0 where
    pub tidy : IsTidy s'
    pub chosen :
        (u q : String)
        → quantity s' u q ≡ (if user_id == u && product_id == q then none else quantity s u q)

module _ {F : Type 0} (db : Engine) where
  -- RemoveProduct of the cart repository, where no two users share a cart and the new id is no
  -- cart's, fails and changes no table, or takes the product out of the user's cart and leaves
  -- every other choice of every user as before; still no two users share a cart.
  pub remove_product-IsRemoved :
      (uuid user_id product_id : String) (s : CartTables F)
      → IsTidy s
      → IsFresh uuid s
      → let out = remove_product db uuid user_id product_id s in
        (Fails out × (out.1 ≡ s)) ⊎ IsRemoved user_id product_id s out.1
  unfolding remove_product
  remove_product-IsRemoved uuid user_id product_id s tidy fresh =
      elim (with_locked_cart-Committed db uuid user_id (delete_line db product_id) s) [
        | rolled_back f e ↦ inl (f, e)
        | committed cart s1 e fine out ↦
            let locked =
              get_or_create_locked_cart-IsLocked db uuid user_id s cart s1 tidy fresh e in
            elim (delete_line_lem db product_id cart s1) [
              | inl f ↦ absurd (ground (arith, f, fine))
              | inr f ↦
                  let gone =
                    quantity-without_line user_id product_id cart s1 locked.tidy locked.has in
                  inr (
                    subst (IsRemoved user_id product_id s) (sym (out ∙ ap (λ x. x.1) f)) (record {
                      tidy = locked.tidy;
                      chosen = λ u q. ground (arith, gone u q, locked.same u q);
                    }))
            ]
      ]
