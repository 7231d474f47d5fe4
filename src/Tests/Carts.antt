-- ===== src/Tests/Carts.antt =====
-- A second user who fills a cart.
use scalable_e_commerce_plat.Base.{
  ℕ, ◌≡◌, ◌⊎◌, ◌==◌, eq_iff, refl, ap, arith, some, none, [], ◌∷◌, Bool-cases, inl, inr, String,
  sym, ◌∙◌,
}
use scalable_e_commerce_plat.Dbs.Reference.{reliable}
use scalable_e_commerce_plat.Cart.Model.{Cart, CartTables, before_create}
use scalable_e_commerce_plat.Cart.Repository.{
  get_or_create_locked_cart, preload, load_cart, with_locked_cart, insert_line, delete_line,
  add_product, remove_product,
}
use scalable_e_commerce_plat.Cart.Contents.{cart_of, quantity, IsTidy, IsFresh}
use scalable_e_commerce_plat.Cart.Steps.{Fails}
use scalable_e_commerce_plat.Cart.Adding.{IsAdded, add_product-IsAdded}
use scalable_e_commerce_plat.Cart.Removing.{IsRemoved, remove_product-IsRemoved}

abbrev tables : CartTables ℕ
tables = record {
  users = record { id = "ann"; email = "ann@x" } ∷ record { id = "bob"; email = "bob@x" } ∷ [];
  products = record { id = "tea"; code = "P1"; name = "Tea"; description = ""; price = 250 } ∷ [];
  carts = record { id = "c0"; user_id = "bob"; user = none; lines = [] } ∷ [];
  cart_lines = record { cart_id = "c0"; product_id = "tea"; product = none; quantity = 2 } ∷ [];
}

-- The only cart is Bob's.
owner : (u : String) (c : Cart ℕ) → cart_of tables u ≡ some c → (u ≡ "bob") × (c.id ≡ "c0")
owner u c h = elim (Bool-cases ("bob" == u)) [
  | inl t ↦ (sym ((eq_iff "bob" u).0 t), ground (arith, t, h))
  | inr t ↦ absurd (ground (arith, t, h))
]

tables-IsTidy : IsTidy tables
tables-IsTidy u u' c c' h h' same = (owner u c h).0 ∙ sym (owner u' c' h').0

tables-IsFresh : IsFresh "c1" tables
tables-IsFresh = record {
  no_cart = λ u c h. ap (λ x. x == "c1") (owner u c h).1;
  no_line = (refl, tt);
}

add_product-IsAdded_example :
    (Fails (add_product reliable "c1" "ann" "tea" 3 tables)
      × ((add_product reliable "c1" "ann" "tea" 3 tables).1 ≡ tables))
    ⊎ IsAdded "ann" "tea" 3 tables (add_product reliable "c1" "ann" "tea" 3 tables).1
add_product-IsAdded_example =
    add_product-IsAdded reliable "c1" "ann" "tea" 3 tables tables-IsTidy tables-IsFresh

remove_product-IsRemoved_example :
    (Fails (remove_product reliable "c1" "bob" "tea" tables)
      × ((remove_product reliable "c1" "bob" "tea" tables).1 ≡ tables))
    ⊎ IsRemoved "bob" "tea" tables (remove_product reliable "c1" "bob" "tea" tables).1
remove_product-IsRemoved_example =
    remove_product-IsRemoved reliable "c1" "bob" "tea" tables tables-IsTidy tables-IsFresh

-- Both calls succeed.
runs :
    (quantity (add_product reliable "c1" "ann" "tea" 3 tables).1 "ann" "tea" ≡ some 3)
    × (quantity (remove_product reliable "c1" "bob" "tea" tables).1 "bob" "tea" ≡ none)
unfolding add_product remove_product with_locked_cart get_or_create_locked_cart insert_line
    delete_line load_cart preload before_create
runs = (refl, refl)
