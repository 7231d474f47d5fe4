-- ===== src/Cart/Repository.antt =====
-- internal/cart/repository/cart.go, with the constraints of migrations/000002_cart_schema.up.sql.
use scalable_e_commerce_plat.Base.{
  ℕ, String, Bool, true, ◌&&◌, Option, none, some, List, [], ◌∷◌, map, Action, Fault, pure, raise,
  catch, ◌>>=◌, ◌>>◌, ◌==◌, nat_eq, ltb, max_int64, wrapped, cart_not_found, is_record_not_found,
  out_of_range, foreign_key_violation, check_violation, if◌then◌else◌,
}
use scalable_e_commerce_plat.Dbs.{Engine, statement, query, answering}
use scalable_e_commerce_plat.Dbs.Rows.{first_where}
use scalable_e_commerce_plat.Cart.Model.{User, Product, Cart, CartLine, CartTables, before_create}

-- A BIGINT column with CHECK (quantity > 0).
abbrev pub refuses_quantity : ℕ → Option Fault
refuses_quantity quantity =
    if ltb max_int64 quantity
    then some out_of_range
    else if nat_eq quantity 0
    then some (check_violation "cart_lines_quantity_check")
    else none

module _ {F : Type 0} where
  abbrev pub write_carts : List (Cart F) → CartTables F → CartTables F
  write_carts rows s = record s { carts = rows }

  abbrev pub write_cart_lines : List (CartLine F) → CartTables F → CartTables F
  write_cart_lines rows s = record s { cart_lines = rows }

  abbrev pub of_user : String → Cart F → Bool
  of_user user_id cart = cart.user_id == user_id

  abbrev pub is_line : String → String → CartLine F → Bool
  is_line cart_id product_id line = line.cart_id == cart_id && line.product_id == product_id

  -- The foreign keys of a cart and of a line; the cart of a line is locked, so that it is there.
  abbrev pub lacks_user : String → CartTables F → Option Fault
  lacks_user user_id s = elim (first_where (λ (u : User). u.id == user_id) s.users) [
    | none ↦ some (foreign_key_violation "carts_user_id_fkey")
    | some u ↦ none
  ]

  abbrev pub lacks_product : String → CartTables F → Option Fault
  lacks_product product_id s =
      elim (first_where (λ (p : Product F). p.id == product_id) s.products) [
        | none ↦ some (foreign_key_violation "cart_lines_product_id_fkey")
        | some p ↦ none
      ]

  abbrev pub cart_keys : String → Cart F → List String
  cart_keys uuid cart = if cart.id == uuid then "carts_pkey" ∷ [] else []

  abbrev pub new_cart : String → String → Cart F
  new_cart uuid user_id =
      before_create uuid (record { id = ""; user_id = user_id; user = none; lines = [] })

  abbrev pub new_line : String → String → ℕ → CartLine F
  new_line cart_id product_id quantity = record {
    cart_id = cart_id;
    product_id = product_id;
    product = none;
    quantity = quantity;
  }

  -- `fmt.Errorf("…: %w", err)` where the call fails.
  abbrev pub wrapping : {A : Type 0} → String → Action (CartTables F) A → Action (CartTables F) A
  wrapping text m = catch m (λ e. raise (wrapped text e))

  module _ (db : Engine) where
    unfoldable pub get_or_create_locked_cart : String → String → Action (CartTables F) (Cart F)
    get_or_create_locked_cart uuid user_id = do
      wrapping "ensure cart" λ s.
          statement (λ s. s.carts) write_carts
            (λ rows. answering tt (
              db.insert_ignoring (Cart F) none (of_user user_id) (cart_keys uuid)
                (lacks_user user_id s) (new_cart uuid user_id) rows))
            s
      wrapping "lock cart" (query (λ s. s.carts) (db.first (Cart F) (of_user user_id)))

    -- Preload("User") and Preload("Lines.Product").
    abbrev attach : List (Product F) → CartLine F → CartLine F
    attach products line = record line {
      product = first_where (λ (p : Product F). p.id == line.product_id) products;
    }

    unfoldable pub preload : Cart F → Action (CartTables F) (Cart F)
    preload cart = do
      users ← query (λ s. s.users) (db.find User (λ u. u.id == cart.user_id) (λ _. 0) none)
      lines ←
          query (λ s. s.cart_lines) (db.find (CartLine F) (λ l. l.cart_id == cart.id) (λ _. 0) none)
      products ← query (λ s. s.products) (db.find (Product F) (λ _. true) (λ _. 0) none)
      pure (record cart {
        user = first_where (λ (u : User). u.id == cart.user_id) users;
        lines = map (attach products) lines;
      })

    unfoldable pub load_cart : String → Action (CartTables F) (Cart F)
    load_cart user_id =
        wrapping "load cart"
          (query (λ s. s.carts) (db.first (Cart F) (of_user user_id)) >>= preload)

    unfoldable pub with_locked_cart :
        String
        → String
        → (Cart F → Action (CartTables F) (Unit {0}))
        → Action (CartTables F) (Cart F)
    with_locked_cart uuid user_id mutate =
        db.transaction (CartTables F) (Cart F)
          (do cart ← get_or_create_locked_cart uuid user_id; mutate cart; load_cart user_id)

    unfoldable pub get_or_create_cart : String → String → Action (CartTables F) (Cart F)
    get_or_create_cart uuid user_id = with_locked_cart uuid user_id (λ cart. pure tt)

    unfoldable pub insert_line : String → ℕ → Cart F → Action (CartTables F) (Unit {0})
    insert_line product_id quantity cart = wrapping "add cart product" λ s.
        statement (λ s. s.cart_lines) write_cart_lines
          (λ rows. answering tt (
            db.insert_ignoring (CartLine F) (refuses_quantity quantity) (is_line cart.id product_id)
              (λ _. []) (lacks_product product_id s) (new_line cart.id product_id quantity) rows))
          s

    unfoldable pub delete_line : String → Cart F → Action (CartTables F) (Unit {0})
    delete_line product_id cart = wrapping "remove cart product" (
        statement (λ s. s.cart_lines) write_cart_lines
          (λ rows. answering tt (db.delete (CartLine F) (is_line cart.id product_id) rows)))

    unfoldable pub add_product : String → String → String → ℕ → Action (CartTables F) (Cart F)
    add_product uuid user_id product_id quantity =
        with_locked_cart uuid user_id (insert_line product_id quantity)

    unfoldable pub remove_product : String → String → String → Action (CartTables F) (Cart F)
    remove_product uuid user_id product_id = with_locked_cart uuid user_id (delete_line product_id)

    unfoldable pub get_cart_by_user_id : String → Action (CartTables F) (Cart F)
    get_cart_by_user_id user_id =
        catch (query (λ s. s.carts) (db.first (Cart F) (of_user user_id)) >>= preload) λ e.
          if is_record_not_found e
          then raise cart_not_found
          else raise (wrapped "get cart by user ID" e)
