-- ===== src/Cart/Contents.antt =====
-- The abstract view of the carts: how much of a product a user has chosen.
use scalable_e_commerce_plat.Base.{
  ℕ, String, ◌≡◌, refl, false, ◌&&◌, Option, none, some, List, [], ◌∷◌, ◌++◌, All, ◌==◌, eq_iff,
  arith, ap, sym, subst, ◌∙◌, inl, inr, Option-cases, Bool-cases, if◌then◌else◌,
}
use scalable_e_commerce_plat.Dbs.Rows.{first_where}
use scalable_e_commerce_plat.Dbs.Keyed.{first_where-snoc}
use scalable_e_commerce_plat.Cart.Model.{Cart, CartLine, CartTables, before_create}
use scalable_e_commerce_plat.Cart.Repository.{of_user, is_line, new_cart, new_line}

clash : (x y : String) → x ≡ y → (x == y) ≡ false → ⊥
clash x y e f = ground (arith, f, (eq_iff x y).1 e)

module _ {F : Type 0} where
  abbrev pub cart_of : CartTables F → String → Option (Cart F)
  cart_of s user_id = first_where (of_user user_id) s.carts

  abbrev pub line_in : CartTables F → String → String → Option (CartLine F)
  line_in s cart_id product_id = first_where (is_line cart_id product_id) s.cart_lines

  abbrev amount : Option (CartLine F) → Option ℕ
  amount none = none
  amount (some line) = some line.quantity

  abbrev pub quantity : CartTables F → String → String → Option ℕ
  quantity s user_id product_id = elim (cart_of s user_id) [
    | none ↦ none
    | some cart ↦ amount (line_in s cart.id product_id)
  ]

  -- No two users share a cart.
  abbrev pub IsTidy : CartTables F → Type 0
  IsTidy s =
      (u u' : String) (c c' : Cart F)
      → cart_of s u ≡ some c
      → cart_of s u' ≡ some c'
      → c.id ≡ c'.id
      → u ≡ u'

  -- An id that no cart and no line has.
  pub record IsFresh (uuid : String) (s : CartTables F) : Type 0 where
    pub no_cart : (u : String) (c : Cart F) → cart_of s u ≡ some c → (c.id == uuid) ≡ false
    pub no_line : All (λ line. (line.cart_id == uuid) ≡ false) s.cart_lines

  -- The tables with a new cart.
  abbrev pub with_cart : String → String → CartTables F → CartTables F
  with_cart uuid user_id s = record s { carts = s.carts ++ (new_cart uuid user_id ∷ []) }

  abbrev pub with_line : String → String → ℕ → CartTables F → CartTables F
  with_line cart_id product_id n s = record s {
    cart_lines = s.cart_lines ++ (new_line cart_id product_id n ∷ []);
  }

  cart_of-with_cart :
      (uuid user_id u : String) (s : CartTables F)
      → cart_of s user_id ≡ none
      → cart_of (with_cart uuid user_id s) u
        ≡ (if user_id == u then some (new_cart uuid user_id) else cart_of s u)
  unfolding before_create
  cart_of-with_cart uuid user_id u s e = elim (Bool-cases (user_id == u)) [
    | inl t ↦
        let none_u : cart_of s u ≡ none =
          subst (λ x. cart_of s x ≡ none) ((eq_iff user_id u).0 t) e in
        ground (arith, first_where-snoc (of_user u) s.carts (new_cart uuid user_id), t, none_u)
    | inr t ↦ elim (Option-cases (cart_of s u)) [
      | inl g ↦ ground (arith, first_where-snoc (of_user u) s.carts (new_cart uuid user_id), t, g)
      | inr (c, g) ↦
          ground (arith, first_where-snoc (of_user u) s.carts (new_cart uuid user_id), t, g)
    ]
  ]

  fresh_line :
      (uuid p : String) (rows : List (CartLine F))
      → All (λ line. (line.cart_id == uuid) ≡ false) rows
      → first_where (is_line uuid p) rows ≡ none
  fresh_line uuid p [] h = refl
  fresh_line uuid p (r ∷ rows) h = ground (arith, h.0, fresh_line uuid p rows h.1)

  -- A new cart is empty.
  pub quantity-with_cart :
      (uuid user_id : String) (s : CartTables F)
      → IsFresh uuid s
      → cart_of s user_id ≡ none
      → (u p : String) → quantity (with_cart uuid user_id s) u p ≡ quantity s u p
  unfolding before_create
  quantity-with_cart uuid user_id s fresh e u p = elim (Bool-cases (user_id == u)) [
    | inl t ↦
        let none_u : cart_of s u ≡ none =
          subst (λ x. cart_of s x ≡ none) ((eq_iff user_id u).0 t) e in
        ground (
          arith,
          cart_of-with_cart uuid user_id u s e,
          t,
          none_u,
          fresh_line uuid p s.cart_lines fresh.no_line,
        )
    | inr t ↦ elim (Option-cases (cart_of s u)) [
      | inl g ↦ ground (arith, cart_of-with_cart uuid user_id u s e, t, g)
      | inr (c, g) ↦ ground (arith, cart_of-with_cart uuid user_id u s e, t, g)
    ]
  ]

  pub IsTidy-with_cart :
      (uuid user_id : String) (s : CartTables F)
      → IsFresh uuid s
      → cart_of s user_id ≡ none
      → IsTidy s
      → IsTidy (with_cart uuid user_id s)
  unfolding before_create
  IsTidy-with_cart uuid user_id s fresh e tidy u u' c c' h h' same =
      let a = cart_of-with_cart uuid user_id u s e in
      let a' = cart_of-with_cart uuid user_id u' s e in
      elim (Bool-cases (user_id == u)) [
        | inl t ↦ elim (Bool-cases (user_id == u')) [
          | inl t' ↦ sym ((eq_iff user_id u).0 t) ∙ (eq_iff user_id u').0 t'
          | inr t' ↦ absurd (
              clash c'.id uuid (sym same ∙ ground (arith, a, t, h))
                (fresh.no_cart u' c' (ground (arith, a', t', h'))))
        ]
        | inr t ↦ elim (Bool-cases (user_id == u')) [
          | inl t' ↦ absurd (
              clash c.id uuid (same ∙ ground (arith, a', t', h'))
                (fresh.no_cart u c (ground (arith, a, t, h))))
          | inr t' ↦ tidy u u' c c' (ground (arith, a, t, h)) (ground (arith, a', t', h')) same
        ]
      ]

  line_in-with_line :
      (x p cart_id product_id : String) (n : ℕ) (s : CartTables F)
      → line_in (with_line cart_id product_id n s) x p ≡ elim (line_in s x p) [
        | none ↦
            if cart_id == x && product_id == p then some (new_line cart_id product_id n) else none
        | some line ↦ some line
      ]
  line_in-with_line x p cart_id product_id n s =
      first_where-snoc (is_line x p) s.cart_lines (new_line cart_id product_id n)

  -- A cart is the one that is changed exactly when its user is.
  pub same_user :
      (user_id u : String) (cart c : Cart F) (s : CartTables F)
      → IsTidy s
      → cart_of s user_id ≡ some cart
      → cart_of s u ≡ some c
      → (cart.id == c.id) ≡ (user_id == u)
  same_user user_id u cart c s tidy e g = elim (Bool-cases (user_id == u)) [
    | inl t ↦
        let hit = subst (λ x. cart_of s x ≡ some cart) ((eq_iff user_id u).0 t) e in
        let same : cart ≡ c = ground (arith, g, hit) in
        (eq_iff cart.id c.id).1 (ap (λ x. x.id) same) ∙ sym t
    | inr t ↦ elim (Bool-cases (cart.id == c.id)) [
      | inr f ↦ f ∙ sym t
      | inl f ↦ absurd (clash user_id u (tidy user_id u cart c e g ((eq_iff cart.id c.id).0 f)) t)
    ]
  ]

  -- A user without a cart is another one.
  pub no_user :
      (user_id u : String) (cart : Cart F) (s : CartTables F)
      → cart_of s user_id ≡ some cart
      → cart_of s u ≡ none
      → (user_id == u) ≡ false
  no_user user_id u cart s e g = elim (Bool-cases (user_id == u)) [
    | inr t ↦ t
    | inl t ↦
        let hit = subst (λ x. cart_of s x ≡ some cart) ((eq_iff user_id u).0 t) e in
        absurd (ground (arith, g, hit))
  ]

  -- A new line is what its user has chosen of its product.
  pub quantity-with_line :
      (user_id product_id : String) (n : ℕ) (cart : Cart F) (s : CartTables F)
      → IsTidy s
      → cart_of s user_id ≡ some cart
      → line_in s cart.id product_id ≡ none
      → (u p : String)
      → quantity (with_line cart.id product_id n s) u p
        ≡ (if user_id == u && product_id == p then some n else quantity s u p)
  quantity-with_line user_id product_id n cart s tidy e missing u p =
      elim (Option-cases (cart_of s u)) [
        | inl g ↦ ground (arith, g, no_user user_id u cart s e g)
        | inr (c, g) ↦
            let line = line_in-with_line c.id p cart.id product_id n s in
            let owner = same_user user_id u cart c s tidy e g in
            elim (Option-cases (line_in s c.id p)) [
              | inl k ↦ ground (arith, g, line, owner, k)
              | inr (l, k) ↦ elim (Bool-cases (cart.id == c.id && product_id == p)) [
                | inr q ↦ ground (arith, g, line, owner, k, q)
                | inl q ↦
                    let id : cart.id ≡ c.id = (eq_iff cart.id c.id).0 (ground (arith, q)) in
                    let product : product_id ≡ p = (eq_iff product_id p).0 (ground (arith, q)) in
                    let absent : line_in s c.id p ≡ none =
                      (λ i. line_in s (sym id i) (sym product i)) ∙ missing in
                    absurd (ground (arith, k, absent))
              ]
            ]
      ]
