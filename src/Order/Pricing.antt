-- ===== src/Order/Pricing.antt =====
-- The pricing loop of PlaceOrder: it reads the products and computes a total that has not wrapped.
use scalable_e_commerce_plat.Base.{
  ℕ, ◌+◌, ◌*◌, ◌≤◌, String, ◌≡◌, refl, List, [], ◌∷◌, Option, none, some, map, Result, ok, err,
  ◌==◌, arith, inl, inr, sym, subst, ap, Result-cases, ℤ, pos, negsuc, max_int64, ◌∙◌,
}
use scalable_e_commerce_plat.Dbs.{Engine}
use scalable_e_commerce_plat.Dbs.Rows.{first_where}
use scalable_e_commerce_plat.Store.{Tables}
use scalable_e_commerce_plat.Validation.{Validation}
use scalable_e_commerce_plat.Money.{Floats, to_minor_units, from_minor_units, multiply, add}
use scalable_e_commerce_plat.Money.Checked.{multiply-ok, add-ok}
use scalable_e_commerce_plat.Order.Model.{Product, OrderLine}
use scalable_e_commerce_plat.Order.Repository as Orders
use scalable_e_commerce_plat.Order.Service.{Env, Priced, price_lines, as_order_amount}

module _ (fl : Floats) where
  -- The price of a product in cents, by the products on record.
  abbrev pub cents_of : Result ℤ → ℕ
  cents_of (ok (pos u)) = u
  cents_of (ok (negsuc u)) = 0
  cents_of (err e) = 0

  abbrev pub price_of : Option (Product fl.Float) → ℕ
  price_of none = 0
  price_of (some p) = cents_of (to_minor_units fl p.price)

  abbrev pub unit_cents : Tables fl.Float → String → ℕ
  unit_cents s id = price_of (first_where (λ p. p.id == id) s.products)

  abbrev pub cents_total : Tables fl.Float → List (OrderLine fl.Float) → ℕ
  cents_total s [] = 0
  cents_total s (line ∷ lines) = unit_cents s line.product_id * line.quantity + cents_total s lines

  abbrev pub with_price : Tables fl.Float → OrderLine fl.Float → OrderLine fl.Float
  with_price s line = record line {
    price = from_minor_units fl (pos (unit_cents s line.product_id * line.quantity));
  }

  -- What the loop has computed of the lines, from a total of `t` cents.
  pub record IsPriced (s : Tables fl.Float) (t : ℕ) (lines : List (OrderLine fl.Float))
      (priced : Priced fl.Float) : Type 0 where
    pub total_exact : priced.total ≡ pos (t + cents_total s lines)
    pub total_fits : t + cents_total s lines ≤ max_int64
    pub lines_priced : priced.lines ≡ map (with_price s) lines

  module _ (v : Validation) (db : Engine) (env : Env fl.Float) where
    product_found :
        (id : String) (s : Tables fl.Float) (p : Product fl.Float)
        → (Orders.get_product_by_id db id s).0 ≡ ok p
        → first_where (λ x. x.id == id) s.products ≡ some p
    unfolding Orders.get_product_by_id
    product_found id s p e =
        ground (arith, e, db.first_replies (Product fl.Float) (λ x. x.id == id) s.products)

    amount_ok : (r : Result ℤ) (n : ℤ) → as_order_amount r ≡ ok n → r ≡ ok n
    amount_ok (ok m) n e = e
    amount_ok (err x) n e = cc

    -- One turn of the loop that succeeds.
    line_priced :
        (s : Tables fl.Float) (t : ℕ) (line : OrderLine fl.Float) (p : Product fl.Float) (u w x : ℤ)
        → first_where (λ y. y.id == line.product_id) s.products ≡ some p
        → as_order_amount (to_minor_units fl p.price) ≡ ok u
        → as_order_amount (multiply u line.quantity) ≡ ok w
        → as_order_amount (add (pos t) w) ≡ ok x
        → (w ≡ pos (unit_cents s line.product_id * line.quantity))
          × (x ≡ pos (t + unit_cents s line.product_id * line.quantity))
          × (t + unit_cents s line.product_id * line.quantity ≤ max_int64)
    line_priced s t line p u w x f a b c =
        let (n, eu, ew, fits) = multiply-ok u line.quantity w (amount_ok _ w b) in
        let cents : unit_cents s line.product_id ≡ n = ground (arith, f, amount_ok _ u a, eu) in
        let (ex, bound) =
          add-ok t (n * line.quantity) x fits (ground (arith, amount_ok _ x c, ew)) in
        (rw cents ew, rw cents ex, rw cents bound)

    -- What a loop that succeeds has met in its first turn.
    record Turn (line : OrderLine fl.Float) (lines : List (OrderLine fl.Float)) (t : ℤ)
        (products : List (String × Product fl.Float)) (s : Tables fl.Float)
        (priced : Priced fl.Float) : Type 0 where
      product : Product fl.Float
      unit_price : ℤ
      line_total : ℤ
      total : ℤ
      rest : Priced fl.Float
      found : first_where (λ y. y.id == line.product_id) s.products ≡ some product
      unit : as_order_amount (to_minor_units fl product.price) ≡ ok unit_price
      times : as_order_amount (multiply unit_price line.quantity) ≡ ok line_total
      sum : as_order_amount (add t line_total) ≡ ok total
      went_on :
          (price_lines fl v db env lines total ((line.product_id, product) ∷ products) s).0
          ≡ ok rest
      result : price_lines fl v db env (line ∷ lines) t products s ≡ (
        ok priced,
        (price_lines fl v db env lines total ((line.product_id, product) ∷ products) s).1,
      )
      answer : priced ≡ record rest {
        lines = record line { price = from_minor_units fl line_total } ∷ rest.lines;
      }

    turn :
        (line : OrderLine fl.Float) (lines : List (OrderLine fl.Float)) (t : ℤ)
        (products : List (String × Product fl.Float)) (s : Tables fl.Float)
        (priced : Priced fl.Float)
        → (price_lines fl v db env (line ∷ lines) t products s).0 ≡ ok priced
        → Turn line lines t products s priced
    unfolding price_lines Orders.get_product_by_id
    turn line lines t products s priced e =
        elim (Result-cases
          (db.first (Product fl.Float) (λ x. x.id == line.product_id) s.products)) [
            | inr (x, f) ↦ absurd (ground (arith, f, e))
            | inl (p, f) ↦ elim (Result-cases (as_order_amount (to_minor_units fl p.price))) [
              | inr (x, a) ↦ absurd (ground (arith, f, a, e))
              | inl (u, a) ↦ elim (Result-cases (as_order_amount (multiply u line.quantity))) [
                | inr (x, b) ↦ absurd (ground (arith, f, a, b, e))
                | inl (w, b) ↦ elim (Result-cases (as_order_amount (add t w))) [
                  | inr (x, c) ↦ absurd (ground (arith, f, a, b, c, e))
                  | inl (x, c) ↦
                      elim (Result-cases
                        (price_lines fl v db env lines x ((line.product_id, p) ∷ products) s).0) [
                          | inr (y, g) ↦ absurd (ground (arith, f, a, b, c, g, e))
                          | inl (rest, g) ↦ record {
                            product = p;
                            unit_price = u;
                            line_total = w;
                            total = x;
                            rest = rest;
                            found = product_found line.product_id s p f;
                            unit = a;
                            times = b;
                            sum = c;
                            went_on = g;
                            result = ground (arith, f, a, b, c, g, e);
                            answer = ground (arith, f, a, b, c, g, e);
                          }
                        ]
                ]
              ]
            ]
          ]

    -- The pricing loop that starts from a total that fits int64 and succeeds has computed the exact
    -- total of the lines at the prices on record, which fits int64, has priced every line by price
    -- times quantity, and leaves the tables alone.
    pub price_lines-IsPriced :
        (lines : List (OrderLine fl.Float)) (t : ℕ) (products : List (String × Product fl.Float))
        (s : Tables fl.Float) (priced : Priced fl.Float)
        → t ≤ max_int64
        → (price_lines fl v db env lines (pos t) products s).0 ≡ ok priced
        → IsPriced s t lines priced × ((price_lines fl v db env lines (pos t) products s).1 ≡ s)
    price_lines-IsPriced [] t products s priced h e =
        unfold price_lines in
        (
          record {
            total_exact = ground (arith, e);
            total_fits = omega arith;
            lines_priced = ground (arith, e);
          },
          refl,
        )
    price_lines-IsPriced (line ∷ lines) t products s priced h e =
        let r = turn line lines (pos t) products s priced e in
        let (ew, ex, fits) =
          line_priced s t line r.product r.unit_price r.line_total r.total r.found r.unit r.times
            r.sum in
        let t' = t + unit_cents s line.product_id * line.quantity in
        let (ih, same) =
          price_lines-IsPriced lines t' ((line.product_id, r.product) ∷ products) s r.rest fits (
            subst
              (λ x.
                (price_lines fl v db env lines x ((line.product_id, r.product) ∷ products) s).0
                ≡ ok r.rest)
              ex r.went_on) in
        (
          record {
            total_exact =
                ap (λ (x : Priced fl.Float). x.total) r.answer
                ∙ ih.total_exact
                ∙ ap pos (omega arith);
            total_fits = omega (arith, ih.total_fits);
            lines_priced =
                ap (λ (x : Priced fl.Float). x.lines) r.answer
                ∙ (λ i. record line { price = from_minor_units fl (ew i) } ∷ ih.lines_priced i);
          },
          ap (λ (x : Result (Priced fl.Float) × Tables fl.Float). x.1) r.result
              ∙ subst
                  (λ x.
                    (price_lines fl v db env lines x ((line.product_id, r.product) ∷ products) s).1
                    ≡ s)
                  (sym ex) same,
        )
