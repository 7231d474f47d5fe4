-- ===== src/Order/RoundTrip.antt =====
-- PlaceOrder followed by CancelOrder of the same order.
use scalable_e_commerce_plat.Base.{
  ℕ, ◌≤◌, ◌+◌, String, ◌≡◌, refl, Bool, true, false, List, [], ◌∷◌, ◌++◌, Option, none, some, map,
  ok, ◌==◌, eq_iff, arith, sym, subst, ap, ◌∙◌, if◌then◌else◌, All, All-append, int_laws,
}
use scalable_e_commerce_plat.Dbs.{Engine}
use scalable_e_commerce_plat.Dbs.Rows.{find_rows, filter_where, sort_by}
use scalable_e_commerce_plat.Dbs.Keyed.{first_where-holds}
use scalable_e_commerce_plat.Store.{Tables}
use scalable_e_commerce_plat.Validation.{Validation}
use scalable_e_commerce_plat.Money.{Floats}
use scalable_e_commerce_plat.Inventory.Stock.{stock, IsSound}
use scalable_e_commerce_plat.Order.Model.{Product, Order, OrderLine, PlaceOrderReq}
use scalable_e_commerce_plat.Order.Plan.Totals.{ordered}
use scalable_e_commerce_plat.Order.Repository.{attach, number_lines}
use scalable_e_commerce_plat.Order.Draw.{minus}
use scalable_e_commerce_plat.Order.Return.{plus}
use scalable_e_commerce_plat.Order.Placed.{IsPlaced}
use scalable_e_commerce_plat.Order.Requested.{
  requested, lines_of_request, ordered-lines_of_request, All-lines_of_request,
}
use scalable_e_commerce_plat.Order.Outcome.{placed, replayed, refused, place_order-Outcome}
use scalable_e_commerce_plat.Order.Lines.{IsOrdered}
use scalable_e_commerce_plat.Order.Cancelling.{
  IsCancelled, cancelled_now, unchanged, cancel_order-CancelOutcome,
}
use scalable_e_commerce_plat.Order.Service.{Env, place_order, cancel_order}

module _ {F : Type 0} where
  abbrev of_order : String → OrderLine F → Bool
  of_order id line = line.order_id == id

  filter_where-append :
      (p : OrderLine F → Bool) (xs ys : List (OrderLine F))
      → filter_where p (xs ++ ys) ≡ filter_where p xs ++ filter_where p ys
  filter_where-append p [] ys = refl
  filter_where-append p (x ∷ xs) ys = ground (arith, filter_where-append p xs ys)

  filter_where-strangers :
      (id : String) (rows : List (OrderLine F))
      → All (λ line. (line.order_id == id) ≡ false) rows
      → filter_where (of_order id) rows ≡ []
  filter_where-strangers id [] h = refl
  filter_where-strangers id (r ∷ rows) h = ground (arith, h.0, filter_where-strangers id rows h.1)

  filter_where-number_lines :
      (id : String) (ids : ℕ → String) (n : ℕ) (rows : List (OrderLine F))
      → filter_where (of_order id) (number_lines id ids n rows) ≡ number_lines id ids n rows
  filter_where-number_lines id ids n [] = refl
  filter_where-number_lines id ids n (r ∷ rows) =
      ground (arith, eq_iff id id, filter_where-number_lines id ids (n + 1) rows)

  sort_by_constant : (rows : List (OrderLine F)) → sort_by (λ _. 0) rows ≡ rows
  sort_by_constant [] = refl
  sort_by_constant (r ∷ []) = refl
  sort_by_constant (r ∷ x ∷ rows) = rw (sort_by_constant (x ∷ rows)) refl

  ordered-attach :
      (j : String) (products : List (Product F)) (rows : List (OrderLine F))
      → ordered j (map (attach products) rows) ≡ ordered j rows
  ordered-attach j products [] = refl
  ordered-attach j products (r ∷ rows) =
      ap (λ n. (if r.product_id == j then r.quantity else 0) + n) (ordered-attach j products rows)

  ordered-number_lines :
      (j id : String) (ids : ℕ → String) (n : ℕ) (rows : List (OrderLine F))
      → ordered j (number_lines id ids n rows) ≡ ordered j rows
  ordered-number_lines j id ids n [] = refl
  ordered-number_lines j id ids n (r ∷ rows) =
      ap (λ m. (if r.product_id == j then r.quantity else 0) + m)
        (ordered-number_lines j id ids (n + 1) rows)

  number_lines-All :
      (id : String) (ids : ℕ → String) (n : ℕ) (rows : List (OrderLine F))
      → All (λ line. 1 ≤ line.quantity) rows
      → All (λ line. 1 ≤ line.quantity) (number_lines id ids n rows)
  number_lines-All id ids n [] h = h
  number_lines-All id ids n (r ∷ rows) h = (h.0, number_lines-All id ids (n + 1) rows h.1)

  -- The lines of an order among earlier lines that are not its own.
  ordered_back :
      (j id : String) (ids : ℕ → String) (products : List (Product F))
      (old rows : List (OrderLine F))
      → All (λ line. (line.order_id == id) ≡ false) old
      → ordered j (
          map
            (attach products)
            (find_rows (of_order id) (λ _. 0) none (old ++ number_lines id ids 0 rows)))
        ≡ ordered j rows
  ordered_back j id ids products old rows h =
      ordered-attach j products _
      ∙ ap (ordered j) (
          sort_by_constant _
          ∙ filter_where-append (of_order id) old (number_lines id ids 0 rows)
          ∙ (λ i. filter_where-strangers id old h i ++ filter_where-number_lines id ids 0 rows i))
      ∙ ordered-number_lines j id ids 0 rows

plus-minus : (q : ℕ) (o : Option _) → (o ≡ none → q ≡ 0) → plus q (minus q o) ≡ o
plus-minus q none h = ground (arith, h refl)
plus-minus q (some n) h = ap some (omega int_laws)

module _ (fl : Floats) (v : Validation) (db : Engine) (env : Env fl.Float) where
  -- The cancellation of an order that was placed on `s` gives back what it took.
  IsPlaced-IsCancelled :
      (req : PlaceOrderReq) (s s' s'' : Tables fl.Float) (order order' : Order fl.Float)
      (user_id : String) (j : String)
      → All (λ line. (line.order_id == env.order_id) ≡ false) s.order_lines
      → IsPlaced fl v db env req s order s'
      → IsCancelled order.id user_id s' order' s''
      → stock j s''.inventories ≡ stock j s.inventories
  IsPlaced-IsCancelled req s s' s'' order order' user_id j strangers p c =
      let id : c.row.id ≡ env.order_id =
        (eq_iff c.row.id order.id).0
          (first_where-holds (λ (o : Order fl.Float). o.id == order.id) s'.orders c.row c.found)
        ∙ p.fresh in
      let products = find_rows (λ (x : Product fl.Float). true) (λ _. 0) none s'.products in
      let lines : ordered j
            (map (attach products) (find_rows (of_order c.row.id) (λ _. 0) none s'.order_lines))
          ≡ ordered j (
              map (attach products) (
                find_rows (of_order env.order_id) (λ _. 0) none
                  (s.order_lines
                    ++ number_lines env.order_id env.line_ids 0
                        (lines_of_request fl s req.lines)))) =
        λ i.
          ordered j
            (map (attach products) (find_rows (of_order (id i)) (λ _. 0) none (p.line_rows i))) in
      let back =
        lines
        ∙ ordered_back j env.order_id env.line_ids products s.order_lines
            (lines_of_request fl s req.lines) strangers
        ∙ ordered-lines_of_request fl s j req.lines in
      c.held j
      ∙ (λ i. plus (back i) (p.left j i))
      ∙ plus-minus (requested j req.lines) (stock j s.inventories) (p.had j)

  -- Where a PlaceOrder places an order that is no replay, and a later call of CancelOrder succeeds
  -- on it, the stock of every product is as it was before the placement. The inventory rows are
  -- sound before, no stored line has quantity 0, and none has the new order's id.
  pub place_order-cancel_order :
      (env' : Env fl.Float) (req : PlaceOrderReq) (s : Tables fl.Float)
      (order order' : Order fl.Float) (user_id j : String)
      → IsSound (env.others s).inventories
      → All IsOrdered (env.others s).order_lines
      → All (λ line. (line.order_id == env.order_id) ≡ false) (env.others s).order_lines
      → (place_order fl v db env req s).0 ≡ ok order
      → order.idempotency_replay ≡ false
      → (cancel_order fl v db env' order.id user_id (place_order fl v db env req s).1).0 ≡ ok order'
      → stock j
          (cancel_order fl v db env' order.id user_id
            (place_order fl v db env req s).1).1.inventories
        ≡ stock j (env.others s).inventories
  place_order-cancel_order env' req s order order' user_id j h lines strangers e first c =
      elim (place_order-Outcome fl v db env req s h) [
        | refused n x u f ↦ absurd (ground (arith, e, f))
        | replayed o x u f r ↦ absurd (ground (arith, e, f, first, r.3))
        | placed o f p ↦
            let x = env.others s in
            let s' = (place_order fl v db env req s).1 in
            let q = subst (λ y. IsPlaced fl v db env req x y s') (ground (arith, e, f)) p in
            let placed_lines =
              number_lines-All env.order_id env.line_ids 0 _
                (All-lines_of_request fl x req.lines p.asked) in
            let after =
              subst (All IsOrdered) (sym p.line_rows)
                (All-append IsOrdered (x.order_lines) _ lines placed_lines) in
            elim (cancel_order-CancelOutcome fl v db env' order.id user_id s' after p.sound) [
              | unchanged n g ↦ absurd (ground (arith, c, g))
              | cancelled_now y g k ↦
                  IsPlaced-IsCancelled req x s' _ order y user_id j strangers q k
            ]
      ]
