-- ===== src/Order/Cancelling.antt =====
-- CancelOrder in all its branches.
use scalable_e_commerce_plat.Base.{
  String, ◌≡◌, refl, Bool, true, false, ◌&&◌, List, [], ◌∷◌, some, Result, ok, err, Error, Action,
  ◌==◌, eq_iff, arith, inl, inr, sym, subst, ap, Result-cases, Option-cases, Bool-cases, ◌∙◌,
  engine, other, All, ◌>>=◌,
}
use scalable_e_commerce_plat.Dbs.{Engine}
use scalable_e_commerce_plat.Dbs.Rows.{first_where, all_where, count_where, map_where}
use scalable_e_commerce_plat.Store.{Tables}
use scalable_e_commerce_plat.Validation.{Validation}
use scalable_e_commerce_plat.Money.{Floats}
use scalable_e_commerce_plat.Inventory.Stock.{stock, IsSound}
use scalable_e_commerce_plat.Order.Model.{Order, cancelled}
use scalable_e_commerce_plat.Order.Plan.{stock_consumption_plan}
use scalable_e_commerce_plat.Order.Plan.Totals.{ordered, planned-stock_consumption_plan}
use scalable_e_commerce_plat.Order.Plan.Items.{stock_consumption_plan-All}
use scalable_e_commerce_plat.Order.Repository as Orders
use scalable_e_commerce_plat.Order.Repository.{attach, is_cancellable}
use scalable_e_commerce_plat.Order.Replay.{loaded, preload_lem}
use scalable_e_commerce_plat.Order.Return.{plus, restock_all-Returned}
use scalable_e_commerce_plat.Order.Service.{
  Env, is_closed, restock_all, cancel_loaded, cancel_order,
}
use scalable_e_commerce_plat.Order.Lines.{IsOrdered, loaded-All}

module _ {F : Type 0} where
  -- The rows that a cancellation by a user may take.
  abbrev pub cancels : String → String → Order F → Bool
  cancels order_id user_id o = o.id == order_id && (o.user_id == user_id && is_cancellable o.status)

  abbrev pub cancel : Order F → Order F
  cancel o = record o { status = cancelled }

  -- The order `order_id` of the user, found in `s` as `row`, is cancelled in `s'`.
  pub record IsCancelled (order_id user_id : String) (s : Tables F) (order : Order F)
      (s' : Tables F) : Type 0 where
    pub row : Order F
    pub found : first_where (λ o. o.id == order_id) s.orders ≡ some row
    pub owned : row.user_id ≡ user_id
    pub not_closed : is_closed row.status ≡ false
    pub answer : order ≡ record (loaded s row) { status = cancelled }
    -- Exactly one row is cancelled.
    pub one_row : count_where (cancels order_id user_id) s.orders ≡ 1
    pub order_rows : s'.orders ≡ map_where (cancels order_id user_id) cancel s.orders
    -- Each product has back what the lines of the order took.
    pub held :
        (j : String)
        → stock j s'.inventories ≡ plus (ordered j (loaded s row).lines) (stock j s.inventories)
    pub sound : IsSound s'.inventories
    pub line_rows : s'.order_lines ≡ s.order_lines
    pub event_rows : s'.outbox_events ≡ s.outbox_events
    pub product_rows : s'.products ≡ s.products

pub data CancelOutcome {F : Type 0} (order_id user_id : String) (s : Tables F)
    (out : Result (Order F) × Tables F) : Type 0 where
  cancelled_now :
      (order : Order F)
      → out.0 ≡ ok order
      → IsCancelled order_id user_id s order out.1
      → CancelOutcome order_id user_id s out
  unchanged : (e : Error) → out ≡ (err e, s) → CancelOutcome order_id user_id s out

module _ {F : Type 0} where
  all_where-true :
      (p : Order F → Bool) (rows : List (Order F)) → all_where p (λ _. true) rows ≡ true
  all_where-true p [] = refl
  all_where-true p (r ∷ rows) = ground (arith, all_where-true p rows)

  cancel_order_if_cancellable-ok :
      (db : Engine) (order_id user_id : String) (s : Tables F)
      → (Orders.cancel_order_if_cancellable db order_id user_id s).0 ≡ ok tt
      → (count_where (cancels order_id user_id) s.orders ≡ 1)
        × ((Orders.cancel_order_if_cancellable db order_id user_id s).1
            ≡ record s { orders = map_where (cancels order_id user_id) cancel s.orders })
  unfolding Orders.cancel_order_if_cancellable
  cancel_order_if_cancellable-ok db order_id user_id s e =
      let upd =
        db.update_replies (Order F) (cancels order_id user_id) cancel (λ _. true) s.orders in
      let fits = all_where-true (cancels order_id user_id) s.orders in
      (ground (arith, upd, fits, e), ground (arith, upd, fits, e))

module _ (fl : Floats) (v : Validation) (db : Engine) (env : Env fl.Float) where
  cancel_loaded-IsCancelled :
      (order_id user_id : String) (s : Tables fl.Float) (row order : Order fl.Float)
      → All IsOrdered s.order_lines
      → IsSound s.inventories
      → first_where (λ o. o.id == order_id) s.orders ≡ some row
      → (cancel_loaded fl v db env order_id user_id (loaded s row) s).0 ≡ ok order
      → IsCancelled order_id user_id s order
          (cancel_loaded fl v db env order_id user_id (loaded s row) s).1
  unfolding cancel_loaded
  cancel_loaded-IsCancelled order_id user_id s row order p h z e =
      let marks = Orders.cancel_order_if_cancellable {F = fl.Float} db order_id user_id s in
      elim (Bool-cases (user_id == row.user_id)) [
        | inr a ↦ absurd (ground (arith, a, e))
        | inl a ↦ elim (Bool-cases (is_closed row.status)) [
          | inl b ↦ absurd (ground (arith, a, b, e))
          | inr b ↦ elim (Result-cases marks.0) [
            | inr (x, c) ↦ absurd (ground (arith, a, b, c, e))
            | inl (u, c) ↦ elim (Result-cases (stock_consumption_plan (loaded s row).lines)) [
              | inr (x, d) ↦ absurd (ground (arith, a, b, c, d, e))
              | inl (plan, d) ↦
                  let (one, marked) = cancel_order_if_cancellable-ok db order_id user_id s c in
                  let m = marks.1 in
                  let items =
                    stock_consumption_plan-All (loaded s row).lines plan (loaded-All s row p) d in
                  elim (Result-cases (restock_all fl v db env plan m).0) [
                    | inr (x, f) ↦ absurd (ground (arith, a, b, c, d, f, e))
                    | inl (u', f) ↦
                        let r =
                          restock_all-Returned fl v db env plan m items
                            (subst (λ (x : Tables fl.Float). IsSound x.inventories) (sym marked) h)
                            f in
                        let end : (cancel_loaded fl v db env order_id user_id (loaded s row) s).1
                            ≡ (restock_all fl v db env plan m).1 =
                          ground (arith, a, b, c, d, f) in
                        record {
                          row = row;
                          found = z;
                          owned = ground (arith, a, eq_iff user_id row.user_id);
                          not_closed = b;
                          answer = ground (arith, a, b, c, d, f, e);
                          one_row = one;
                          order_rows = ground (arith, end, marked, r.frame);
                          held = λ j.
                              ap (λ (x : Tables fl.Float). stock j x.inventories) end
                              ∙ r.held j
                              ∙ (λ i.
                                  plus
                                    (planned-stock_consumption_plan (loaded s row).lines plan j d i)
                                    (stock j (marked i).inventories));
                          sound =
                              subst (λ (x : Tables fl.Float). IsSound x.inventories) (sym end)
                                r.sound;
                          line_rows = ground (arith, end, marked, r.frame);
                          event_rows = ground (arith, end, marked, r.frame);
                          product_rows = ground (arith, end, marked, r.frame);
                        }
                  ]
            ]
          ]
        ]
      ]

  cancel_order_body :
      (order_id user_id : String) (s : Tables fl.Float) (order : Order fl.Float)
      → ((Orders.get_order_by_id db order_id true >>= cancel_loaded fl v db env order_id user_id)
          s).0
        ≡ ok order
      → (row : Order fl.Float) × (first_where (λ o. o.id == order_id) s.orders ≡ some row)
        × ((Orders.get_order_by_id db order_id true >>= cancel_loaded fl v db env order_id user_id)
              s
            ≡ cancel_loaded fl v db env order_id user_id (loaded s row) s)
  unfolding Orders.get_order_by_id
  cancel_order_body order_id user_id s order e =
      let found = db.first_replies (Order fl.Float) (λ o. o.id == order_id) s.orders in
      elim (Option-cases (first_where (λ o. o.id == order_id) s.orders)) [
        | inl z ↦ absurd (ground (arith, found, z, e))
        | inr (row, z) ↦ (row, z, ground (arith, found, z, preload_lem db row s, e))
      ]

  -- Where the inventory rows are sound and no stored order line has quantity 0, CancelOrder comes
  -- to one of two ends. It cancels the order: the order is the user's and was neither done nor
  -- cancelled, exactly one row is marked cancelled, every product has back what the order's lines
  -- took, and no other table changes. Or it reports an error and the tables are as before.
  pub cancel_order-CancelOutcome :
      (order_id user_id : String) (s : Tables fl.Float)
      → All IsOrdered s.order_lines
      → IsSound s.inventories
      → CancelOutcome order_id user_id s (cancel_order fl v db env order_id user_id s)
  unfolding cancel_order
  cancel_order-CancelOutcome order_id user_id s p h =
      let body : Action (Tables fl.Float) (Order fl.Float) =
        Orders.get_order_by_id db order_id true >>= cancel_loaded fl v db env order_id user_id in
      elim (db.transaction_settles (Tables fl.Float) (Order fl.Float) body s) [
        | inr (n, e) ↦ unchanged (engine (other n)) e
        | inl e ↦ elim (Result-cases (body s).0) [
          | inr (x, f) ↦ unchanged x (ground (arith, e, f))
          | inl (order, f) ↦
              let (row, z, g) = cancel_order_body order_id user_id s order f in
              cancelled_now order (ground (arith, e, f)) (
                subst (IsCancelled order_id user_id s order) (ground (arith, e, f, g)) (
                  cancel_loaded-IsCancelled order_id user_id s row order p h z
                    (ground (arith, f, g))))
        ]
      ]
