-- ===== src/Order/Placing.antt =====
-- The function that PlaceOrder runs within its transaction, where it succeeds: the calls in order.
use scalable_e_commerce_plat.Base.{
  String, ◌≡◌, List, [], map, Result, ok, arith, inl, inr, Result-cases, pos,
}
use scalable_e_commerce_plat.Dbs.{Engine}
use scalable_e_commerce_plat.Store.{Tables}
use scalable_e_commerce_plat.Validation.{Validation}
use scalable_e_commerce_plat.Money.{Floats}
use scalable_e_commerce_plat.Outbox.Model.{OutboxEvent}
use scalable_e_commerce_plat.Outbox.Service.{new_outbox_service, OutboxService}
use scalable_e_commerce_plat.Outbox.Service as Outbox
use scalable_e_commerce_plat.Order.Model.{Order, OrderLine, PlaceOrderReq}
use scalable_e_commerce_plat.Order.Plan.{StockConsumption, stock_consumption_plan}
use scalable_e_commerce_plat.Order.Repository as Orders
use scalable_e_commerce_plat.Order.Service.{
  Env, Priced, price_lines, consume_all, place_within, new_order, new_line, with_products,
  build_order_created_payload,
}

module _ (fl : Floats) (v : Validation) (db : Engine) (env : Env fl.Float) where
  abbrev pub requested_lines : PlaceOrderReq → List (OrderLine fl.Float)
  requested_lines req = map (new_line fl.zero_float) req.lines

  abbrev pub created_order : Priced fl.Float → Order fl.Float → Order fl.Float
  created_order priced stored = record stored {
    lines = with_products fl v db env priced.products stored.lines;
  }

  abbrev pub encoded : Order fl.Float → Result String
  encoded order = env.encode (build_order_created_payload order)

  abbrev pub service : OutboxService
  service = new_outbox_service env.clock []

  -- The calls of a placement that returns `order`.
  pub record Steps (req : PlaceOrderReq) (s : Tables fl.Float) (order : Order fl.Float)
      (s' : Tables fl.Float) : Type 0 where
    pub priced : Priced fl.Float
    pub plan : List StockConsumption
    pub drawn : Tables fl.Float
    pub stored : Order fl.Float
    pub stored_in : Tables fl.Float
    pub event : OutboxEvent
    pub prices : price_lines fl v db env (requested_lines req) (pos 0) [] s ≡ (ok priced, s)
    pub plans : stock_consumption_plan priced.lines ≡ ok plan
    pub draws : consume_all fl v db env plan s ≡ (ok tt, drawn)
    pub stores :
        Orders.create_order db env.order_id env.order_code env.line_ids
          (new_order fl v db env req priced.total)
          priced.lines
          drawn
        ≡ (ok stored, stored_in)
    pub result : order ≡ created_order priced stored
    pub announces :
        Outbox.create_pending db service env.event_id env.clock "order" order.id "order.created"
          (encoded order)
          stored_in
        ≡ (ok event, s')

  pub place_within-Steps :
      (req : PlaceOrderReq) (s : Tables fl.Float) (order : Order fl.Float)
      → ((p : Priced fl.Float)
          → (price_lines fl v db env (requested_lines req) (pos 0) [] s).0 ≡ ok p
          → (price_lines fl v db env (requested_lines req) (pos 0) [] s).1 ≡ s)
      → (place_within fl v db env req s).0 ≡ ok order
      → Steps req s order (place_within fl v db env req s).1
  unfolding place_within
  place_within-Steps req s order same e =
      elim (Result-cases (price_lines fl v db env (requested_lines req) (pos 0) [] s).0) [
        | inr (x, a) ↦ absurd (ground (arith, a, e))
        | inl (priced, a) ↦ elim (Result-cases (stock_consumption_plan priced.lines)) [
          | inr (x, b) ↦ absurd (ground (arith, a, b, e))
          | inl (plan, b) ↦ elim (Result-cases (consume_all fl v db env plan s).0) [
            | inr (x, c) ↦ absurd (ground (arith, a, same priced a, b, c, e))
            | inl (u, c) ↦
                let drawn = (consume_all fl v db env plan s).1 in
                let create =
                  Orders.create_order db env.order_id env.order_code env.line_ids
                    (new_order fl v db env req priced.total) priced.lines drawn in
                elim (Result-cases create.0) [
                  | inr (x, d) ↦ absurd (ground (arith, a, same priced a, b, c, d, e))
                  | inl (stored, d) ↦
                      let o = created_order priced stored in
                      let announce =
                        Outbox.create_pending {F = fl.Float} db service env.event_id env.clock
                          "order" o.id "order.created" (encoded o) create.1 in
                      elim (Result-cases announce.0) [
                        | inr (x, f) ↦ absurd (ground (arith, a, same priced a, b, c, d, f, e))
                        | inl (event, f) ↦
                            let left : announce.1 ≡ (place_within fl v db env req s).1 =
                              ground (arith, a, same priced a, b, c, d, f) in
                            let w : order ≡ o = ground (arith, a, same priced a, b, c, d, f, e) in
                            record {
                              priced = priced;
                              plan = plan;
                              drawn = drawn;
                              stored = stored;
                              stored_in = create.1;
                              event = event;
                              prices = λ i. (a i, same priced a i);
                              plans = b;
                              draws = λ i. (c i, drawn);
                              stores = λ i. (d i, create.1);
                              result = w;
                              announces = rw w (λ i. (f i, left i));
                            }
                      ]
                ]
          ]
        ]
      ]
