-- ===== src/Order/Placed.antt =====
-- What a placement that succeeds has done, from the request and the tables before it.
use scalable_e_commerce_plat.Base.{
  ◌≤◌, String, ◌≡◌, refl, false, [], ◌∷◌, ◌++◌, none, Result, ok, arith, sym, subst, ap, ◌∙◌, pos,
  All, All-weaken, max_int64,
}
use scalable_e_commerce_plat.Dbs.{Engine}
use scalable_e_commerce_plat.Store.{Tables}
use scalable_e_commerce_plat.Validation.{Validation}
use scalable_e_commerce_plat.Money.{Floats, from_minor_units}
use scalable_e_commerce_plat.Inventory.Stock.{stock, IsSound}
use scalable_e_commerce_plat.Outbox.Service.{new_outbox_service}
use scalable_e_commerce_plat.Order.Model.{Order, PlaceOrderReq, before_create}
use scalable_e_commerce_plat.Order.Plan.Totals.{planned, ordered, planned-stock_consumption_plan}
use scalable_e_commerce_plat.Order.Plan.Items.{stock_consumption_plan-All}
use scalable_e_commerce_plat.Order.Repository.{number_lines}
use scalable_e_commerce_plat.Order.Pricing.{price_lines-IsPriced}
use scalable_e_commerce_plat.Order.Draw.{minus, Drawn, consume_all-Drawn}
use scalable_e_commerce_plat.Order.Stored.{create_order-ok, pending_event, create_pending-ok}
use scalable_e_commerce_plat.Order.Placing.{
  Steps, place_within-Steps, requested_lines, encoded, created_order,
}
use scalable_e_commerce_plat.Order.Service.{Env, place_within, new_order}
use scalable_e_commerce_plat.Order.Requested.{
  requested, price_of_request, lines_of_request, ordered-lines_of_request, cents_total-requested,
  All-lines_of_request,
}

module _ (fl : Floats) where
  module _ (v : Validation) (db : Engine) (env : Env fl.Float) where
    -- The order `order` placed for `req` on the tables `s`, which leaves `s'`.
    pub record IsPlaced (req : PlaceOrderReq) (s : Tables fl.Float) (order : Order fl.Float)
        (s' : Tables fl.Float) : Type 0 where
      -- Each product's stock is down by what the request asks, and was recorded.
      pub left :
          (j : String)
          → stock j s'.inventories ≡ minus (requested j req.lines) (stock j s.inventories)
      -- No line asks for nothing.
      pub asked : All (λ line. 1 ≤ line.quantity) req.lines
      pub had : (j : String) → stock j s.inventories ≡ none → requested j req.lines ≡ 0
      pub sound : IsSound s'.inventories
      -- The total is the exact sum of prices times quantities.
      pub exact : order.total_price ≡ from_minor_units fl (pos (price_of_request fl s req.lines))
      pub fits : price_of_request fl s req.lines ≤ max_int64
      pub fresh : order.id ≡ env.order_id
      pub owned : order.user_id ≡ req.user_id
      pub first_time : order.idempotency_replay ≡ false
      -- One order row, its lines, and one event that announces it.
      pub order_row :
          s'.orders
          ≡ s.orders
            ++ (before_create env.order_id env.order_code
                  (new_order fl v db env req (pos (price_of_request fl s req.lines)))
                ∷ [])
      pub line_rows :
          s'.order_lines
          ≡ s.order_lines
            ++ number_lines env.order_id env.line_ids 0 (lines_of_request fl s req.lines)
      pub payload : String
      pub encodes : encoded fl v db env order ≡ ok payload
      pub event_row :
          s'.outbox_events
          ≡ s.outbox_events
            ++ (pending_event env.event_id env.clock env.clock "order" env.order_id "order.created"
                  payload
                ∷ [])
      pub same_products : s'.products ≡ s.products

    clock_now : (new_outbox_service env.clock []).now ≡ env.clock
    clock_now = unfold new_outbox_service in refl

    -- The pieces of a placement, each by its lemma.
    module _ (req : PlaceOrderReq) (s s' : Tables fl.Float) (order : Order fl.Float)
        (t : Steps fl v db env req s order s') (h : IsSound s.inventories)
        (p : All (λ line. 1 ≤ line.quantity) req.lines) where
      priced_lem :
          (t.priced.total ≡ pos (price_of_request fl s req.lines))
          × (price_of_request fl s req.lines ≤ max_int64)
          × (t.priced.lines ≡ lines_of_request fl s req.lines)
      priced_lem =
          let q =
            (price_lines-IsPriced fl v db env (requested_lines fl v db env req) 0 [] s t.priced
              (omega arith) (ap (λ (x : Result _ × Tables fl.Float). x.0) t.prices)).0 in
          let c = cents_total-requested fl s req.lines in
          (
            q.total_exact ∙ ap pos (omega (arith, c)),
            omega (arith, c, q.total_fits),
            q.lines_priced,
          )

      planned_lem : (j : String) → planned j t.plan ≡ requested j req.lines
      planned_lem j =
          planned-stock_consumption_plan t.priced.lines t.plan j t.plans
          ∙ ap (ordered j) priced_lem.2
          ∙ ordered-lines_of_request fl s j req.lines

      drawn_lem : Drawn (λ j. planned j t.plan) s t.drawn
      drawn_lem =
          let items =
            stock_consumption_plan-All t.priced.lines t.plan
              (subst (All (λ line. 1 ≤ line.quantity)) (sym priced_lem.2)
                (All-lines_of_request fl s req.lines p))
              t.plans in
          subst (λ x. Drawn (λ j. planned j t.plan) s x)
            (ap (λ (x : Result _ × Tables fl.Float). x.1) t.draws)
            (consume_all-Drawn fl v db env t.plan s (All-weaken _ _ t.plan (λ item q. q.0) items) h
              (ap (λ (x : Result _ × Tables fl.Float). x.0) t.draws))

      stored_lem :
          (t.stored
            ≡ record (before_create env.order_id env.order_code
                (new_order fl v db env req t.priced.total)) {
                  lines = number_lines env.order_id env.line_ids 0 t.priced.lines;
                })
          × (t.stored_in ≡ record t.drawn {
            orders =
                t.drawn.orders
                ++ (before_create env.order_id env.order_code
                      (new_order fl v db env req t.priced.total)
                    ∷ []);
            order_lines =
                t.drawn.order_lines ++ number_lines env.order_id env.line_ids 0 t.priced.lines;
          })
      stored_lem =
          let (a, b) =
            create_order-ok db env.order_id env.order_code env.line_ids
              (new_order fl v db env req t.priced.total) t.priced.lines t.drawn t.stored
              (ap (λ (x : Result _ × Tables fl.Float). x.0) t.stores) in
          (a, sym (ap (λ (x : Result _ × Tables fl.Float). x.1) t.stores) ∙ b)

      announced_lem :
          (bytes : String) × (encoded fl v db env order ≡ ok bytes)
          × (s' ≡ record t.stored_in {
            outbox_events =
                t.stored_in.outbox_events
                ++ (pending_event env.event_id env.clock env.clock "order" order.id "order.created"
                      bytes
                    ∷ []);
          })
      announced_lem =
          let (bytes, a, b, c) =
            create_pending-ok db (new_outbox_service env.clock []) env.event_id env.clock "order"
              order.id "order.created" (encoded fl v db env order) t.stored_in t.event
              (ap (λ (x : Result _ × Tables fl.Float). x.0) t.announces) in
          (
            bytes,
            a,
            sym (ap (λ (x : Result _ × Tables fl.Float). x.1) t.announces)
                ∙ c
                ∙ ap
                    (λ event. record t.stored_in {
                      outbox_events = t.stored_in.outbox_events ++ (event ∷ []);
                    })
                    (b
                      ∙ ap
                          (λ now.
                            pending_event env.event_id env.clock now "order" order.id
                              "order.created" bytes)
                          clock_now),
          )

      placed_lem : IsPlaced req s order s'
      unfolding new_order before_create
      placed_lem =
          let q = priced_lem in
          let (so, si) = stored_lem in
          let (bytes, enc, st) = announced_lem in
          let d = drawn_lem in
          let order_is : order ≡ created_order fl v db env t.priced t.stored = t.result in
          let same : s'.inventories ≡ t.drawn.inventories = ground (arith, st, si) in
          record {
            left = λ j.
                ap (stock j) same
                ∙ d.left j
                ∙ ap (λ n. minus n (stock j s.inventories)) (planned_lem j);
            asked = p;
            had = λ j z. sym (planned_lem j) ∙ d.had j z;
            sound = subst IsSound (sym same) d.sound;
            exact = ground (arith, order_is, so, q);
            fits = q.1;
            fresh = ground (arith, order_is, so);
            owned = ground (arith, order_is, so);
            first_time = ground (arith, order_is, so);
            order_row = ground (arith, st, si, d.frame, q);
            line_rows = ground (arith, st, si, d.frame, q);
            payload = bytes;
            encodes = enc;
            event_row = ground (arith, st, si, d.frame, order_is, so);
            same_products = ground (arith, st, si, d.frame);
          }

    pub place_within-IsPlaced :
        (req : PlaceOrderReq) (s : Tables fl.Float) (order : Order fl.Float)
        → All (λ line. 1 ≤ line.quantity) req.lines
        → IsSound s.inventories
        → (place_within fl v db env req s).0 ≡ ok order
        → IsPlaced req s order (place_within fl v db env req s).1
    place_within-IsPlaced req s order p h e =
        placed_lem req s _ order
          (place_within-Steps fl v db env req s order
            (λ q f.
              (price_lines-IsPriced fl v db env (requested_lines fl v db env req) 0 [] s q
                (omega arith) f).1)
            e)
          h p
