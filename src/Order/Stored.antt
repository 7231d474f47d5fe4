-- ===== src/Order/Stored.antt =====
-- What a creation that succeeds has stored: the order with its lines, and the event.
use mathlib.Core.List.{append-nil, append_assoc}
use scalable_e_commerce_plat.Base.{
  pos, ℕ, String, ◌≡◌, refl, List, [], ◌∷◌, ◌++◌, none, Result, ok, err, ◌==◌, arith, inl, inr,
  Result-cases, Bool-cases, Option-cases, ◌||◌, ◌∙◌,
}
use scalable_e_commerce_plat.Dbs.{Engine}
use scalable_e_commerce_plat.Dbs.Rows.{insert_rows, first_violated}
use scalable_e_commerce_plat.Store.{Tables}
use scalable_e_commerce_plat.Order.Model.{Order, OrderLine, before_create}
use scalable_e_commerce_plat.Order.Repository as Orders
use scalable_e_commerce_plat.Outbox.Model.{OutboxEvent, pending}
use scalable_e_commerce_plat.Outbox.Model as Event
use scalable_e_commerce_plat.Outbox.Repository as Events
use scalable_e_commerce_plat.Outbox.Service as Outbox
use scalable_e_commerce_plat.Outbox.Service.{OutboxService}

-- A batch that is stored stands behind the rows, whole and in order.
insert_rows-ok :
    {R : Type 0} (violates : R → R → List String) (batch rows rows' : List R)
    → insert_rows violates batch rows ≡ ok rows'
    → rows' ≡ rows ++ batch
insert_rows-ok violates [] rows rows' e = ground (arith, e, append-nil rows)
insert_rows-ok violates (row ∷ batch) rows rows' e =
    elim (Option-cases (first_violated (violates row) rows)) [
      | inl f ↦
          insert_rows-ok violates batch (rows ++ (row ∷ [])) rows' (ground (arith, e, f))
          ∙ append_assoc rows (row ∷ []) batch
      | inr (c, f) ↦ absurd (ground (arith, e, f))
    ]

-- The event that `CreatePending` stores.
abbrev pub pending_event : String → ℕ → ℕ → String → String → String → String → OutboxEvent
pending_event uuid clock now aggregate_type aggregate_id event_type payload =
    Event.before_create uuid clock (record {
      id = "";
      aggregate_type = aggregate_type;
      aggregate_id = aggregate_id;
      event_type = event_type;
      payload = payload;
      status = pending;
      attempts = 0;
      next_attempt_at = pos now;
      locked_at = none;
      locked_by = "";
      created_at = clock;
      published_at = none;
    })

module _ {F : Type 0} (db : Engine) where
  -- A creation that succeeds has appended the order and its lines, and answers them.
  pub create_order-ok :
      (uuid code : String) (line_ids : ℕ → String) (order : Order F) (lines : List (OrderLine F))
      (s : Tables F) (o : Order F)
      → (Orders.create_order db uuid code line_ids order lines s).0 ≡ ok o
      → (o ≡ record (before_create uuid code order) {
        lines = Orders.number_lines uuid line_ids 0 lines;
      })
        × ((Orders.create_order db uuid code line_ids order lines s).1 ≡ record s {
          orders = s.orders ++ (before_create uuid code order ∷ []);
          order_lines = s.order_lines ++ Orders.number_lines uuid line_ids 0 lines;
        })
  unfolding Orders.create_order Orders.insert_order before_create
  create_order-ok uuid code line_ids order lines s o e =
      let row : Order F = before_create uuid code order in
      let stored = Orders.number_lines uuid line_ids 0 lines in
      elim (Result-cases (db.insert (Order F) (Orders.violates row) row s.orders)) [
        | inr (x, f) ↦ absurd (ground (arith, f, e))
        | inl (rows, f) ↦
            elim (Result-cases
              (db.insert_batch (OrderLine F) Orders.line_violates stored s.order_lines)) [
                | inr (x, g) ↦ absurd (ground (arith, f, g, e))
                | inl (rows', g) ↦
                    let a : rows ≡ s.orders ++ (row ∷ []) =
                      ground (
                        arith,
                        f,
                        db.insert_replies (Order F) (Orders.violates row) row s.orders,
                      ) in
                    let b : rows' ≡ s.order_lines ++ stored =
                      insert_rows-ok Orders.line_violates stored s.order_lines rows' (
                        ground (
                          arith,
                          g,
                          db.insert_batch_replies (OrderLine F) Orders.line_violates stored
                              s.order_lines,
                        )) in
                    (ground (arith, f, g, e), ground (arith, f, g, e, a, b))
              ]
      ]

  pub create_pending-ok :
      (svc : OutboxService) (uuid : String) (clock : ℕ) (at ai et : String)
      (payload : Result String) (s : Tables F) (event : OutboxEvent)
      → (Outbox.create_pending db svc uuid clock at ai et payload s).0 ≡ ok event
      → (bytes : String) × (payload ≡ ok bytes)
        × (event ≡ pending_event uuid clock svc.now at ai et bytes)
        × ((Outbox.create_pending db svc uuid clock at ai et payload s).1
            ≡ record s { outbox_events = s.outbox_events ++ (event ∷ []) })
  unfolding Outbox.create_pending Events.create_pending
  create_pending-ok svc uuid clock at ai et (err x) s event e =
      elim (Bool-cases (at == "" || ai == "" || et == "")) [
        | inl t ↦ absurd (ground (arith, t, e))
        | inr t ↦ absurd (ground (arith, t, e))
      ]
  create_pending-ok svc uuid clock at ai et (ok bytes) s event e =
      let row = pending_event uuid clock svc.now at ai et bytes in
      elim (Bool-cases (at == "" || ai == "" || et == "")) [
        | inl t ↦ absurd (ground (arith, t, e))
        | inr t ↦
            elim (Result-cases (db.insert OutboxEvent (Events.violates row) row s.outbox_events)) [
              | inr (x, f) ↦ absurd (ground (arith, t, f, e))
              | inl (rows, f) ↦
                  let a : rows ≡ s.outbox_events ++ (row ∷ []) = ground (
                    arith,
                    f,
                    db.insert_replies OutboxEvent (Events.violates row) row s.outbox_events,
                  ) in
                  let v : event ≡ row = ground (arith, t, f, e) in
                  (bytes, refl, v, ground (arith, t, f, a, v))
            ]
      ]
