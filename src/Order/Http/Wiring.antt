-- ===== src/Order/Http/Wiring.antt =====
-- The order handlers over the order service (internal/order/port/http/routes.go builds them so).
use scalable_e_commerce_plat.Base.{
  String, ◌≡◌, ap, ◌||◌, not, true, false, Option, none, some, ok, ◌==◌, arith, inl, inr, ◌∙◌,
  Result-cases, Bool-cases,
}
use scalable_e_commerce_plat.Base.Words.{trim_space}
use scalable_e_commerce_plat.Dbs.{Engine}
use scalable_e_commerce_plat.Store.{Tables}
use scalable_e_commerce_plat.Validation.{Validation}
use scalable_e_commerce_plat.Money.{Floats}
use scalable_e_commerce_plat.Order.Model.{Order, PlaceOrderReq}
use scalable_e_commerce_plat.Order.Repository as Orders
use scalable_e_commerce_plat.Order.Service as Service
use scalable_e_commerce_plat.Order.Service.{Env}
use scalable_e_commerce_plat.Order.Http.{
  IdempotencyRecord, RecordCache, OrderService, OrderHandler, Call,
}
use scalable_e_commerce_plat.Order.Http.Lines.{order_idempotency_redis_key}
use scalable_e_commerce_plat.Order.Http.Placement.{Request, place_allowed}
use scalable_e_commerce_plat.Order.Http.Slot.{IsRecordCache}
use scalable_e_commerce_plat.Order.Http.Retry.{place_allowed-place_allowed}

module _ (fl : Floats) (v : Validation) (db : Engine) (env : Env fl.Float) where
  abbrev pub order_service : OrderService (Tables fl.Float) fl.Float
  order_service = record {
    place_order = Service.place_order fl v db env;
    get_order_by_id = Service.get_order_by_id fl v db env;
    cancel_order = Service.cancel_order fl v db env;
  }

  repository_reads :
      (id : String) (s : Tables fl.Float) → (Orders.get_order_by_id db id true s).1 ≡ s
  unfolding Orders.get_order_by_id Orders.preload
  repository_reads id s = ground arith

  get_order_by_id_reads :
      (id user_id : String) (s : Tables fl.Float)
      → (Service.get_order_by_id fl v db env id user_id s).1 ≡ s
  unfolding Service.get_order_by_id
  get_order_by_id_reads id user_id s =
      let same = repository_reads id s in
      elim (Result-cases (Orders.get_order_by_id db id true s).0) [
        | inr (x, e) ↦ ground (arith, e, same)
        | inl (order, e) ↦ elim (Bool-cases (user_id == "" || not (order.user_id == user_id))) [
          | inl t ↦ ground (arith, e, same, t)
          | inr t ↦ ground (arith, e, same, t)
        ]
      ]

  -- With a Redis that reports no error and the order service behind the handler, a request with an
  -- idempotency key that is not in use, whose order is placed, leaves the tables as PlaceOrder of
  -- the service leaves them; the same request sent again changes no table.
  pub place_allowed_repeated :
      {R : Type 0} (at : R → String → Option IdempotencyRecord)
      (h : OrderHandler (Tables fl.Float) R fl.Float) (cache : RecordCache R)
      → h.cache ≡ some cache
      → IsRecordCache at false cache
      → h.service ≡ order_service
      → (request : Request) (req : PlaceOrderReq) (c : Call (Tables fl.Float) R fl.Float)
        (order : Order fl.Float)
      → (trim_space request.idempotency_header == "") ≡ false
      → at c.redis
          (order_idempotency_redis_key h.hash req.user_id (trim_space request.idempotency_header))
        ≡ none
      → (Service.place_order fl v db env req c.tables).0 ≡ ok order
      → (order.id == "") ≡ false
      → let first = place_allowed h request req c in
        (first.tables ≡ (Service.place_order fl v db env req c.tables).1)
        × ((place_allowed h request req first).tables ≡ first.tables)
  place_allowed_repeated at h cache on laws wired request req c order k free e filled =
      let s = c.tables in
      let (t, said) = place_allowed-place_allowed at h cache on laws request req c k free in
      let answer : (h.service.place_order req s) ≡ Service.place_order fl v db env req s =
        ap (λ (x : OrderService (Tables fl.Float) fl.Float). x.place_order req s) wired in
      elim said [
        | inr (x, f, again) ↦ absurd (ground (arith, e, f, answer))
        | inl (o, f, again) ↦
            let same : o ≡ order = ground (arith, f, answer, e) in
            (
              t ∙ ap (λ x. x.1) answer,
              (again (ap (λ (x : Order fl.Float). x.id == "") same ∙ filled)).0
                  ∙ ap
                      (λ (x : OrderService (Tables fl.Float) fl.Float).
                        (x.get_order_by_id o.id req.user_id
                          (place_allowed h request req c).tables).1)
                      wired
                  ∙ get_order_by_id_reads o.id req.user_id (place_allowed h request req c).tables,
            )
      ]
