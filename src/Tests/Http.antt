-- ===== src/Tests/Http.antt =====
-- Requests to the order handlers, with a Redis that keeps records and counters and never fails.
use mathlib.Core.List.{Perm}
use mathlib.Core.List.Perm
use Prim.Native.String.{◌++◌}
use scalable_e_commerce_plat.Base.{
  ℕ, suc, String, ◌≡◌, ◌⊎◌, inl, inr, refl, Bool, true, false, Option, none, some, List, [], ◌∷◌,
  ok, err, ◌==◌, eq_iff, arith, pos, new_error, ap, Error, Option-cases, if◌then◌else◌,
}
use scalable_e_commerce_plat.Dbs.Reference.{reliable}
use scalable_e_commerce_plat.Base.Words.{trim_space}
use scalable_e_commerce_plat.Store.{Tables}
use scalable_e_commerce_plat.Order.Model.{Order, PlaceOrderLineReq}
use scalable_e_commerce_plat.Order.Service as Service
use scalable_e_commerce_plat.Order.Http.{IdempotencyRecord, RecordCache, OrderHandler, Call}
use scalable_e_commerce_plat.Order.Http.Lines.{
  order_idempotency_redis_key, order_request_fingerprint,
}
use scalable_e_commerce_plat.Order.Http.Fingerprint.{order_request_fingerprint-perm}
use scalable_e_commerce_plat.Order.Http.Placement.{Request, place_allowed, place_order}
use scalable_e_commerce_plat.Order.Http.Slot.{IsRecordCache}
use scalable_e_commerce_plat.Order.Http.Keyed.{KeyedEnd, place_allowed-KeyedEnd}
use scalable_e_commerce_plat.Order.Http.Retry.{IsReplay, place_allowed-place_allowed}
use scalable_e_commerce_plat.Order.Http.Once.{Adds, place_order-Adds}
use scalable_e_commerce_plat.Order.Http.Limit.{Counts, admitted, admitted_lem}
use scalable_e_commerce_plat.Order.Http.Wiring.{order_service, place_allowed_repeated}
use scalable_e_commerce_plat.Tests.Orders.{placed, placed_now}
use scalable_e_commerce_plat.Tests.{hundredths, accepting, world, shop, request}

record Redis : Type 0 where
  records : String → Option IdempotencyRecord
  counters : String → ℕ

abbrev put : String → Option IdempotencyRecord → Redis → Redis
put key slot r = record r { records = λ k. if k == key then slot else r.records k }

abbrev redis : RecordCache Redis
redis = record {
  setnx_with_expiration = λ key x ttl r. elim (r.records key) [
    | none ↦ (ok true, put key (some x) r)
    | some old ↦ (ok false, r)
  ];
  get = λ key r. elim (r.records key) [
    | none ↦ (err (new_error "redis: nil"), r)
    | some x ↦ (ok x, r)
  ];
  set_with_expiration = λ key x ttl r. (ok tt, put key (some x) r);
  remove = λ key r. (ok tt, put key none r);
  increment_with_expiration = λ key window r. (
    ok (pos (suc (r.counters key))),
    record r { counters = λ k. if k == key then suc (r.counters key) else r.counters k },
  );
}

abbrev at : Redis → String → Option IdempotencyRecord
at r = r.records

redis-IsRecordCache : (faulty : Bool) → IsRecordCache at faulty redis
redis-IsRecordCache faulty = record {
  setnx_lem = λ key x ttl r. elim (Option-cases (r.records key)) [
    | inl e ↦ inl (ground (arith, e), e, ground (arith, e, eq_iff key key))
    | inr (old, e) ↦ inr (inl (old, ground (arith, e), e, ground (arith, e)))
  ];
  get_lem = λ key r. elim (Option-cases (r.records key)) [
    | inl e ↦ inr (inr (new_error "redis: nil", ground (arith, e), e))
    | inr (x, e) ↦ inl (x, ground (arith, e), e, ground (arith, e))
  ];
  set_lem = λ key x ttl r. inl (refl, ground (arith, eq_iff key key));
  remove_lem = λ key r. inl (refl, ground (arith, eq_iff key key));
}

redis-Counts : Counts (λ r. r.counters) redis
redis-Counts key window r = (refl, ground (arith, eq_iff key key))

abbrev empty : Redis
empty = record { records = λ _. none; counters = λ _. 0 }

abbrev handler : OrderHandler (Tables ℕ) Redis ℕ
handler = record {
  service = order_service hundredths accepting reliable world;
  cache = some redis;
  idempotency_ttl = pos 86400000000000;
  rate_limit_limit = pos 2;
  rate_limit_window = pos 60000000000;
  environment = "test";
  hash = λ s. s;
}

abbrev call : Call (Tables ℕ) Redis ℕ
call = record { tables = shop; redis = empty; responses = []; metrics = [] }

abbrev post : Request
post = record { body = ok request.lines; user_id = "ann"; idempotency_header = " k " }

abbrev ids_text : List PlaceOrderLineReq → String
ids_text [] = ""
ids_text (line ∷ lines) = line.product_id ++ ids_text lines

abbrev first : Call (Tables ℕ) Redis ℕ
first = place_allowed handler post request call

abbrev second : Call (Tables ℕ) Redis ℕ
second = place_allowed handler post request first

trimmed : trim_space " k " ≡ "k"
unfolding trim_space
trimmed = refl

-- A Redis that times out where the record is completed.
abbrev late : RecordCache Redis
late = record redis { set_with_expiration = λ key x ttl r. (err (new_error "i/o timeout"), r) }

late-IsRecordCache : IsRecordCache at true late
late-IsRecordCache = record {
  setnx_lem = (redis-IsRecordCache true).setnx_lem;
  get_lem = (redis-IsRecordCache true).get_lem;
  remove_lem = (redis-IsRecordCache true).remove_lem;
  set_lem = λ key x ttl r. inr (new_error "i/o timeout", refl, refl);
}

abbrev late_handler : OrderHandler (Tables ℕ) Redis ℕ
late_handler = record handler { cache = some late }

place_allowed-KeyedEnd_example :
    KeyedEnd at true late_handler late
      (order_idempotency_redis_key (λ s. s) "ann" (trim_space " k "))
      request
      call
      (place_allowed late_handler post request call)
place_allowed-KeyedEnd_example =
    place_allowed-KeyedEnd at true late_handler late refl late-IsRecordCache post request call
      (ap (λ s. s == "") trimmed)

place_allowed_repeated_example :
    (first.tables ≡ (Service.place_order hundredths accepting reliable world request shop).1)
    × (second.tables ≡ first.tables)
place_allowed_repeated_example =
    place_allowed_repeated hundredths accepting reliable world at handler redis refl
      (redis-IsRecordCache false) refl post request call placed (ap (λ s. s == "") trimmed) refl
      placed_now refl

place_allowed-place_allowed_example :
    (first.tables ≡ (Service.place_order hundredths accepting reliable world request shop).1)
    × (((order : Order ℕ) × ((Service.place_order hundredths accepting reliable world request
              shop).0
            ≡ ok order)
          × ((order.id == "") ≡ false
              → IsReplay at handler redis refl
                  (redis-IsRecordCache false)
                  post
                  request
                  call
                  order.id))
        ⊎ ((e : Error) × ((Service.place_order hundredths accepting reliable world request shop).0
              ≡ err e)
            × (second.tables
                ≡ (Service.place_order hundredths accepting reliable world request
                    first.tables).1)))
place_allowed-place_allowed_example =
    place_allowed-place_allowed at handler redis refl (redis-IsRecordCache false) post request call
      (ap (λ s. s == "") trimmed) refl

place_order-Adds_example : Adds handler 1 1 call (place_order handler ids_text post call)
place_order-Adds_example = place_order-Adds handler ids_text post call

-- Three requests where two are let pass.
admitted_lem_example : admitted handler 3 "ann" call ≡ 2
admitted_lem_example =
    admitted_lem handler (λ r. r.counters) redis refl redis-Counts 2 (omega arith) refl 3 "ann" call

abbrev tea_line : PlaceOrderLineReq
tea_line = record { product_id = "tea"; quantity = 3 }

abbrev cup_line : PlaceOrderLineReq
cup_line = record { product_id = "cup"; quantity = 1 }

order_request_fingerprint-perm_example :
    (order_request_fingerprint (λ s. s) ids_text (cup_line ∷ tea_line ∷ [])
      ≡ order_request_fingerprint (λ s. s) ids_text (tea_line ∷ cup_line ∷ []))
    × ((canonical : List PlaceOrderLineReq) × (order_request_fingerprint
            (λ s. s)
            ids_text
            (cup_line ∷ tea_line ∷ [])
          ≡ ids_text canonical)
        × Perm canonical (cup_line ∷ tea_line ∷ []))
order_request_fingerprint-perm_example =
    order_request_fingerprint-perm (λ s. s) ids_text (cup_line ∷ tea_line ∷ [])
      (tea_line ∷ cup_line ∷ []) (Perm.swap tea_line cup_line [])
