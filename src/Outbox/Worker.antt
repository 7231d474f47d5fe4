-- ===== src/Outbox/Worker.antt =====
-- internal/outbox/service/publisher_worker.go. Each transaction reads the clock once: `now 0` is the
-- reading of the claim, and `now n` that of the n-th event's finalisation. The metrics, the log and
-- the latency of the result are left out.
use scalable_e_commerce_plat.Base.{
  ℕ, ◌+◌, ◌*◌, String, Bool, Option, none, some, List, [], ◌∷◌, Result, ok, err, Error, Action, leb,
  ltb, length, ◌==◌, outbox_transactor_required, outbox_publisher_required, if◌then◌else◌,
}
use scalable_e_commerce_plat.Dbs.{Engine}
use scalable_e_commerce_plat.Store.{Tables}
use scalable_e_commerce_plat.Outbox.Model.{OutboxEvent}
use scalable_e_commerce_plat.Outbox.Service.{
  OutboxService, new_outbox_service, with_now, with_max_attempts, with_retry_delay,
}
use scalable_e_commerce_plat.Outbox.Service as Outbox

pub record PublisherWorker : Type 0 where
  pub has_transactor : Bool
  pub publisher : Option (OutboxEvent → Result (Unit {0}))
  pub now : ℕ → ℕ
  pub worker_id : String
  pub batch_size : ℕ
  pub max_attempts : ℕ
  pub retry_base : ℕ
  pub processing_timeout : ℕ

-- A size or a duration that is not positive is given as 0.
pub data PublisherSetting : Type 0 where
  with_publisher_now : (ℕ → ℕ) → PublisherSetting
  with_publisher_batch_size with_publisher_max_attempts with_publisher_retry_base :
      ℕ → PublisherSetting
  with_publisher_worker_id : String → PublisherSetting
  with_publisher_processing_timeout : ℕ → PublisherSetting

unfoldable pub apply_publisher_setting : PublisherSetting → PublisherWorker → PublisherWorker
apply_publisher_setting (with_publisher_now now) w = record w { now = now }
apply_publisher_setting (with_publisher_batch_size size) w =
    if ltb 0 size then record w { batch_size = size } else w
apply_publisher_setting (with_publisher_max_attempts max_attempts) w =
    if ltb 0 max_attempts then record w { max_attempts = max_attempts } else w
apply_publisher_setting (with_publisher_retry_base retry_base) w =
    if ltb 0 retry_base then record w { retry_base = retry_base } else w
apply_publisher_setting (with_publisher_worker_id worker_id) w =
    if worker_id == "" then w else record w { worker_id = worker_id }
apply_publisher_setting (with_publisher_processing_timeout timeout) w =
    if ltb 0 timeout then record w { processing_timeout = timeout } else w

unfoldable pub apply_publisher_settings : List PublisherSetting → PublisherWorker → PublisherWorker
apply_publisher_settings [] w = w
apply_publisher_settings (opt ∷ opts) w =
    apply_publisher_settings opts (apply_publisher_setting opt w)

-- `hostname` is what os.Hostname returns.
unfoldable pub default_publisher_worker_id : Result String → String
default_publisher_worker_id (err e) = "publisher-worker"
default_publisher_worker_id (ok name) = if name == "" then "publisher-worker" else name

unfoldable pub new_publisher_worker :
    Bool
    → Option (OutboxEvent → Result (Unit {0}))
    → (ℕ → ℕ)
    → Result String
    → List PublisherSetting
    → PublisherWorker
new_publisher_worker has_transactor publisher clock hostname opts =
    apply_publisher_settings opts (record {
      has_transactor = has_transactor;
      publisher = publisher;
      now = clock;
      worker_id = default_publisher_worker_id hostname;
      batch_size = 100;
      max_attempts = 3;
      retry_base = 60000000000;
      processing_timeout = 15 * 60000000000;
    })

pub record PublishBatchResult : Type 0 where
  pub fetched : ℕ
  pub published : ℕ
  pub failed : ℕ
  pub dead_lettered : ℕ

-- A result, and the error beside it.
abbrev pub Reported : Type 0
Reported = PublishBatchResult × Option Error

abbrev pub service : PublisherWorker → ℕ → OutboxService
service w n =
    new_outbox_service 0
      (with_now (w.now n) ∷ with_max_attempts w.max_attempts ∷ with_retry_delay w.retry_base ∷ [])

abbrev pub no_result : PublishBatchResult
no_result = record { fetched = 0; published = 0; failed = 0; dead_lettered = 0 }

module _ {F : Type 0} (db : Engine) (w : PublisherWorker) where
  unfoldable pub mark_published : ℕ → String → Action (Tables F) (Unit {0})
  mark_published n event_id =
      db.transaction (Tables F) (Unit {0}) (Outbox.mark_published db (service w n) event_id)

  unfoldable pub record_publish_failure : ℕ → OutboxEvent → Action (Tables F) (Unit {0})
  record_publish_failure n event =
      db.transaction (Tables F) (Unit {0})
        (Outbox.record_publish_failure db (service w n) (some event))

  -- The function of the transaction that claims.
  abbrev pub claim_body : (OutboxEvent → Bool) → Action (Tables F) (List OutboxEvent)
  claim_body held =
      Outbox.claim_ready db (service w 0) held w.batch_size w.worker_id w.processing_timeout

  unfoldable pub claim : (OutboxEvent → Bool) → Action (Tables F) (List OutboxEvent)
  claim held = db.transaction (Tables F) (List OutboxEvent) (claim_body held)

  -- `result.Fetched`, which that function has set by the time that it returns, whether or not the
  -- transaction commits.
  unfoldable pub claim_fetched : (OutboxEvent → Bool) → Tables F → ℕ
  claim_fetched held s =
      if db.calls (Tables F) (List OutboxEvent) (claim_body held) s
      then (elim (claim_body held s).0 [ ok events ↦ length events | err e ↦ 0 ])
      else 0

  -- The loop of RunOnce over the claimed events.
  unfoldable pub publish_all :
      (OutboxEvent → Result (Unit {0}))
      → ℕ
      → List OutboxEvent
      → PublishBatchResult
      → Tables F
      → Reported × Tables F
  publish_all send n [] r s = ((r, none), s)
  publish_all send n (event ∷ events) r s = elim (send event) [
    | err e ↦
        let (recorded, s') = record_publish_failure n event s in
        let r' = record r { failed = r.failed + 1 } in
        let dead = if leb w.max_attempts (event.attempts + 1) then 1 else 0 in
        elim recorded [
          | err x ↦ ((r', some x), s')
          | ok _ ↦
              publish_all send (n + 1) events
                (record r' { dead_lettered = r'.dead_lettered + dead }) s'
        ]
    | ok _ ↦
        let (marked, s') = mark_published n event.id s in
        elim marked [
          | err x ↦ ((r, some x), s')
          | ok _ ↦ publish_all send (n + 1) events (record r { published = r.published + 1 }) s'
        ]
  ]

  unfoldable pub run_once : (OutboxEvent → Bool) → Tables F → Reported × Tables F
  run_once held s =
      if w.has_transactor
      then (elim w.publisher [
        | none ↦ ((no_result, some outbox_publisher_required), s)
        | some send ↦
            let (claimed, s') = claim held s in
            elim claimed [
              | err e ↦ ((record no_result { fetched = claim_fetched held s }, some e), s')
              | ok events ↦
                  publish_all send 1 events (record no_result { fetched = claim_fetched held s }) s'
            ]
      ])
      else ((no_result, some outbox_transactor_required), s)
