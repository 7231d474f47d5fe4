-- ===== src/Outbox/Service.antt =====
-- internal/outbox/service/outbox.go. A service has the clock's reading, the retry delay and the
-- maximum of attempts; the constructor's options replace the defaults.
use scalable_e_commerce_plat.Base.{
  ℕ, pos, ◌+ℤ◌, wrap64, ◌+◌, ◌-◌, ◌*◌, String, Bool, ◌||◌, Option, none, some, List, [], ◌∷◌,
  Result, ok, err, Action, pure, raise, raise_if, lift, ◌>>=◌, ◌>>◌, ◌==◌, leb, ltb,
  outbox_identity_required, outbox_publisher_required, outbox_event_required, if◌then◌else◌,
}
use scalable_e_commerce_plat.Dbs.{Engine}
use scalable_e_commerce_plat.Store.{Tables}
use scalable_e_commerce_plat.Outbox.Model.{OutboxEvent, pending}
use scalable_e_commerce_plat.Outbox.Repository

-- One minute, in nanoseconds.
abbrev pub default_retry_delay : ℕ
default_retry_delay = 60000000000

abbrev pub default_max_attempts : ℕ
default_max_attempts = 3

pub record OutboxService : Type 0 where
  pub now : ℕ
  pub retry_delay : ℕ
  pub max_attempts : ℕ

-- `WithNow`, `WithRetryDelay`, `WithMaxAttempts`; a negative delay or maximum is given as 0.
pub data Setting : Type 0 where
  with_now : ℕ → Setting
  with_retry_delay with_max_attempts : ℕ → Setting

unfoldable pub apply_setting : Setting → OutboxService → OutboxService
apply_setting (with_now now) svc = record svc { now = now }
apply_setting (with_retry_delay delay) svc =
    if ltb 0 delay then record svc { retry_delay = delay } else svc
apply_setting (with_max_attempts max_attempts) svc =
    if ltb 0 max_attempts then record svc { max_attempts = max_attempts } else svc

apply_settings : List Setting → OutboxService → OutboxService
unfolding apply_setting
apply_settings [] svc = svc
apply_settings (opt ∷ opts) svc = apply_settings opts (apply_setting opt svc)

-- `clock` is what time.Now reads.
unfoldable pub new_outbox_service : ℕ → List Setting → OutboxService
unfolding apply_settings
new_outbox_service clock opts =
    apply_settings opts (record {
      now = clock;
      retry_delay = default_retry_delay;
      max_attempts = default_max_attempts;
    })

module _ {F : Type 0} (db : Engine) (svc : OutboxService) where
  -- `uuid` and `clock` are what uuid.New and time.Now return, `payload` what json.Marshal does.
  unfoldable pub create_pending :
      String → ℕ → String → String → String → Result String → Action (Tables F) OutboxEvent
  create_pending uuid clock aggregate_type aggregate_id event_type payload = do
    raise_if (aggregate_type == "" || aggregate_id == "" || event_type == "")
        outbox_identity_required
    payload_bytes ← lift payload
    Repository.create_pending db uuid clock (record {
      id = "";
      aggregate_type = aggregate_type;
      aggregate_id = aggregate_id;
      event_type = event_type;
      payload = payload_bytes;
      status = pending;
      attempts = 0;
      next_attempt_at = pos svc.now;
      locked_at = none;
      locked_by = "";
      created_at = 0;
      published_at = none;
    })

  unfoldable pub claim_ready :
      (OutboxEvent → Bool) → ℕ → String → ℕ → Action (Tables F) (List OutboxEvent)
  claim_ready held limit locked_by processing_timeout =
      Repository.claim_ready db held svc.now limit locked_by (svc.now - processing_timeout)

  unfoldable pub mark_published : String → Action (Tables F) (Unit {0})
  mark_published event_id = Repository.mark_published db event_id svc.now

  -- `event == nil` is `none`. The product of time.Duration is an int64.
  unfoldable pub record_publish_failure : Option OutboxEvent → Action (Tables F) (Unit {0})
  record_publish_failure none = raise outbox_event_required
  record_publish_failure (some event) = do
    let attempts_after_failure = event.attempts + 1
    let next_attempt_at = pos svc.now +ℤ wrap64 (pos (attempts_after_failure * svc.retry_delay))
    Repository.mark_publish_failed db event.id next_attempt_at
    if leb svc.max_attempts attempts_after_failure
        then Repository.mark_dead_letter db event.id
        else pure tt

  -- `publisher` is none where it is nil, and answers what its `Publish` returns.
  unfoldable pub publish :
      Option (OutboxEvent → Result (Unit {0})) → Option OutboxEvent → Action (Tables F) (Unit {0})
  publish none event = raise outbox_publisher_required
  publish (some send) none = raise outbox_event_required
  publish (some send) (some event) = elim (send event) [
    | err e ↦ record_publish_failure (some event) >> raise e
    | ok _ ↦ mark_published event.id
  ]
