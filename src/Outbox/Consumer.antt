-- ===== src/Outbox/Consumer.antt =====
-- internal/outbox/consumer/redis_consumer.go and store.go: the consumer and its options. Redis, the event handler and the store of
-- processed events are parameters that act on a state `S`; a nil one is none. The metrics, the log and
-- the cause in a dead letter are left out.
pub mod Process
pub mod Tallies
pub mod Noted
pub mod Acked
use scalable_e_commerce_plat.Base.{
  ℕ, suc, ◌+◌, ◌*◌, String, Bool, true, false, Option, none, some, List, [], ◌∷◌, Result, ok, err,
  Error, Action, pure, raise, catch, ◌>>=◌, ◌>>◌, ◌==◌, leb, ltb, length, cache_required,
  handler_required, processed_store_required, already_processed, wrapped, if◌then◌else◌,
}
use Prim.Native.String.{◌++◌}
use scalable_e_commerce_plat.Outbox.Stream.{
  Codec, Value, text, other_value, Values, RedisStreamMessage, StreamEvent, optional_string,
  parse_stream_message,
}

-- pkg/redis, by the operations that the consumer calls.
pub record Cache (S : Type 0) : Type 0 where
  pub xgroup_create_mkstream : String → String → String → Action S (Unit {0})
  pub xread_group : String → String → String → ℕ → ℕ → Action S (List RedisStreamMessage)
  pub xauto_claim :
      String → String → String → String → ℕ → ℕ → Action S (List RedisStreamMessage × String)
  pub xack : String → String → String → Action S (Unit {0})
  pub xadd : String → Values → Action S String
  pub increment_with_expiration : String → ℕ → Action S ℕ
  pub exists : String → Action S Bool
  pub setnx_with_expiration : String → ℕ → Action S Bool

pub record ProcessedEventStore (S : Type 0) : Type 0 where
  pub was_processed : String → Action S Bool
  pub mark_processed : String → Action S (Unit {0})

pub record RedisConsumer (S : Type 0) : Type 0 where
  pub cache : Option (Cache S)
  pub handler : Option (StreamEvent → Action S (Unit {0}))
  pub processed_store : Option (ProcessedEventStore S)
  pub stream_name : String
  pub group_name : String
  pub consumer_name : String
  pub batch_size : ℕ
  pub block : ℕ
  pub claim_min_idle : ℕ
  pub claim_batch_size : ℕ
  pub claim_start_id : String
  pub max_delivery_attempts : ℕ
  pub failure_ttl : ℕ
  pub dead_letter_stream_name : String
  pub now : String

-- `now` is the clock's reading in the layout of a dead letter. A number that is not positive is 0.
pub data ConsumerSetting : Type 0 where
  with_stream_name with_group_name with_consumer_name : String → ConsumerSetting
  with_batch_size with_block with_claim_min_idle with_claim_batch_size : ℕ → ConsumerSetting
  with_max_delivery_attempts with_failure_ttl : ℕ → ConsumerSetting
  with_dead_letter_stream_name with_consumer_now : String → ConsumerSetting

pub record BatchResult : Type 0 where
  pub read : ℕ
  pub processed : ℕ
  pub skipped : ℕ
  pub failed : ℕ
  pub invalid : ℕ
  pub acked : ℕ
  pub dead_lettered : ℕ
  pub next_claim_start : String

abbrev pub empty_batch : BatchResult
empty_batch = record {
  read = 0;
  processed = 0;
  skipped = 0;
  failed = 0;
  invalid = 0;
  acked = 0;
  dead_lettered = 0;
  next_claim_start = "";
}

-- A batch has no error of its own.
abbrev pub reporting : {S : Type 0} → (S → BatchResult × S) → Action S BatchResult
reporting run s = let (r, s1) = run s in (ok r, s1)

-- The keys of store.go.
abbrev pub processed_event_key : String → String
processed_event_key event_id = "processed:events:" ++ event_id

module _ {S : Type 0} where
  unfoldable pub apply_consumer_setting : ConsumerSetting → RedisConsumer S → RedisConsumer S
  apply_consumer_setting (with_stream_name x) c =
      if x == "" then c else record c { stream_name = x }
  apply_consumer_setting (with_group_name x) c = if x == "" then c else record c { group_name = x }
  apply_consumer_setting (with_consumer_name x) c =
      if x == "" then c else record c { consumer_name = x }
  apply_consumer_setting (with_batch_size n) c = if ltb 0 n then record c { batch_size = n } else c
  apply_consumer_setting (with_block n) c = if ltb 0 n then record c { block = n } else c
  apply_consumer_setting (with_claim_min_idle n) c =
      if ltb 0 n then record c { claim_min_idle = n } else c
  apply_consumer_setting (with_claim_batch_size n) c =
      if ltb 0 n then record c { claim_batch_size = n } else c
  apply_consumer_setting (with_max_delivery_attempts n) c =
      if ltb 0 n then record c { max_delivery_attempts = n } else c
  apply_consumer_setting (with_failure_ttl n) c =
      if ltb 0 n then record c { failure_ttl = n } else c
  apply_consumer_setting (with_dead_letter_stream_name x) c =
      if x == "" then c else record c { dead_letter_stream_name = x }
  apply_consumer_setting (with_consumer_now now) c = record c { now = now }

  unfoldable pub apply_consumer_settings : List ConsumerSetting → RedisConsumer S → RedisConsumer S
  apply_consumer_settings [] c = c
  apply_consumer_settings (opt ∷ opts) c =
      apply_consumer_settings opts (apply_consumer_setting opt c)

  unfoldable pub new_redis_consumer :
      Option (Cache S)
      → Option (StreamEvent → Action S (Unit {0}))
      → Option (ProcessedEventStore S)
      → String
      → List ConsumerSetting
      → RedisConsumer S
  new_redis_consumer cache handler processed_store clock opts =
      apply_consumer_settings opts (record {
        cache = cache;
        handler = handler;
        processed_store = processed_store;
        stream_name = "stream:orders";
        group_name = "order-events";
        consumer_name = "local-consumer-1";
        batch_size = 10;
        block = 5000000000;
        claim_min_idle = 60000000000;
        claim_batch_size = 10;
        claim_start_id = "0-0";
        max_delivery_attempts = 5;
        failure_ttl = 24 * 3600000000000;
        dead_letter_stream_name = "stream:orders:dead_letter";
        now = clock;
      })

  -- `RedisProcessedEventStore`, whose cache is none where it is nil.
  unfoldable pub was_processed : Option (Cache S) → String → Action S Bool
  was_processed none event_id = raise cache_required
  was_processed (some cache) event_id = cache.exists (processed_event_key event_id)

  unfoldable pub mark_processed : Option (Cache S) → ℕ → String → Action S (Unit {0})
  mark_processed none ttl event_id = raise cache_required
  mark_processed (some cache) ttl event_id = do
    first ← cache.setnx_with_expiration (processed_event_key event_id) ttl
    if first then pure tt else raise already_processed

  abbrev pub new_redis_processed_event_store : Option (Cache S) → ℕ → ProcessedEventStore S
  new_redis_processed_event_store cache ttl = record {
    was_processed = was_processed cache;
    mark_processed = mark_processed cache ttl;
  }
