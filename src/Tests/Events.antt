-- ===== src/Tests/Events.antt =====
-- Runs of the outbox.
use scalable_e_commerce_plat.Base.{
  ℕ, max_int64, ◌<◌, ◌*◌, ◌+◌, Bool, ◌≡◌, ◌⊎◌, refl, ok, err, arith, List, [], ◌∷◌, All, some, none,
  engine, other, true, false, Action, pos,
}
use scalable_e_commerce_plat.Dbs.Reference.{reliable}
use scalable_e_commerce_plat.Store.{Tables}
use scalable_e_commerce_plat.Outbox.Model.{OutboxEvent, pending}
use scalable_e_commerce_plat.Outbox.Repository.{claim, ids, one_of, claim_ready, limit_or_default}
use scalable_e_commerce_plat.Outbox.Claims.{claim_ready-exclusive}
use scalable_e_commerce_plat.Outbox.Claimed.{taken}
use scalable_e_commerce_plat.Outbox.Worker.{
  PublisherWorker, run_once, publish_all, mark_published, record_publish_failure,
}
use scalable_e_commerce_plat.Outbox.Worker.{claim as claim_events, claim_fetched}
use scalable_e_commerce_plat.Outbox.Run.{Ran, row_after, run_once-Ran}
use scalable_e_commerce_plat.Outbox.Service as OutboxService
use scalable_e_commerce_plat.Outbox.Service.{new_outbox_service, apply_setting}
use scalable_e_commerce_plat.Outbox.Repository as OutboxRepository
use scalable_e_commerce_plat.Outbox.Counts.{Accounts, run_once-Accounts}
use scalable_e_commerce_plat.Outbox.Recording.{Recorded, failed_row, due}
use scalable_e_commerce_plat.Outbox.Failures.{settings, record_publish_failure-Recorded}
use scalable_e_commerce_plat.Outbox.Stream.{
  Codec, RedisStreamMessage, StreamEvent, stream_values, parse_stream_message,
  parse_stream_message-stream_values,
}
use scalable_e_commerce_plat.Outbox.Consumer.{
  Cache, ProcessedEventStore, RedisConsumer, BatchResult, new_redis_consumer,
}
use scalable_e_commerce_plat.Outbox.Consumer.Process.{process_messages}
use scalable_e_commerce_plat.Outbox.Consumer.Tallies.{Tallied}
use scalable_e_commerce_plat.Outbox.Consumer.Noted.{
  Watched, watched_cache, watched_handler, watched_store, IsSettled, acks, dead_letters,
}
use scalable_e_commerce_plat.Outbox.Consumer.Acked.{process_messages-Accounted}
use scalable_e_commerce_plat.Tests.{shop}

abbrev event : OutboxEvent
event = record {
  id = "e1";
  aggregate_type = "order";
  aggregate_id = "o1";
  event_type = "order.created";
  payload = "{}";
  status = pending;
  attempts = 2;
  next_attempt_at = pos 1000;
  locked_at = none;
  locked_by = "";
  created_at = 1000;
  published_at = none;
}

abbrev events : Tables ℕ
events = record shop { outbox_events = event ∷ [] }

abbrev nobody : OutboxEvent → Bool
nobody _ = false

abbrev claimed : OutboxEvent
claimed = claim 2000 "w1" event

claimed_now : (claim_ready reliable nobody 2000 5 "w1" 500 events).0 ≡ ok (claimed ∷ [])
unfolding claim_ready
claimed_now = refl

-- Another worker, a little later, with a timeout that reaches back to 1900.
claimed_later :
    (claim_ready reliable nobody 2100 5 "w2" 1900
      (claim_ready reliable nobody 2000 5 "w1" 500 events).1).0
    ≡ ok []
unfolding claim_ready
claimed_later = refl

claim_ready-exclusive_example :
    All (λ (e : OutboxEvent). one_of (ids (claimed ∷ [])) e.id ≡ false) []
claim_ready-exclusive_example =
    claim_ready-exclusive reliable nobody nobody 2000 2100 5 5 "w1" "w2" 500 1900 events
      (claimed ∷ []) [] claimed_now (omega arith) claimed_later

abbrev worker : PublisherWorker
worker = record {
  has_transactor = true;
  publisher = some (λ _. ok tt);
  now = λ n. 2000 + n;
  worker_id = "w1";
  batch_size = 5;
  max_attempts = 3;
  retry_base = 60;
  processing_timeout = 900;
}

run_once-Accounts_example : Accounts (run_once reliable worker nobody events).0
run_once-Accounts_example = run_once-Accounts reliable worker nobody events

record_publish_failure-Recorded_example :
    (((record_publish_failure reliable worker 1 event events).0 ≡ ok tt)
        × Recorded "e1"
            (failed_row (settings worker 1) event event)
            events
            (record_publish_failure reliable worker 1 event events).1
      ⊎ ((m : ℕ) × (record_publish_failure reliable worker 1 event events
            ≡ (err (engine (other m)), events))))
    × ((due (settings worker 1) event ≡ pos (2001 + 3 * 60)) ⊎ (max_int64 < 3 * 60))
record_publish_failure-Recorded_example =
    record_publish_failure-Recorded reliable worker (omega arith) (omega arith) 1 event event events
      refl

abbrev codec : Codec
codec = record {
  json_valid = λ _. true;
  format_time = λ _. "1000";
  parse_time = λ _. some 1000;
  print_count = λ _. "1";
}

parse_stream_message-stream_values_example :
    parse_stream_message codec (record { id = "1-0"; values = stream_values codec event })
    ≡ ok (record {
      message_id = "1-0";
      event_id = "e1";
      aggregate_type = "order";
      aggregate_id = "o1";
      event_type = "order.created";
      payload = "{}";
      created_at = 1000;
    })
parse_stream_message-stream_values_example =
    parse_stream_message-stream_values codec "1-0" event refl refl refl refl refl refl refl

-- A Redis whose state is a number of calls.
abbrev redis : Cache ℕ
redis = record {
  xgroup_create_mkstream = λ _ _ _ s. (ok tt, s + 1);
  xread_group = λ _ _ _ _ _ s. (ok [], s + 1);
  xauto_claim = λ _ _ _ _ _ _ s. (ok ([], "0-0"), s + 1);
  xack = λ _ _ _ s. (ok tt, s + 1);
  xadd = λ _ _ s. (ok "1-0", s + 1);
  increment_with_expiration = λ _ _ s. (ok 1, s + 1);
  exists = λ _ s. (ok false, s + 1);
  setnx_with_expiration = λ _ _ s. (ok true, s + 1);
}

abbrev store : ProcessedEventStore ℕ
store = record { was_processed = λ _ s. (ok false, s + 1); mark_processed = λ _ s. (ok tt, s + 1) }

abbrev handler : StreamEvent → Action ℕ (Unit {0})
handler _ s = (ok tt, s + 1)

abbrev messages : List RedisStreamMessage
messages =
    record { id = "1-0"; values = stream_values codec event }
    ∷ record { id = "1-1"; values = [] }
    ∷ []

abbrev consumer : RedisConsumer (Watched ℕ)
consumer = new_redis_consumer none none none "now" []

abbrev outcome : BatchResult × Watched ℕ
outcome =
    process_messages codec consumer (watched_cache redis) (watched_handler handler)
      (watched_store codec consumer redis store) messages (0, [])

process_messages-Accounted_example :
    IsSettled codec consumer redis messages outcome.1.1
    × (acks outcome.1.1 ≡ outcome.0.acked)
    × (dead_letters outcome.1.1 ≡ outcome.0.dead_lettered)
    × Tallied 2 0 outcome.0
process_messages-Accounted_example =
    process_messages-Accounted codec consumer redis handler store messages 0

ran_now : (run_once reliable worker nobody events).0.1 ≡ none
unfolding run_once publish_all claim_events claim_fetched mark_published OutboxService.claim_ready
    OutboxService.mark_published OutboxRepository.claim_ready OutboxRepository.mark_published
    OutboxRepository.get_by_id OutboxRepository.save new_outbox_service apply_setting
ran_now = refl

run_once-Ran_example :
    (taken : List OutboxEvent) × (s1 : Tables ℕ) × (claim_events reliable worker nobody events
      ≡ (ok taken, s1))
    × Ran (row_after worker (λ _. ok tt) 1 taken) s1 (run_once reliable worker nobody events).1
run_once-Ran_example =
    run_once-Ran reliable worker (omega arith) (omega arith) (λ _. ok tt) nobody events refl ran_now
