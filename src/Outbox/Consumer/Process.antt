-- ===== src/Outbox/Consumer/Process.antt =====
-- internal/outbox/consumer/redis_consumer.go: what a batch of messages goes through. `now` of the
-- consumer stamps its dead letters.
use scalable_e_commerce_plat.Base.{
  ℕ, ◌+◌, String, Bool, true, false, none, some, List, [], ◌∷◌, ok, err, Error, Action, pure, raise,
  catch, ◌>>=◌, ◌>>◌, ◌==◌, leb, length, cache_required, handler_required, processed_store_required,
  already_processed, wrapped, if◌then◌else◌,
}
use Prim.Native.String.{◌++◌}
use scalable_e_commerce_plat.Outbox.Stream.{
  Codec, text, other_value, RedisStreamMessage, StreamEvent, optional_string, parse_stream_message,
}
use scalable_e_commerce_plat.Outbox.Consumer.{
  Cache, ProcessedEventStore, RedisConsumer, BatchResult, empty_batch, reporting,
}

module _ {S : Type 0} (codec : Codec) (c : RedisConsumer S) (cache : Cache S) where
  unfoldable pub ack_message_id : String → Action S (Unit {0})
  ack_message_id message_id = cache.xack c.stream_name c.group_name message_id

  unfoldable pub ack : StreamEvent → Action S (Unit {0})
  ack event = ack_message_id event.message_id

  abbrev pub failure_key : String → String
  failure_key event_id =
      "consumer:failures:"
      ++ (c.stream_name
          ++ (":" ++ (c.group_name ++ (":" ++ (if event_id == "" then "unknown" else event_id)))))

  unfoldable pub record_failure : StreamEvent → Action S ℕ
  record_failure event = cache.increment_with_expiration (failure_key event.event_id) c.failure_ttl

  unfoldable pub dead_letter_event : StreamEvent → ℕ → String → Action S (Unit {0})
  dead_letter_event event failure_count error_type =
      cache.xadd c.dead_letter_stream_name (
        ("original_stream", text c.stream_name)
        ∷ ("original_group", text c.group_name)
        ∷ ("original_message_id", text event.message_id)
        ∷ ("event_id", text event.event_id)
        ∷ ("event_type", text event.event_type)
        ∷ ("aggregate_type", text event.aggregate_type)
        ∷ ("aggregate_id", text event.aggregate_id)
        ∷ ("payload", text event.payload)
        ∷ ("failure_count", other_value (codec.print_count failure_count))
        ∷ ("error_type", text error_type)
        ∷ ("dead_lettered_at", text c.now)
        ∷ [])
      >> pure tt

  unfoldable pub dead_letter_invalid_message : RedisStreamMessage → Action S (Unit {0})
  dead_letter_invalid_message message =
      let given = optional_string message.values "event_id" in
      cache.xadd c.dead_letter_stream_name (
        ("original_stream", text c.stream_name)
        ∷ ("original_group", text c.group_name)
        ∷ ("original_message_id", text message.id)
        ∷ ("event_id", text (if given == "" then message.id else given))
        ∷ ("event_type", text (optional_string message.values "event_type"))
        ∷ ("aggregate_type", text (optional_string message.values "aggregate_type"))
        ∷ ("aggregate_id", text (optional_string message.values "aggregate_id"))
        ∷ ("payload", text (optional_string message.values "payload"))
        ∷ ("failure_count", other_value (codec.print_count 1))
        ∷ ("error_type", text "parse_error")
        ∷ ("dead_lettered_at", text c.now)
        ∷ [])
      >> pure tt

  -- A message that does not parse.
  unfoldable pub reject_message : RedisStreamMessage → BatchResult → S → BatchResult × S
  reject_message message r s =
      let r1 = record r { invalid = r.invalid + 1; failed = r.failed + 1 } in
      let r2 = record r1 { dead_lettered = r1.dead_lettered + 1 } in
      let (stored, s1) = dead_letter_invalid_message message s in
      let (acked, s2) = ack_message_id message.id s1 in
      elim stored [
        | err e ↦ (r1, s1)
        | ok _ ↦ elim acked [ err e ↦ (r2, s2) | ok _ ↦ (record r2 { acked = r2.acked + 1 }, s2) ]
      ]

  -- An event that was processed before, or by another consumer meanwhile.
  unfoldable pub skip_event : StreamEvent → BatchResult → S → BatchResult × S
  skip_event event r s =
      let (acked, s1) = ack event s in
      elim acked [
        | err e ↦ (record r { failed = r.failed + 1 }, s1)
        | ok _ ↦ (record r { skipped = r.skipped + 1; acked = r.acked + 1 }, s1)
      ]

  -- An event that the handler refused, and was delivered so often that it is a dead letter.
  unfoldable pub bury_event : StreamEvent → ℕ → BatchResult → S → BatchResult × S
  bury_event event failure_count r s =
      let r1 = record r { dead_lettered = r.dead_lettered + 1 } in
      let (stored, s1) = dead_letter_event event failure_count "handler_error" s in
      let (acked, s2) = ack event s1 in
      elim stored [
        | err e ↦ (r, s1)
        | ok _ ↦ elim acked [ err e ↦ (r1, s2) | ok _ ↦ (record r1 { acked = r1.acked + 1 }, s2) ]
      ]

  -- An event that the handler refused.
  unfoldable pub fail_event : StreamEvent → BatchResult → S → BatchResult × S
  fail_event event r s =
      let r1 = record r { failed = r.failed + 1 } in
      let (counted, s1) = record_failure event s in
      elim counted [
        | err e ↦ (r1, s1)
        | ok failure_count ↦
            if leb c.max_delivery_attempts failure_count
            then bury_event event failure_count r1 s1
            else (r1, s1)
      ]

  abbrev pub is_already_processed : Error → Bool
  is_already_processed already_processed = true
  is_already_processed (wrapped what e) = is_already_processed e
  is_already_processed _ = false

  -- An event that the handler has taken.
  unfoldable pub finish_event :
      ProcessedEventStore S → StreamEvent → BatchResult → S → BatchResult × S
  finish_event store event r s =
      let (marked, s1) = store.mark_processed event.event_id s in
      let (acked, s2) = ack event s1 in
      elim marked [
        | err e ↦
            if is_already_processed e
            then skip_event event r s1
            else (record r { failed = r.failed + 1 }, s1)
        | ok _ ↦ elim acked [
          | err e ↦ (record r { failed = r.failed + 1 }, s2)
          | ok _ ↦ (record r { processed = r.processed + 1; acked = r.acked + 1 }, s2)
        ]
      ]

  module _ (handler : StreamEvent → Action S (Unit {0})) (store : ProcessedEventStore S) where
    -- An event that was not processed before.
    unfoldable pub deliver_event : StreamEvent → BatchResult → S → BatchResult × S
    deliver_event event r s =
        let (handled, s1) = handler event s in
        elim handled [ err e ↦ fail_event event r s1 | ok _ ↦ finish_event store event r s1 ]

    -- One turn of the loop of processMessages.
    unfoldable pub process_message : RedisStreamMessage → BatchResult → S → BatchResult × S
    process_message message r s = elim (parse_stream_message codec message) [
      | err e ↦ reject_message message r s
      | ok event ↦
          let (processed, s1) = store.was_processed event.event_id s in
          elim processed [
            | err e ↦ (record r { failed = r.failed + 1 }, s1)
            | ok before ↦ if before then skip_event event r s1 else deliver_event event r s1
          ]
    ]

    unfoldable pub process_all : List RedisStreamMessage → BatchResult → S → BatchResult × S
    process_all [] r s = (r, s)
    process_all (message ∷ messages) r s =
        let (r1, s1) = process_message message r s in process_all messages r1 s1

    unfoldable pub process_messages : List RedisStreamMessage → S → BatchResult × S
    process_messages messages = process_all messages (record empty_batch { read = length messages })

module _ {S : Type 0} (codec : Codec) (c : RedisConsumer S) where
  -- `busy_group` says that an error's text contains "BUSYGROUP".
  unfoldable pub ensure_group : (Error → Bool) → Action S (Unit {0})
  ensure_group busy_group = elim c.cache [
    | none ↦ raise cache_required
    | some cache ↦ catch (cache.xgroup_create_mkstream c.stream_name c.group_name "0") (λ e.
        if busy_group e then pure tt else raise (wrapped "create redis stream consumer group" e))
  ]

  -- `validate`, and the calls that follow it in RunOnce and ClaimStaleOnce.
  abbrev pub validated :
      (Cache S → (StreamEvent → Action S (Unit {0})) → ProcessedEventStore S → Action S BatchResult)
      → Action S BatchResult
  validated run = elim c.cache [
    | none ↦ raise cache_required
    | some cache ↦ elim c.handler [
      | none ↦ raise handler_required
      | some handler ↦ elim c.processed_store [
        | none ↦ raise processed_store_required
        | some store ↦ run cache handler store
      ]
    ]
  ]

  unfoldable pub run_once : Action S BatchResult
  run_once = validated (λ cache handler store.
      catch (cache.xread_group c.group_name c.consumer_name c.stream_name c.batch_size c.block)
        (λ e. raise (wrapped "read redis stream consumer group" e))
      >>= λ messages. reporting (process_messages codec c cache handler store messages))

  unfoldable pub claim_stale_once : Action S BatchResult
  claim_stale_once = validated (λ cache handler store.
      catch
        (cache.xauto_claim c.stream_name c.group_name c.consumer_name c.claim_start_id
          c.claim_min_idle c.claim_batch_size)
        (λ e. raise (wrapped "claim stale redis stream messages" e))
      >>= λ claimed.
          reporting (process_messages codec c cache handler store claimed.0) >>= λ result.
          pure (record result { next_claim_start = claimed.1 }))
