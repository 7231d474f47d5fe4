-- ===== src/Outbox/Consumer/Tallies.antt =====
-- The counts that the consumer reports of a batch.
use scalable_e_commerce_plat.Base.{
  ℕ, suc, ◌+◌, ◌≤◌, ◌<◌, ◌≡◌, refl, List, [], ◌∷◌, Action, arith, inl, inr, Result-cases, length,
}
use scalable_e_commerce_plat.Outbox.Stream.{
  Codec, RedisStreamMessage, StreamEvent, parse_stream_message,
}
use scalable_e_commerce_plat.Outbox.Consumer.{
  Cache, ProcessedEventStore, RedisConsumer, BatchResult, empty_batch,
}
use scalable_e_commerce_plat.Outbox.Consumer.Process.{
  record_failure, reject_message, skip_event, bury_event, fail_event, finish_event, deliver_event,
  process_message, process_all, process_messages,
}

-- The counts of a batch of `total` messages with `n` messages still to come: every message before is processed, skipped
-- or failed, and one that is acknowledged was processed, skipped or dead-lettered.
abbrev pub Tallied : ℕ → ℕ → BatchResult → Type 0
Tallied total n r =
    (r.read ≡ total)
    × (r.processed + r.skipped + r.failed + n ≡ total)
    × (r.processed + r.skipped ≤ r.acked)
    × (r.acked ≤ r.processed + r.skipped + r.dead_lettered)
    × (r.dead_lettered ≤ r.failed)
    × (r.invalid ≤ r.failed)

module _ {S : Type 0} (codec : Codec) (c : RedisConsumer S) (cache : Cache S) where
  reject_message-Tallied :
      (total n : ℕ) (message : RedisStreamMessage) (r : BatchResult) (s : S)
      → Tallied total (suc n) r
      → Tallied total n (reject_message codec c cache message r s).0
  unfolding reject_message
  reject_message-Tallied total n message r s t = ground (arith, t)

  skip_event-Tallied :
      (total n : ℕ) (event : StreamEvent) (r : BatchResult) (s : S)
      → Tallied total (suc n) r
      → Tallied total n (skip_event codec c cache event r s).0
  unfolding skip_event
  skip_event-Tallied total n event r s t = ground (arith, t)

  -- The event is failed already, so that one more may be dead-lettered.
  bury_event-Tallied :
      (total n count : ℕ) (event : StreamEvent) (r : BatchResult) (s : S)
      → Tallied total n r
      → r.dead_lettered < r.failed
      → Tallied total n (bury_event codec c cache event count r s).0
  unfolding bury_event
  bury_event-Tallied total n count event r s t h = ground (arith, t, h)

  fail_event-Tallied :
      (total n : ℕ) (event : StreamEvent) (r : BatchResult) (s : S)
      → Tallied total (suc n) r
      → Tallied total n (fail_event codec c cache event r s).0
  unfolding fail_event
  fail_event-Tallied total n event r s t =
      let r1 : BatchResult = record r { failed = r.failed + 1 } in
      let s1 = (record_failure codec c cache event s).1 in
      elim (Result-cases (record_failure codec c cache event s).0) [
        | inr (e, f) ↦ ground (arith, f, t)
        | inl (count, f) ↦ ground (
          arith,
          f,
          t,
          bury_event-Tallied total n count event r1 s1 (ground (arith, t)) (ground (arith, t)),
        )
      ]

  finish_event-Tallied :
      (total n : ℕ) (store : ProcessedEventStore S) (event : StreamEvent) (r : BatchResult) (s : S)
      → Tallied total (suc n) r
      → Tallied total n (finish_event codec c cache store event r s).0
  unfolding finish_event
  finish_event-Tallied total n store event r s t =
      ground
        (arith, t, skip_event-Tallied total n event r (store.mark_processed event.event_id s).1 t)

  module _ (handler : StreamEvent → Action S (Unit {0})) (store : ProcessedEventStore S) where
    deliver_event-Tallied :
        (total n : ℕ) (event : StreamEvent) (r : BatchResult) (s : S)
        → Tallied total (suc n) r
        → Tallied total n (deliver_event codec c cache handler store event r s).0
    unfolding deliver_event
    deliver_event-Tallied total n event r s t =
        let s1 = (handler event s).1 in
        ground (
          arith,
          fail_event-Tallied total n event r s1 t,
          finish_event-Tallied total n store event r s1 t,
        )

    process_message-Tallied :
        (total n : ℕ) (message : RedisStreamMessage) (r : BatchResult) (s : S)
        → Tallied total (suc n) r
        → Tallied total n (process_message codec c cache handler store message r s).0
    unfolding process_message
    process_message-Tallied total n message r s t =
        elim (Result-cases (parse_stream_message codec message)) [
          | inr (e, f) ↦ ground (arith, f, reject_message-Tallied total n message r s t)
          | inl (event, f) ↦
              let s1 = (store.was_processed event.event_id s).1 in
              ground (
                arith,
                f,
                t,
                skip_event-Tallied total n event r s1 t,
                deliver_event-Tallied total n event r s1 t,
              )
        ]

    process_all-Tallied :
        (total : ℕ) (messages : List RedisStreamMessage) (r : BatchResult) (s : S)
        → Tallied total (length messages) r
        → Tallied total 0 (process_all codec c cache handler store messages r s).0
    unfolding process_all
    process_all-Tallied total [] r s t = t
    process_all-Tallied total (message ∷ messages) r s t =
        let next = process_message codec c cache handler store message r s in
        process_all-Tallied total messages next.0 next.1
          (process_message-Tallied total (length messages) message r s t)

    -- The consumer counts each message of a batch once, as processed, skipped or failed. It
    -- acknowledges each that is processed or skipped, and none that is not processed, skipped or
    -- dead-lettered; what it dead-letters and what does not parse is failed.
    pub process_messages-Tallied :
        (messages : List RedisStreamMessage) (s : S)
        → Tallied (length messages) 0 (process_messages codec c cache handler store messages s).0
    unfolding process_messages
    process_messages-Tallied messages s =
        process_all-Tallied (length messages) messages
          (record empty_batch { read = length messages }) s
          (refl, omega arith, omega arith, omega arith, omega arith, omega arith)
