-- ===== src/Outbox/Consumer/Acked.antt =====
-- internal/outbox/consumer/redis_consumer.go: which messages of a batch are acknowledged.
use scalable_e_commerce_plat.Base.{
  ℕ, ◌+◌, All, All-weaken, ◌≡◌, inl, inr, refl, List, [], ◌∷◌, ok, Action, arith, Result-cases,
  Bool-cases, length,
}
use scalable_e_commerce_plat.Outbox.Stream.{
  Codec, RedisStreamMessage, StreamEvent, optional_string, parse_stream_message,
}
use scalable_e_commerce_plat.Outbox.Consumer.{
  Cache, ProcessedEventStore, RedisConsumer, BatchResult, empty_batch,
}
use scalable_e_commerce_plat.Outbox.Consumer.Process.{
  ack, ack_message_id, record_failure, dead_letter_event, dead_letter_invalid_message,
  reject_message, skip_event, bury_event, fail_event, finish_event, deliver_event, process_message,
  process_all, process_messages, is_already_processed,
}
use scalable_e_commerce_plat.Outbox.Consumer.Tallies.{Tallied, process_messages-Tallied}
use scalable_e_commerce_plat.Outbox.Consumer.Noted.{
  Note, handled, known, Watched, watched_cache, watched_handler, watched_store, Carries, Settled,
  IsSettled, acks, dead_letters,
}

module _ {S : Type 0} (codec : Codec) (c : RedisConsumer (Watched S)) (cache : Cache S)
    (batch : List RedisStreamMessage) where
  -- The acknowledged messages were settled, and the counts are those of the notes.
  abbrev pub Accounted : BatchResult × Watched S → Type 0
  Accounted (r, (s, notes)) =
      IsSettled codec c cache batch notes
      × (acks notes ≡ r.acked)
      × (dead_letters notes ≡ r.dead_lettered)

  skip_event-Accounted :
      (event : StreamEvent) (r : BatchResult) (s : S) (notes : List Note)
      → Accounted (r, (s, notes))
      → Settled codec c cache batch event.message_id notes
      → Accounted (skip_event codec c (watched_cache cache) event r (s, notes))
  unfolding skip_event ack ack_message_id
  skip_event-Accounted event r s notes g settled =
      elim (Result-cases (cache.xack c.stream_name c.group_name event.message_id s).0) [
        | inl (u, e) ↦ ground (arith, e, g, settled)
        | inr (x, e) ↦ ground (arith, e, g)
      ]

  reject_message-Accounted :
      (message : RedisStreamMessage) (r : BatchResult) (s : S) (notes : List Note)
      → Accounted (r, (s, notes))
      → Accounted (reject_message codec c (watched_cache cache) message r (s, notes))
  unfolding reject_message dead_letter_invalid_message ack_message_id optional_string
  reject_message-Accounted message r s notes g =
      let added = dead_letter_invalid_message codec c (watched_cache cache) message (s, notes) in
      elim (Result-cases added.0) [
        | inr (x, e) ↦ ground (arith, e, g)
        | inl (u, e) ↦
            elim (Result-cases (cache.xack c.stream_name c.group_name message.id added.1.0).0) [
              | inl (v, f) ↦ ground (arith, e, f, g)
              | inr (x, f) ↦ ground (arith, e, f, g)
            ]
      ]

  bury_event-Accounted :
      (event : StreamEvent) (count : ℕ) (r : BatchResult) (s : S) (notes : List Note)
      → Accounted (r, (s, notes))
      → Accounted (bury_event codec c (watched_cache cache) event count r (s, notes))
  unfolding bury_event dead_letter_event ack ack_message_id optional_string
  bury_event-Accounted event count r s notes g =
      let added =
        dead_letter_event codec c (watched_cache cache) event count "handler_error" (s, notes) in
      elim (Result-cases added.0) [
        | inr (x, e) ↦ ground (arith, e, g)
        | inl (u, e) ↦
            elim (Result-cases
              (cache.xack c.stream_name c.group_name event.message_id added.1.0).0) [
                | inl (v, f) ↦ ground (arith, e, f, g)
                | inr (x, f) ↦ ground (arith, e, f, g)
              ]
      ]

  fail_event-Accounted :
      (event : StreamEvent) (r : BatchResult) (s : S) (notes : List Note)
      → Accounted (r, (s, notes))
      → Accounted (fail_event codec c (watched_cache cache) event r (s, notes))
  unfolding fail_event record_failure
  fail_event-Accounted event r s notes g =
      let r1 : BatchResult = record r { failed = r.failed + 1 } in
      let counted = record_failure codec c (watched_cache cache) event (s, notes) in
      elim (Result-cases counted.0) [
        | inr (x, e) ↦ ground (arith, e, g)
        | inl (count, e) ↦
            ground (arith, e, g, bury_event-Accounted event count r1 counted.1.0 notes g)
      ]

  module _ (handler : StreamEvent → Action S (Unit {0})) (store : ProcessedEventStore S) where
    finish_event-Accounted :
        (event : StreamEvent) (r : BatchResult) (s : S) (notes : List Note)
        → Carries codec c cache batch event.event_id event.message_id
        → Accounted (r, (s, notes))
        → Accounted (
            finish_event codec c
              (watched_cache cache)
              (watched_store codec c cache store)
              event
              r
              (s, handled event ∷ notes))
    unfolding finish_event ack ack_message_id
    finish_event-Accounted event r s notes carried g =
        let mark = store.mark_processed event.event_id s in
        elim (Result-cases mark.0) [
          | inl (u, e) ↦
              elim (Result-cases
                (cache.xack c.stream_name c.group_name event.message_id mark.1).0) [
                  | inl (v, f) ↦ ground (arith, e, f, g)
                  | inr (x, f) ↦ ground (arith, e, f, g)
                ]
          | inr (x, e) ↦ elim (Bool-cases (is_already_processed codec c (watched_cache cache) x)) [
            | inr t ↦ ground (arith, e, t, g)
            | inl t ↦
                let skipped =
                  skip_event-Accounted event r mark.1 (known event.event_id ∷ handled event ∷ notes)
                    g carried in
                ground (arith, e, t, skipped)
          ]
        ]

    deliver_event-Accounted :
        (event : StreamEvent) (r : BatchResult) (s : S) (notes : List Note)
        → Carries codec c cache batch event.event_id event.message_id
        → Accounted (r, (s, notes))
        → Accounted (
            deliver_event codec c
              (watched_cache cache)
              (watched_handler handler)
              (watched_store codec c cache store)
              event
              r
              (s, notes))
    unfolding deliver_event
    deliver_event-Accounted event r s notes carried g = elim (Result-cases (handler event s).0) [
      | inl (u, e) ↦
          ground (arith, e, finish_event-Accounted event r (handler event s).1 notes carried g)
      | inr (x, e) ↦ ground (arith, e, fail_event-Accounted event r (handler event s).1 notes g)
    ]

    -- The events of these messages are carried by the batch.
    abbrev AreCarried : List RedisStreamMessage → Type 0
    AreCarried = All (λ message.
        (event : StreamEvent)
        → parse_stream_message codec message ≡ ok event
        → Carries codec c cache batch event.event_id event.message_id)

    process_message-Accounted :
        (message : RedisStreamMessage) (r : BatchResult) (w : Watched S)
        → ((event : StreamEvent)
            → parse_stream_message codec message ≡ ok event
            → Carries codec c cache batch event.event_id event.message_id)
        → Accounted (r, w)
        → Accounted (
            process_message codec c
              (watched_cache cache)
              (watched_handler handler)
              (watched_store codec c cache store)
              message
              r
              w)
    unfolding process_message
    process_message-Accounted message r (s, notes) carried g =
        elim (Result-cases (parse_stream_message codec message)) [
          | inr (x, e) ↦ ground (arith, e, reject_message-Accounted message r s notes g)
          | inl (event, e) ↦
              let held = carried event e in
              let seen = store.was_processed event.event_id s in
              elim (Result-cases seen.0) [
                | inr (x, f) ↦ ground (arith, e, f, g)
                | inl (before, f) ↦ elim (Bool-cases before) [
                  | inl t ↦ ground (
                    arith,
                    e,
                    f,
                    t,
                    skip_event-Accounted event r seen.1 (known event.event_id ∷ notes) g held,
                  )
                  | inr t ↦
                      ground (arith, e, f, t, deliver_event-Accounted event r seen.1 notes held g)
                ]
              ]
        ]

    process_all-Accounted :
        (messages : List RedisStreamMessage) (r : BatchResult) (w : Watched S)
        → AreCarried messages
        → Accounted (r, w)
        → Accounted (
            process_all codec c
              (watched_cache cache)
              (watched_handler handler)
              (watched_store codec c cache store)
              messages
              r
              w)
    unfolding process_all
    process_all-Accounted [] r w h g = g
    process_all-Accounted (message ∷ messages) r w h g =
        let next =
          process_message codec c (watched_cache cache) (watched_handler handler)
            (watched_store codec c cache store) message r w in
        process_all-Accounted messages next.0 next.1 h.1
          (process_message-Accounted message r w h.0 g)

module _ {S : Type 0} (codec : Codec) (c : RedisConsumer (Watched S)) (cache : Cache S) where
  Carries-self :
      (messages : List RedisStreamMessage)
      → All
          (λ message.
            (event : StreamEvent)
            → parse_stream_message codec message ≡ ok event
            → Carries codec c cache messages event.event_id event.message_id)
          messages
  Carries-self [] = tt
  Carries-self (message ∷ messages) = (
    λ event e. inl (event, e, refl, refl),
    All-weaken _ _ messages (λ m h event e. inr (h event e)) (Carries-self messages),
  )

  -- In a batch whose calls are watched, the consumer has acknowledged a message, in its own group
  -- of its stream, only directly after that message was stored in the dead letter stream, or its
  -- event was handled and then marked as processed, or the store answered that its event was
  -- processed already. The count of acknowledged messages is the number of XACKs that succeeded,
  -- and that of dead letters the number of XADDs that did. Each message is counted once, as
  -- processed, skipped or failed; no fewer are acknowledged than are processed or skipped, and no
  -- more than are processed, skipped or dead-lettered; dead letters and messages that do not parse
  -- are among the failed.
  pub process_messages-Accounted :
      (handler : StreamEvent → Action S (Unit {0})) (store : ProcessedEventStore S)
      (messages : List RedisStreamMessage) (s : S)
      → let out =
          process_messages codec c
            (watched_cache cache)
            (watched_handler handler)
            (watched_store codec c cache store)
            messages
            (s, []) in
        IsSettled codec c cache messages out.1.1
        × (acks out.1.1 ≡ out.0.acked)
        × (dead_letters out.1.1 ≡ out.0.dead_lettered)
        × Tallied (length messages) 0 out.0
  unfolding process_messages
  process_messages-Accounted handler store messages s =
      let (settled, counted, buried) =
        process_all-Accounted codec c cache messages handler store messages
          (record empty_batch { read = length messages }) (s, []) (Carries-self messages)
          (tt, refl, refl) in
      (
        settled,
        counted,
        buried,
        process_messages-Tallied codec c (watched_cache cache) (watched_handler handler)
            (watched_store codec c cache store) messages (s, []),
      )
