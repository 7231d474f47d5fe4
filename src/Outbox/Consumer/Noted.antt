-- ===== src/Outbox/Consumer/Noted.antt =====
-- internal/outbox/consumer/redis_consumer.go, watched: each call of Redis, of the handler and of the
-- store of processed events leaves a note, the latest first, of what it answered.
use scalable_e_commerce_plat.Base.{
  ℕ, suc, String, ◌≡◌, ◌⊎◌, Bool, List, [], ◌∷◌, Result, ok, err, Action, if◌then◌else◌,
}
use scalable_e_commerce_plat.Outbox.Stream.{
  Codec, Values, RedisStreamMessage, StreamEvent, optional_string, parse_stream_message,
}
use scalable_e_commerce_plat.Outbox.Consumer.{Cache, ProcessedEventStore, RedisConsumer}
use scalable_e_commerce_plat.Outbox.Consumer.Process.{is_already_processed}

-- XACK of a message of a stream's group, and XADD to a stream, that succeeded; an event that the
-- handler took; an event's id that the store marked, and one that it knew already.
pub data Note : Type 0 where
  acked : String → String → String → Note
  stored : String → Values → Note
  handled : StreamEvent → Note
  marked known : String → Note

abbrev pub Watched : Type 0 → Type 0
Watched S = S × List Note

abbrev pub noting :
    {S A : Type 0} → (Result A → List Note → List Note) → Action S A → Action (Watched S) A
noting f m (s, notes) = let (r, s1) = m s in (r, (s1, f r notes))

abbrev pub silent : {A : Type 0} → Result A → List Note → List Note
silent r notes = notes

abbrev pub on_ok : {A : Type 0} → Note → Result A → List Note → List Note
on_ok n (ok a) notes = n ∷ notes
on_ok n (err e) notes = notes

abbrev pub on_true : Note → Result Bool → List Note → List Note
on_true n (ok b) notes = if b then n ∷ notes else notes
on_true n (err e) notes = notes

module _ {S : Type 0} where
  abbrev pub watched_cache : Cache S → Cache (Watched S)
  watched_cache cache = record {
    xgroup_create_mkstream =
        λ stream group start. noting silent (cache.xgroup_create_mkstream stream group start);
    xread_group = λ group consumer stream count block.
        noting silent (cache.xread_group group consumer stream count block);
    xauto_claim = λ stream group consumer start idle count.
        noting silent (cache.xauto_claim stream group consumer start idle count);
    xack = λ stream group id. noting (on_ok (acked stream group id)) (cache.xack stream group id);
    xadd = λ stream values. noting (on_ok (stored stream values)) (cache.xadd stream values);
    increment_with_expiration = λ key ttl. noting silent (cache.increment_with_expiration key ttl);
    exists = λ key. noting silent (cache.exists key);
    setnx_with_expiration = λ key ttl. noting silent (cache.setnx_with_expiration key ttl);
  }

  abbrev pub watched_handler :
      (StreamEvent → Action S (Unit {0})) → StreamEvent → Action (Watched S) (Unit {0})
  watched_handler handler event = noting (on_ok (handled event)) (handler event)

module _ {S : Type 0} (codec : Codec) (c : RedisConsumer (Watched S)) (cache : Cache S) where
  abbrev pub on_mark : String → Result (Unit {0}) → List Note → List Note
  on_mark event_id (ok a) notes = marked event_id ∷ notes
  on_mark event_id (err e) notes =
      if is_already_processed codec c (watched_cache cache) e then known event_id ∷ notes else notes

  abbrev pub watched_store : ProcessedEventStore S → ProcessedEventStore (Watched S)
  watched_store store = record {
    was_processed = λ id. noting (on_true (known id)) (store.was_processed id);
    mark_processed = λ id. noting (on_mark id) (store.mark_processed id);
  }

  -- A message of the batch holds the event.
  abbrev pub Carries : List RedisStreamMessage → String → String → Type 0
  Carries [] event_id message_id = ⊥
  Carries (message ∷ messages) event_id message_id =
      ((event : StreamEvent) × (parse_stream_message codec message ≡ ok event)
        × (event.event_id ≡ event_id)
        × (event.message_id ≡ message_id))
      ⊎ Carries messages event_id message_id

  -- What has just been done with a message, so that it can be acknowledged: it is stored as a dead
  -- letter, its event is handled and marked, or its event is known as processed.
  abbrev pub Settled : List RedisStreamMessage → String → List Note → Type 0
  Settled batch id (stored stream values ∷ notes) =
      (stream ≡ c.dead_letter_stream_name) × (optional_string values "original_message_id" ≡ id)
  Settled batch id (marked event_id ∷ handled event ∷ notes) =
      (event.event_id ≡ event_id) × (event.message_id ≡ id)
  Settled batch id (known event_id ∷ notes) = Carries batch event_id id
  Settled batch id _ = ⊥

  -- Every message that is acknowledged is one of the consumer's group, and was settled just before.
  abbrev pub IsSettled : List RedisStreamMessage → List Note → Type 0
  IsSettled batch [] = Unit {0}
  IsSettled batch (acked stream group id ∷ notes) =
      (stream ≡ c.stream_name)
      × (group ≡ c.group_name)
      × Settled batch id notes
      × IsSettled batch notes
  IsSettled batch (_ ∷ notes) = IsSettled batch notes

abbrev pub acks : List Note → ℕ
acks [] = 0
acks (acked stream group id ∷ notes) = suc (acks notes)
acks (_ ∷ notes) = acks notes

abbrev pub dead_letters : List Note → ℕ
dead_letters [] = 0
dead_letters (stored stream values ∷ notes) = suc (dead_letters notes)
dead_letters (_ ∷ notes) = dead_letters notes
