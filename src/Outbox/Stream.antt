-- ===== src/Outbox/Stream.antt =====
-- The messages of the Redis stream: what internal/outbox/service/redis_stream_publisher.go writes and
-- internal/outbox/consumer/handler.go reads. `Codec` is encoding/json's json.Valid and the time
-- package's RFC3339Nano, and how fmt prints a count.
use scalable_e_commerce_plat.Base.{
  ℕ, String, ◌≡◌, refl, Bool, true, false, not, Option, none, some, List, [], ◌∷◌, Result, ok, err,
  Action, pure, raise, raise_if, catch, ◌>>◌, ◌==◌, arith, Bool-cases, inl, inr, cache_required,
  outbox_event_required, invalid_payload, invalid_created_at, field_required, wrapped,
  if◌then◌else◌,
}
use scalable_e_commerce_plat.Outbox.Model.{OutboxEvent}

pub record Codec : Type 0 where
  pub json_valid : String → Bool
  pub format_time : ℕ → String
  pub parse_time : String → Option ℕ
  pub print_count : ℕ → String

-- A value of map[string]interface{}: a string, bytes, or another value by what fmt.Sprint makes of it.
pub data Value : Type 0 where
  text bytes other_value : String → Value

abbrev pub Values : Type 0
Values = List (String × Value)

abbrev pub get : String → Values → Option Value
get key [] = none
get key ((k, x) ∷ values) = if k == key then some x else get key values

pub record RedisStreamMessage : Type 0 where
  pub id : String
  pub values : Values

pub record StreamEvent : Type 0 where
  pub message_id : String
  pub event_id : String
  pub aggregate_type : String
  pub aggregate_id : String
  pub event_type : String
  pub payload : String
  pub created_at : ℕ

abbrev pub stream_field_value_to_string : Value → String
stream_field_value_to_string (text s) = s
stream_field_value_to_string (bytes s) = s
stream_field_value_to_string (other_value s) = s

abbrev pub not_empty : String → String → Result String
not_empty key s = if s == "" then err (field_required key) else ok s

unfoldable pub required_string : Values → String → Result String
required_string values key = elim (get key values) [
  | none ↦ err (field_required key)
  | some x ↦ elim x [
    | text s ↦ not_empty key s
    | bytes s ↦ not_empty key s
    | other_value s ↦ not_empty key s
  ]
]

unfoldable pub optional_string : Values → String → String
optional_string values key = elim (get key values) [
  | none ↦ ""
  | some x ↦ stream_field_value_to_string x
]

abbrev pub created_at_of : Option ℕ → Result ℕ
created_at_of none = err invalid_created_at
created_at_of (some t) = ok t

-- A step that reads a result, and goes on.
infixl 5 ◌and_then◌
abbrev pub ◌and_then◌ : {A B : Type 0} → Result A → (A → Result B) → Result B
r and_then f = elim r [ ok a ↦ f a | err e ↦ err e ]

unfoldable pub parse_stream_message : Codec → RedisStreamMessage → Result StreamEvent
parse_stream_message codec message = required_string message.values "event_id" and_then λ event_id.
    required_string message.values "aggregate_type" and_then λ aggregate_type.
    required_string message.values "aggregate_id" and_then λ aggregate_id.
    required_string message.values "event_type" and_then λ event_type.
    required_string message.values "payload" and_then λ payload.
    if codec.json_valid payload
    then (required_string message.values "created_at" and_then λ created_at_value.
        created_at_of (codec.parse_time created_at_value) and_then λ created_at. ok (record {
          message_id = message.id;
          event_id = event_id;
          aggregate_type = aggregate_type;
          aggregate_id = aggregate_id;
          event_type = event_type;
          payload = payload;
          created_at = created_at;
        }))
    else err invalid_payload

abbrev pub payload_or_null : OutboxEvent → String
payload_or_null event = if event.payload == "" then "null" else event.payload

-- The values of the message of an event.
abbrev pub stream_values : Codec → OutboxEvent → Values
stream_values codec event =
    ("event_id", text event.id)
    ∷ ("aggregate_type", text event.aggregate_type)
    ∷ ("aggregate_id", text event.aggregate_id)
    ∷ ("event_type", text event.event_type)
    ∷ ("payload", text (payload_or_null event))
    ∷ ("created_at", text (codec.format_time event.created_at))
    ∷ []

abbrev pub stream_name_or_default : String → String
stream_name_or_default name = if name == "" then "stream:orders" else name

-- `RedisStreamPublisher.Publish`; the cache's XAdd is none where the cache is nil, the event none
-- where it is nil.
unfoldable pub publish :
    {S : Type 0}
    → Codec
    → Option (String → Values → Action S String)
    → String
    → Option OutboxEvent
    → Action S (Unit {0})
publish codec none stream_name event = raise cache_required
publish codec (some xadd) stream_name none = raise outbox_event_required
publish codec (some xadd) stream_name (some event) =
    raise_if (not (codec.json_valid (payload_or_null event))) invalid_payload
    >> catch (xadd (stream_name_or_default stream_name) (stream_values codec event) >> pure tt)
        (λ e. raise (wrapped "publish outbox event to redis stream" e))

payload_or_null_lem : (event : OutboxEvent) → (payload_or_null event == "") ≡ false
payload_or_null_lem event = elim (Bool-cases (event.payload == "")) [
  | inl t ↦ rw t refl
  | inr t ↦ rw t t
]

module _ (key s : String) (values : Values) (e : (s == "") ≡ false) where
  required_string_text : get key values ≡ some (text s) → required_string values key ≡ ok s
  unfolding required_string
  required_string_text g = ground (arith, g, e)

-- The message that the publisher writes for an event is read back by ParseStreamMessage as that
-- event, an empty payload as null, where its id, aggregate and type are not empty, its payload is
-- valid JSON, and its time is printed as a text that is not empty and that parses back.
pub parse_stream_message-stream_values :
    (codec : Codec) (id : String) (event : OutboxEvent)
    → (event.id == "") ≡ false
    → (event.aggregate_type == "") ≡ false
    → (event.aggregate_id == "") ≡ false
    → (event.event_type == "") ≡ false
    → codec.json_valid (payload_or_null event) ≡ true
    → (codec.format_time event.created_at == "") ≡ false
    → codec.parse_time (codec.format_time event.created_at) ≡ some event.created_at
    → parse_stream_message codec (record { id = id; values = stream_values codec event })
      ≡ ok (record {
        message_id = id;
        event_id = event.id;
        aggregate_type = event.aggregate_type;
        aggregate_id = event.aggregate_id;
        event_type = event.event_type;
        payload = payload_or_null event;
        created_at = event.created_at;
      })
unfolding parse_stream_message
parse_stream_message-stream_values codec id event a b c d e f g =
    let values = stream_values codec event in
    rw (required_string_text "event_id" event.id values a refl) (
      rw (required_string_text "aggregate_type" event.aggregate_type values b refl) (
        rw (required_string_text "aggregate_id" event.aggregate_id values c refl) (
          rw (required_string_text "event_type" event.event_type values d refl) (
            rw
              (required_string_text "payload" (payload_or_null event) values
                (payload_or_null_lem event) refl)
              (rw e (
                rw
                  (required_string_text "created_at" (codec.format_time event.created_at) values f
                    refl)
                  (rw g refl)))))))
