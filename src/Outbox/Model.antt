-- ===== src/Outbox/Model.antt =====
-- internal/outbox/model/outbox_event.go. An instant is the number of nanoseconds since Go's zero
-- time, so that `0` is the zero time of `IsZero`; the one that is computed may lie before it.
use scalable_e_commerce_plat.Base.{
  ℕ, ℤ, pos, negsuc, Bool, false, String, Option, ◌==◌, nat_eq, if◌then◌else◌,
}

-- `unset` is the empty string of an event that is not created yet.
pub data OutboxEventStatus : Type 0 where
  unset pending processing published dead_letter : OutboxEventStatus

pub record OutboxEvent : Type 0 where
  pub id : String
  pub aggregate_type : String
  pub aggregate_id : String
  pub event_type : String
  pub payload : String
  pub status : OutboxEventStatus
  pub attempts : ℕ
  pub next_attempt_at : ℤ
  pub locked_at : Option ℕ
  pub locked_by : String
  pub created_at : ℕ
  pub published_at : Option ℕ

-- `IsZero`
abbrev pub is_zero_time : ℤ → Bool
is_zero_time (pos n) = nat_eq n 0
is_zero_time (negsuc n) = false

-- `OutboxEvent.BeforeCreate`; `uuid` is what uuid.New returns and `now` what time.Now does.
unfoldable pub before_create : String → ℕ → OutboxEvent → OutboxEvent
before_create uuid now event = record event {
  id = if event.id == "" then uuid else event.id;
  status = elim event.status [ unset ↦ pending | other ↦ other ];
  payload = if event.payload == "" then "null" else event.payload;
  next_attempt_at = if is_zero_time event.next_attempt_at then pos now else event.next_attempt_at;
}
