-- ===== src/Outbox/Repository.antt =====
-- internal/outbox/repository/outbox.go. `now` and the other instants are numbers of nanoseconds.
-- FOR UPDATE SKIP LOCKED leaves out the rows that other transactions hold: `held` says which.
use scalable_e_commerce_plat.Base.{
  ℕ, String, Bool, true, false, not, ◌&&◌, ◌||◌, Option, none, some, List, [], ◌∷◌, map, ◌+◌,
  Action, pure, ◌>>=◌, ◌>>◌, ◌==◌, leb, ℤ, pos, leb_ℤ, nat_eq, if◌then◌else◌,
}
use scalable_e_commerce_plat.Dbs.{Engine, statement, query, answering}
use scalable_e_commerce_plat.Store.{Tables, write_outbox_events}
use scalable_e_commerce_plat.Outbox.Model.{
  OutboxEvent, OutboxEventStatus, pending, processing, published, dead_letter, before_create,
}

abbrev pub is_pending : OutboxEventStatus → Bool
is_pending pending = true
is_pending _ = false

abbrev pub is_processing : OutboxEventStatus → Bool
is_processing processing = true
is_processing _ = false

-- `locked_at IS NULL OR locked_at <= ?`
abbrev pub stale : ℕ → Option ℕ → Bool
stale stale_before none = true
stale stale_before (some at) = leb at stale_before

-- The WHERE condition of `pendingReadyQuery`.
abbrev pub pending_ready : ℕ → OutboxEvent → Bool
pending_ready now e = is_pending e.status && leb_ℤ e.next_attempt_at (pos now)

-- The WHERE condition of `claimableReadyQuery`.
abbrev pub claimable : ℕ → ℕ → OutboxEvent → Bool
claimable now stale_before e =
    pending_ready now e || (is_processing e.status && stale stale_before e.locked_at)

-- A limit of zero or less reads as 100; a negative limit is given as 0.
abbrev pub limit_or_default : ℕ → ℕ
limit_or_default limit = if nat_eq limit 0 then 100 else limit

abbrev pub created : OutboxEvent → ℕ
created e = e.created_at

abbrev pub claim : ℕ → String → OutboxEvent → OutboxEvent
claim now locked_by e = record e {
  status = processing;
  locked_at = some now;
  locked_by = locked_by;
}

abbrev pub ids : List OutboxEvent → List String
ids [] = []
ids (e ∷ events) = e.id ∷ ids events

-- `id IN ?`
abbrev pub one_of : List String → String → Bool
one_of [] id = false
one_of (x ∷ xs) id = x == id || one_of xs id

-- The primary key that a present row makes an INSERT violate.
abbrev pub violates : OutboxEvent → OutboxEvent → List String
violates row e = if e.id == row.id then "outbox_events_pkey" ∷ [] else []

module _ {F : Type 0} (db : Engine) where
  -- GORM stamps `created_at`.
  unfoldable pub create_pending : String → ℕ → OutboxEvent → Action (Tables F) OutboxEvent
  create_pending uuid now event =
      let row = before_create uuid now (record event { status = pending; created_at = now }) in
      statement (λ s. s.outbox_events) write_outbox_events
        (λ rows. answering row (db.insert OutboxEvent (violates row) row rows))

  unfoldable pub list_pending_ready : ℕ → ℕ → Action (Tables F) (List OutboxEvent)
  list_pending_ready now limit =
      query (λ s. s.outbox_events)
        (db.find OutboxEvent (pending_ready now) created (some (limit_or_default limit)))

  unfoldable pub list_pending_ready_locked :
      (OutboxEvent → Bool) → ℕ → ℕ → Action (Tables F) (List OutboxEvent)
  list_pending_ready_locked held now limit =
      query (λ s. s.outbox_events)
        (db.find OutboxEvent (λ e. pending_ready now e && not (held e)) created
          (some (limit_or_default limit)))

  unfoldable pub claim_ready :
      (OutboxEvent → Bool) → ℕ → ℕ → String → ℕ → Action (Tables F) (List OutboxEvent)
  claim_ready held now limit locked_by stale_before = do
    let owner = if locked_by == "" then "unknown" else locked_by
    events ←
        query (λ s. s.outbox_events)
          (db.find OutboxEvent (λ e. claimable now stale_before e && not (held e)) created
            (some (limit_or_default limit)))
    elim events [
      | [] ↦ pure []
      | e ∷ rest ↦
          statement (λ s. s.outbox_events) write_outbox_events
            (db.update OutboxEvent (λ x. one_of (ids (e ∷ rest)) x.id) (claim now owner)
              (λ _. true))
          >> pure (map (claim now owner) (e ∷ rest))
    ]

  unfoldable pub get_by_id : String → Action (Tables F) OutboxEvent
  get_by_id event_id = query (λ s. s.outbox_events) (db.first OutboxEvent (λ e. e.id == event_id))

  -- `r.db.Update(ctx, event)`
  unfoldable pub save : OutboxEvent → Action (Tables F) (Unit {0})
  save event =
      statement (λ s. s.outbox_events) write_outbox_events
        (λ rows. answering tt (db.save OutboxEvent (λ e. e.id == event.id) event rows))

  unfoldable pub mark_published : String → ℕ → Action (Tables F) (Unit {0})
  mark_published event_id published_at = do
    event ← get_by_id event_id
    save (record event {
      status = published;
      published_at = some published_at;
      locked_at = none;
      locked_by = "";
    })

  unfoldable pub mark_publish_failed : String → ℤ → Action (Tables F) (Unit {0})
  mark_publish_failed event_id next_attempt_at = do
    event ← get_by_id event_id
    save (record event {
      attempts = event.attempts + 1;
      status = pending;
      next_attempt_at = next_attempt_at;
      locked_at = none;
      locked_by = "";
    })

  unfoldable pub mark_dead_letter : String → Action (Tables F) (Unit {0})
  mark_dead_letter event_id = do
    event ← get_by_id event_id
    save (record event { status = dead_letter; locked_at = none; locked_by = "" })
