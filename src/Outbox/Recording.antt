-- ===== src/Outbox/Recording.antt =====
-- What the marks of the outbox repository make of one event's row, and RecordPublishFailure of it.
use scalable_e_commerce_plat.Base.{
  ℕ, ℤ, pos, max_int64, wrap64_of_InInt64, ◌<◌, ◌+ℤ◌, wrap64, ◌+◌, ◌*◌, String, ◌≡◌, refl, Option,
  none, some, List, Result, ok, err, engine, other, ◌==◌, eq_iff, arith, inl, inr, sym, subst, ap,
  ◌∙◌, Bool-cases, leb, if◌then◌else◌, ◌⊎◌,
}
use scalable_e_commerce_plat.Dbs.{Engine}
use scalable_e_commerce_plat.Dbs.Rows.{save_row}
use scalable_e_commerce_plat.Dbs.Keyed.{find_key, find_key-key}
use scalable_e_commerce_plat.Dbs.Saved.{find_key-save_row}
use scalable_e_commerce_plat.Store.{Tables, write_outbox_events}
use scalable_e_commerce_plat.Outbox.Model.{OutboxEvent, pending, published, dead_letter}
use scalable_e_commerce_plat.Outbox.Repository as Events
use scalable_e_commerce_plat.Outbox.Service.{
  OutboxService, new_outbox_service, apply_setting, default_retry_delay,
}
use scalable_e_commerce_plat.Outbox.Service as Outbox

abbrev pub id_of : OutboxEvent → String
id_of e = e.id

-- The event with an id, by the table's rows.
abbrev pub event_of : String → List OutboxEvent → Option OutboxEvent
event_of = find_key id_of

-- The event with `id` is now `row`, and nothing else has changed.
pub record Recorded {F : Type 0} (id : String) (row : OutboxEvent) (s s' : Tables F) : Type 0 where
  pub frame : s' ≡ record s { outbox_events = s'.outbox_events }
  pub event :
      (j : String)
      → event_of j s'.outbox_events ≡ (if id == j then some row else event_of j s.outbox_events)

-- The rows that the marks make of a row.
abbrev pub published_row : ℕ → OutboxEvent → OutboxEvent
published_row at row = record row {
  status = published;
  published_at = some at;
  locked_at = none;
  locked_by = "";
}

abbrev pub retry_row : ℤ → OutboxEvent → OutboxEvent
retry_row next row = record row {
  attempts = row.attempts + 1;
  status = pending;
  next_attempt_at = next;
  locked_at = none;
  locked_by = "";
}

abbrev pub dead_row : OutboxEvent → OutboxEvent
dead_row row = record row { status = dead_letter; locked_at = none; locked_by = "" }

-- When a failed event is tried again: the product with the delay wraps as time.Duration does.
abbrev pub due : OutboxService → OutboxEvent → ℤ
due svc event = pos svc.now +ℤ wrap64 (pos ((event.attempts + 1) * svc.retry_delay))

-- It is the instant plus the delay times the attempts, unless that product is no int64.
pub due_exact :
    (svc : OutboxService) (event : OutboxEvent)
    → (due svc event ≡ pos (svc.now + (event.attempts + 1) * svc.retry_delay))
      ⊎ (max_int64 < (event.attempts + 1) * svc.retry_delay)
unfolding ◌+ℤ◌
due_exact svc event =
    let delay = (event.attempts + 1) * svc.retry_delay in
    elim (Bool-cases (leb delay max_int64)) [
      | inl t ↦ inl (ground (arith, wrap64_of_InInt64 (pos delay) (ground (arith, t))))
      | inr t ↦ inr (ground (arith, t))
    ]

-- The row of an event that the publisher failed to send: it waits for a retry, later the more attempts
-- were made, or is a dead letter when it has had its attempts.
abbrev pub failed_row : OutboxService → OutboxEvent → OutboxEvent → OutboxEvent
failed_row svc event row =
    let retry = retry_row (due svc event) row in
    if leb svc.max_attempts (event.attempts + 1) then dead_row retry else retry

pub Recorded-eq :
    {F : Type 0} (id : String) (row row' : OutboxEvent) (s s' s'' : Tables F)
    → row ≡ row'
    → s' ≡ s''
    → Recorded id row s s'
    → Recorded id row' s s''
Recorded-eq id row row' s s' s'' e f r =
    subst (λ x. Recorded id x s s'') e (subst (Recorded id row s) f r)

-- The later of two records is the one that holds.
Recorded-trans :
    {F : Type 0} (id : String) (row row' : OutboxEvent) (s s' s'' : Tables F)
    → Recorded id row s s'
    → Recorded id row' s' s''
    → Recorded id row' s s''
Recorded-trans id row row' s s' s'' r q = record {
  frame = q.frame ∙ ap (λ (x : Tables _). write_outbox_events s''.outbox_events x) r.frame;
  event = λ j. elim (Bool-cases (id == j)) [
    | inl t ↦ ground (arith, t, q.event j)
    | inr t ↦ ground (arith, t, q.event j, r.event j)
  ];
}

module _ {F : Type 0} (db : Engine) where
  save_lem :
      (row : OutboxEvent) (s : Tables F)
      → (Events.save db row s ≡ (
        ok tt,
        record s { outbox_events = save_row (λ e. e.id == row.id) row s.outbox_events },
      ))
        ⊎ ((n : ℕ) × (Events.save db row s ≡ (err (engine (other n)), s)))
  unfolding Events.save
  save_lem row s =
      ground (arith, db.save_replies OutboxEvent (λ e. e.id == row.id) row s.outbox_events)

  get_by_id_lem :
      (id : String) (row : OutboxEvent) (s : Tables F)
      → event_of id s.outbox_events ≡ some row
      → (Events.get_by_id db id s ≡ (ok row, s))
        ⊎ ((n : ℕ) × (Events.get_by_id db id s ≡ (err (engine (other n)), s)))
  unfolding Events.get_by_id
  get_by_id_lem id row s z =
      ground (arith, z, db.first_replies OutboxEvent (λ e. e.id == id) s.outbox_events)

  -- An update of the event with `id` to a row with that id.
  abbrev pub Updates : String → OutboxEvent → Tables F → Result (Unit {0}) × Tables F → Type 0
  Updates id row s out =
      ((out.0 ≡ ok tt) × Recorded id row s out.1) ⊎ ((n : ℕ) × (out.0 ≡ err (engine (other n))))

  saves :
      (id : String) (row : OutboxEvent) (s : Tables F)
      → row.id ≡ id
      → Updates id row s (Events.save db row s)
  saves id row s e = elim (save_lem row s) [
    | inr (n, f) ↦ inr (n, ground (arith, f))
    | inl f ↦ inl (
      ground (arith, f),
      subst (λ (x : Result _ × Tables F). Recorded id row s x.1) (sym f)
          (record {
            frame = refl;
            event = λ j.
                subst
                  (λ i.
                    event_of j (save_row (λ e. e.id == row.id) row s.outbox_events)
                    ≡ (if i == j then some row else event_of j s.outbox_events))
                  e (find_key-save_row id_of j row s.outbox_events);
          }),
    )
  ]

  -- The repository's marks, each a read of the row and an update.
  pub mark_published_lem :
      (id : String) (at : ℕ) (row : OutboxEvent) (s : Tables F)
      → event_of id s.outbox_events ≡ some row
      → Updates id (published_row at row) s (Events.mark_published db id at s)
  unfolding Events.mark_published
  mark_published_lem id at row s z = elim (get_by_id_lem id row s z) [
    | inr (n, f) ↦ inr (n, ground (arith, f))
    | inl f ↦
        subst (Updates id (published_row at row) s) (ground (arith, f))
          (saves id (published_row at row) s (find_key-key id_of id s.outbox_events row z))
  ]

  mark_publish_failed_lem :
      (id : String) (next : ℤ) (row : OutboxEvent) (s : Tables F)
      → event_of id s.outbox_events ≡ some row
      → Updates id (retry_row next row) s (Events.mark_publish_failed db id next s)
  unfolding Events.mark_publish_failed
  mark_publish_failed_lem id next row s z = elim (get_by_id_lem id row s z) [
    | inr (n, f) ↦ inr (n, ground (arith, f))
    | inl f ↦
        subst (Updates id (retry_row next row) s) (ground (arith, f))
          (saves id (retry_row next row) s (find_key-key id_of id s.outbox_events row z))
  ]

  mark_dead_letter_lem :
      (id : String) (row : OutboxEvent) (s : Tables F)
      → event_of id s.outbox_events ≡ some row
      → Updates id (dead_row row) s (Events.mark_dead_letter db id s)
  unfolding Events.mark_dead_letter
  mark_dead_letter_lem id row s z = elim (get_by_id_lem id row s z) [
    | inr (n, f) ↦ inr (n, ground (arith, f))
    | inl f ↦
        subst (Updates id (dead_row row) s) (ground (arith, f))
          (saves id (dead_row row) s (find_key-key id_of id s.outbox_events row z))
  ]

  pub record_publish_failure_lem :
      (svc : OutboxService) (event row : OutboxEvent) (s : Tables F)
      → event_of event.id s.outbox_events ≡ some row
      → Updates event.id
          (failed_row svc event row)
          s
          (Outbox.record_publish_failure db svc (some event) s)
  unfolding Outbox.record_publish_failure
  record_publish_failure_lem svc event row s z =
      let next = due svc event in
      let first = Events.mark_publish_failed {F = F} db event.id next s in
      elim (mark_publish_failed_lem event.id next row s z) [
        | inr (n, f) ↦ inr (n, ground (arith, f))
        | inl (f, r) ↦ elim (Bool-cases (leb svc.max_attempts (event.attempts + 1))) [
          | inr t ↦ inl (
            ground (arith, f, t),
            Recorded-eq event.id (retry_row next row) (failed_row svc event row) s _ _
                (ground (arith, t)) (ground (arith, f, t)) r,
          )
          | inl t ↦
              elim (mark_dead_letter_lem event.id (retry_row next row) first.1
                (r.event event.id ∙ ground (arith, eq_iff event.id event.id))) [
                  | inr (n, g) ↦ inr (n, ground (arith, f, t, g))
                  | inl (g, q) ↦ inl (
                    ground (arith, f, t, g),
                    Recorded-eq event.id (dead_row (retry_row next row)) (failed_row svc event row)
                        s _ _ (ground (arith, t)) (ground (arith, f, t))
                        (Recorded-trans event.id _ _ s first.1 _ r q),
                  )
                ]
        ]
      ]
