-- ===== src/Outbox/Failures.antt =====
-- What the publisher worker records of one event: that it is published, or that publishing failed.
use scalable_e_commerce_plat.Base.{
  ℕ, pos, max_int64, ◌<◌, ◌+◌, ◌*◌, ◌≤◌, String, ◌≡◌, refl, some, ok, err, engine, other, arith,
  inl, inr, subst, ◌⊎◌, Action,
}
use scalable_e_commerce_plat.Dbs.{Engine}
use scalable_e_commerce_plat.Store.{Tables}
use scalable_e_commerce_plat.Outbox.Model.{OutboxEvent}
use scalable_e_commerce_plat.Outbox.Service.{
  OutboxService, new_outbox_service, apply_setting, default_retry_delay,
}
use scalable_e_commerce_plat.Outbox.Service as Outbox
use scalable_e_commerce_plat.Outbox.Worker.{
  PublisherWorker, service, mark_published, record_publish_failure,
}
use scalable_e_commerce_plat.Outbox.Recording.{
  event_of, Recorded, Recorded-eq, Updates, published_row, failed_row, due, due_exact,
  record_publish_failure_lem, mark_published_lem,
}

-- A transaction whose body updates an event: it has, or the engine failed and nothing has changed.
transaction-Updates :
    {F : Type 0} (db : Engine) (id : String) (row : OutboxEvent)
    (body : Action (Tables F) (Unit {0})) (s : Tables F)
    → Updates db id row s (body s)
    → ((db.transaction (Tables F) (Unit {0}) body s).0 ≡ ok tt)
        × Recorded id row s (db.transaction (Tables F) (Unit {0}) body s).1
      ⊎ ((n : ℕ) × (db.transaction (Tables F) (Unit {0}) body s ≡ (err (engine (other n)), s)))
transaction-Updates {F} db id row body s u =
    elim (db.transaction_settles (Tables F) (Unit {0}) body s) [
      | inr f ↦ inr f
      | inl e ↦ elim u [
        | inr (n, f) ↦ inr (n, ground (arith, e, f))
        | inl (f, r) ↦ inl (
          ground (arith, e, f),
          Recorded-eq id row row s (body s).1 _ refl (ground (arith, e, f)) r,
        )
      ]
    ]

abbrev pub settings : PublisherWorker → ℕ → OutboxService
settings w n = record { now = w.now n; retry_delay = w.retry_base; max_attempts = w.max_attempts }

-- The options of the worker reach the service that it makes.
service_lem :
    (w : PublisherWorker) (n : ℕ)
    → 1 ≤ w.max_attempts
    → 1 ≤ w.retry_base
    → service w n ≡ settings w n
unfolding new_outbox_service apply_setting
service_lem w n p q = ground (arith, p, q)

module _ {F : Type 0} (db : Engine) (w : PublisherWorker) (p : 1 ≤ w.max_attempts)
    (q : 1 ≤ w.retry_base) where
  settled_failure :
      (n : ℕ) (event row : OutboxEvent) (s : Tables F)
      → event_of event.id s.outbox_events ≡ some row
      → ((record_publish_failure db w n event s).0 ≡ ok tt)
          × Recorded event.id
              (failed_row (settings w n) event row)
              s
              (record_publish_failure db w n event s).1
        ⊎ ((m : ℕ) × (record_publish_failure db w n event s ≡ (err (engine (other m)), s)))
  unfolding record_publish_failure
  settled_failure n event row s z =
      transaction-Updates db event.id (failed_row (settings w n) event row)
        (Outbox.record_publish_failure db (service w n) (some event)) s
        (subst
          (λ svc.
            Updates db event.id (failed_row svc event row) s
              (Outbox.record_publish_failure db (service w n) (some event) s))
          (service_lem w n p q) (record_publish_failure_lem db (service w n) event row s z))

  -- Where the worker's maximum of attempts and its retry delay are positive and the event is on
  -- record, recording a failed publication leaves its row with one attempt more, unlocked, due
  -- after the int64 product of the delay and the event's attempts, the failed one counted, and
  -- pending, or a dead letter where these attempts reach the maximum; no other event and no other
  -- table changes. Or the engine reports a fault and nothing has changed. That product is the exact
  -- one, unless the exact one exceeds math.MaxInt64.
  pub record_publish_failure-Recorded :
      (n : ℕ) (event row : OutboxEvent) (s : Tables F)
      → event_of event.id s.outbox_events ≡ some row
      → (((record_publish_failure db w n event s).0 ≡ ok tt)
            × Recorded event.id
                (failed_row (settings w n) event row)
                s
                (record_publish_failure db w n event s).1
          ⊎ ((m : ℕ) × (record_publish_failure db w n event s ≡ (err (engine (other m)), s))))
        × ((due (settings w n) event ≡ pos (w.now n + (event.attempts + 1) * w.retry_base))
            ⊎ (max_int64 < (event.attempts + 1) * w.retry_base))
  record_publish_failure-Recorded n event row s z =
      (settled_failure n event row s z, due_exact (settings w n) event)

  mark_published_at :
      (n : ℕ) (id : String) (row : OutboxEvent) (s : Tables F)
      → event_of id s.outbox_events ≡ some row
      → Updates db id
          (published_row (service w n).now row)
          s
          (Outbox.mark_published db (service w n) id s)
  unfolding Outbox.mark_published
  mark_published_at n id row s z = mark_published_lem db id (service w n).now row s z

  -- Where the worker's maximum of attempts and its retry delay are positive and the event is on
  -- record, marking it published leaves its row published, unlocked and dated by the clock; no
  -- other event and no other table changes. Or the engine reports a fault and nothing has changed.
  pub mark_published-Recorded :
      (n : ℕ) (id : String) (row : OutboxEvent) (s : Tables F)
      → event_of id s.outbox_events ≡ some row
      → ((mark_published db w n id s).0 ≡ ok tt)
          × Recorded id (published_row (w.now n) row) s (mark_published db w n id s).1
        ⊎ ((m : ℕ) × (mark_published db w n id s ≡ (err (engine (other m)), s)))
  unfolding mark_published
  mark_published-Recorded n id row s z =
      transaction-Updates db id (published_row (w.now n) row)
        (Outbox.mark_published db (service w n) id) s
        (subst
          (λ svc.
            Updates db id (published_row svc.now row) s
              (Outbox.mark_published db (service w n) id s))
          (service_lem w n p q) (mark_published_at n id row s z))
