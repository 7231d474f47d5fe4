-- ===== src/Outbox/Run.antt =====
-- What a whole run of the publisher leaves of every event.
use scalable_e_commerce_plat.Base.{
  ℕ, ◌+◌, ◌≤◌, String, ◌≡◌, refl, Bool, Option, none, some, List, [], ◌∷◌, Result, ok, err, Error,
  ◌==◌, eq_iff, arith, inl, inr, subst, ap, ◌∙◌, Bool-cases, Result-cases, if◌then◌else◌, leb,
}
use scalable_e_commerce_plat.Dbs.{Engine}
use scalable_e_commerce_plat.Store.{Tables, write_outbox_events}
use scalable_e_commerce_plat.Outbox.Model.{OutboxEvent}
use scalable_e_commerce_plat.Outbox.Repository as Events
use scalable_e_commerce_plat.Outbox.Service as Outbox
use scalable_e_commerce_plat.Outbox.Recording.{event_of, Recorded, published_row, failed_row}
use scalable_e_commerce_plat.Outbox.Failures.{
  settings, mark_published-Recorded, record_publish_failure-Recorded,
}
use scalable_e_commerce_plat.Outbox.Worker.{
  PublisherWorker, PublishBatchResult, service, mark_published, record_publish_failure, publish_all,
  run_once, claim, claim_fetched, no_result,
}

module _ (w : PublisherWorker) (send : OutboxEvent → Result (Unit {0})) where
  -- The row of an event that is the `n`-th of a run, by what the publisher answers of it.
  abbrev pub dealt_row : ℕ → OutboxEvent → Option OutboxEvent → Option OutboxEvent
  dealt_row n event none = none
  dealt_row n event (some row) = elim (send event) [
    | ok _ ↦ some (published_row (w.now n) row)
    | err e ↦ some (failed_row (settings w n) event row)
  ]

  -- The row with the id `j` after a run over events.
  abbrev pub row_after : ℕ → List OutboxEvent → String → Option OutboxEvent → Option OutboxEvent
  row_after n [] j o = o
  row_after n (event ∷ events) j o =
      row_after (n + 1) events j (if event.id == j then dealt_row n event o else o)

-- Nothing but the events has changed, and each as `after` says of its row.
pub record Ran {F : Type 0} (after : String → Option OutboxEvent → Option OutboxEvent)
    (s s' : Tables F) : Type 0 where
  pub frame : s' ≡ record s { outbox_events = s'.outbox_events }
  pub rows : (j : String) → event_of j s'.outbox_events ≡ after j (event_of j s.outbox_events)

module _ {F : Type 0} (db : Engine) (w : PublisherWorker) (p : 1 ≤ w.max_attempts)
    (q : 1 ≤ w.retry_base) where
  get_by_id-ok :
      (id : String) (s : Tables F) (event : OutboxEvent)
      → (Events.get_by_id db id s).0 ≡ ok event
      → event_of id s.outbox_events ≡ some event
  unfolding Events.get_by_id
  get_by_id-ok id s event e =
      ground (arith, e, db.first_replies OutboxEvent (λ x. x.id == id) s.outbox_events)

  mark_published-ok :
      (n : ℕ) (id : String) (s : Tables F)
      → (mark_published db w n id s).0 ≡ ok tt
      → (row : OutboxEvent) × (event_of id s.outbox_events ≡ some row)
  unfolding mark_published Outbox.mark_published Events.mark_published
  mark_published-ok n id s e = elim (Result-cases (Events.get_by_id {F = F} db id s).0) [
    | inl (row, f) ↦ (row, get_by_id-ok id s row f)
    | inr (x, f) ↦ absurd (
        ground (
          arith,
          e,
          f,
          db.transaction_settles (Tables F) (Unit {0}) (Outbox.mark_published db (service w n) id)
              s,
        ))
  ]

  record_publish_failure-ok :
      (n : ℕ) (event : OutboxEvent) (s : Tables F)
      → (record_publish_failure db w n event s).0 ≡ ok tt
      → (row : OutboxEvent) × (event_of event.id s.outbox_events ≡ some row)
  unfolding record_publish_failure Outbox.record_publish_failure Events.mark_publish_failed
  record_publish_failure-ok n event s e =
      elim (Result-cases (Events.get_by_id {F = F} db event.id s).0) [
        | inl (row, f) ↦ (row, get_by_id-ok event.id s row f)
        | inr (x, f) ↦ absurd (
            ground (
              arith,
              e,
              f,
              db.transaction_settles (Tables F) (Unit {0})
                  (Outbox.record_publish_failure db (service w n) (some event)) s,
            ))
      ]

  Ran-step :
      (id : String) (row row' : OutboxEvent) (deal : Option OutboxEvent → Option OutboxEvent)
      (s s' : Tables F)
      → event_of id s.outbox_events ≡ some row
      → deal (some row) ≡ some row'
      → Recorded id row' s s'
      → Ran (λ j o. if id == j then deal o else o) s s'
  Ran-step id row row' deal s s' z d r = record {
    frame = r.frame;
    rows = λ j. r.event j ∙ elim (Bool-cases (id == j)) [
      | inl t ↦
          ground
            (arith, t, d, subst (λ i. event_of i s.outbox_events ≡ some row) ((eq_iff id j).0 t) z)
      | inr t ↦ ground (arith, t)
    ];
  }

  Ran-trans :
      (f g : String → Option OutboxEvent → Option OutboxEvent) (s s' s'' : Tables F)
      → Ran f s s'
      → Ran g s' s''
      → Ran (λ j o. g j (f j o)) s s''
  Ran-trans f g s s' s'' a b = record {
    frame = b.frame ∙ ap (λ (x : Tables F). write_outbox_events s''.outbox_events x) a.frame;
    rows = λ j. b.rows j ∙ ap (g j) (a.rows j);
  }

  mark_published-Ran :
      (send : OutboxEvent → Result (Unit {0})) (n : ℕ) (event : OutboxEvent) (s : Tables F)
      → send event ≡ ok tt
      → (mark_published db w n event.id s).0 ≡ ok tt
      → Ran
          (λ j o. if event.id == j then dealt_row w send n event o else o)
          s
          (mark_published db w n event.id s).1
  mark_published-Ran send n event s a b =
      let (row, z) = mark_published-ok n event.id s b in
      elim (mark_published-Recorded db w p q n event.id row s z) [
        | inr (m, f) ↦ absurd (ground (arith, b, f))
        | inl (f, r) ↦
            Ran-step event.id row (published_row (w.now n) row) (dealt_row w send n event) s _ z
              (ground (arith, a)) r
      ]

  record_publish_failure-Ran :
      (send : OutboxEvent → Result (Unit {0})) (n : ℕ) (event : OutboxEvent) (s : Tables F)
      (e : Error)
      → send event ≡ err e
      → (record_publish_failure db w n event s).0 ≡ ok tt
      → Ran
          (λ j o. if event.id == j then dealt_row w send n event o else o)
          s
          (record_publish_failure db w n event s).1
  record_publish_failure-Ran send n event s e a b =
      let (row, z) = record_publish_failure-ok n event s b in
      elim (record_publish_failure-Recorded db w p q n event row s z).0 [
        | inr (m, f) ↦ absurd (ground (arith, b, f))
        | inl (f, r) ↦
            Ran-step event.id row (failed_row (settings w n) event row) (dealt_row w send n event) s
              _ z (ground (arith, a)) r
      ]

  -- A run over events that stops with no error has dealt with each.
  pub publish_all-Ran :
      (send : OutboxEvent → Result (Unit {0})) (n : ℕ) (events : List OutboxEvent)
      (r : PublishBatchResult) (s : Tables F)
      → (publish_all db w send n events r s).0.1 ≡ none
      → Ran (row_after w send n events) s (publish_all db w send n events r s).1
  unfolding publish_all
  publish_all-Ran send n [] r s e = record { frame = refl; rows = λ j. refl }
  publish_all-Ran send n (event ∷ events) r s e = elim (Result-cases (send event)) [
    | inl (u, a) ↦
        let step = mark_published {F = F} db w n event.id s in
        elim (Result-cases step.0) [
          | inr (x, b) ↦ absurd (ground (arith, a, b, e))
          | inl (u', b) ↦
              let next =
                publish_all db w send (n + 1) events (record r { published = r.published + 1 })
                  step.1 in
              let same : next ≡ publish_all db w send n (event ∷ events) r s =
                ground (arith, a, b) in
              subst (λ (x : _ × Tables F). Ran (row_after w send n (event ∷ events)) s x.1) same
                (Ran-trans _ (row_after w send (n + 1) events) s step.1 next.1
                  (mark_published-Ran send n event s a b)
                  (publish_all-Ran send (n + 1) events (record r { published = r.published + 1 })
                    step.1 (ground (arith, same, e))))
        ]
    | inr (c, a) ↦
        let step = record_publish_failure {F = F} db w n event s in
        let dead = if leb w.max_attempts (event.attempts + 1) then 1 else 0 in
        let counted : PublishBatchResult = record r {
          failed = r.failed + 1;
          dead_lettered = r.dead_lettered + dead;
        } in
        elim (Result-cases step.0) [
          | inr (x, b) ↦ absurd (ground (arith, a, b, e))
          | inl (u', b) ↦
              let next = publish_all db w send (n + 1) events counted step.1 in
              let same : next ≡ publish_all db w send n (event ∷ events) r s =
                ground (arith, a, b) in
              subst (λ (x : _ × Tables F). Ran (row_after w send n (event ∷ events)) s x.1) same
                (Ran-trans _ (row_after w send (n + 1) events) s step.1 next.1
                  (record_publish_failure-Ran send n event s c a b)
                  (publish_all-Ran send (n + 1) events counted step.1 (ground (arith, same, e))))
        ]
  ]

  -- Where the worker's maximum of attempts and its retry delay are positive, a run of the publisher
  -- that reports no error has claimed events, and from there has left the row of each published
  -- where the publisher took it, and where it did not with one attempt more, due after the int64
  -- product of its attempts and the delay, pending or a dead letter; no other event and no other
  -- table has changed.
  pub run_once-Ran :
      (send : OutboxEvent → Result (Unit {0})) (held : OutboxEvent → Bool) (s : Tables F)
      → w.publisher ≡ some send
      → (run_once db w held s).0.1 ≡ none
      → (events : List OutboxEvent) × (s1 : Tables F) × (claim db w held s ≡ (ok events, s1))
        × Ran (row_after w send 1 events) s1 (run_once db w held s).1
  unfolding run_once
  run_once-Ran send held s z e = elim (Bool-cases w.has_transactor) [
    | inr t ↦ absurd (ground (arith, t, e))
    | inl t ↦ elim (Result-cases (claim {F = F} db w held s).0) [
      | inr (x, f) ↦ absurd (ground (arith, t, z, f, e))
      | inl (events, f) ↦
          let s1 = (claim {F = F} db w held s).1 in
          let counted : PublishBatchResult = record no_result {
            fetched = claim_fetched {F = F} db w held s;
          } in
          let same : publish_all db w send 1 events counted s1 ≡ run_once db w held s =
            ground (arith, t, z, f) in
          (
            events,
            s1,
            λ i. (f i, s1),
            subst (λ (x : _ × Tables F). Ran (row_after w send 1 events) s1 x.1) same
                (publish_all-Ran send 1 events counted s1 (ground (arith, same, e))),
          )
    ]
  ]
