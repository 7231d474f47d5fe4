-- ===== src/Outbox/Counts.antt =====
-- The counts that PublisherWorker.RunOnce reports.
use scalable_e_commerce_plat.Base.{
  ℕ, ◌+◌, ◌≤◌, ◌≡◌, Bool, none, some, List, [], ◌∷◌, Result, Action, ok, Error, arith, inl, inr,
  Result-cases, Bool-cases, Option-cases, subst, outbox_transactor_required,
  outbox_publisher_required, leb, length, if◌then◌else◌,
}
use scalable_e_commerce_plat.Dbs.{Engine}
use scalable_e_commerce_plat.Store.{Tables}
use scalable_e_commerce_plat.Outbox.Model.{OutboxEvent}
use scalable_e_commerce_plat.Outbox.Worker.{
  PublisherWorker, PublishBatchResult, Reported, mark_published, record_publish_failure,
  publish_all, run_once, claim, claim_body, claim_fetched, no_result,
}

-- Every event that a result counts is published or failed once, `n` of those read are still to come,
-- and no more are dead-lettered than failed.
abbrev pub Tallies : ℕ → PublishBatchResult → Type 0
Tallies n r = (r.published + r.failed + n ≡ r.fetched) × (r.dead_lettered ≤ r.failed)

-- A run without an error has dealt with every event; one that stops has left some or none.
abbrev pub Accounts : Reported → Type 0
Accounts (r, none) = Tallies 0 r
Accounts (r, some e) = (n : ℕ) × Tallies n r

accounts : (r r' : Reported) → r ≡ r' → Accounts r → Accounts r'
accounts r r' e h = subst Accounts e h

stopped : (r : PublishBatchResult) (e : Error) (n : ℕ) → Tallies n r → Accounts (r, some e)
stopped r e n h = (n, h)

module _ {F : Type 0} (db : Engine) (w : PublisherWorker) where
  -- A claim that commits has fetched the events that it answers.
  pub claim_fetched-length :
      (held : OutboxEvent → Bool) (s : Tables F) (events : List OutboxEvent)
      → (claim db w held s).0 ≡ ok events
      → claim_fetched db w held s ≡ length events
  unfolding claim claim_fetched
  claim_fetched-length held s events e =
      let body : Action (Tables F) (List OutboxEvent) = claim_body db w held in
      elim (db.calls_lem (Tables F) (List OutboxEvent) body s) [
        | inr (n, f) ↦ absurd (ground (arith, e, f))
        | inl t ↦ elim (db.transaction_settles (Tables F) (List OutboxEvent) body s) [
          | inr (n, f) ↦ absurd (ground (arith, e, f))
          | inl f ↦ elim (Result-cases (body s).0) [
            | inr (x, g) ↦ absurd (ground (arith, e, f, g))
            | inl (events', g) ↦
                let same : events' ≡ events = ground (arith, e, f, g) in ground (arith, t, g, same)
          ]
        ]
      ]

  publish_all-Accounts :
      (send : OutboxEvent → Result (Unit {0})) (n : ℕ) (events : List OutboxEvent)
      (r : PublishBatchResult) (s : Tables F)
      → Tallies (length events) r
      → Accounts (publish_all db w send n events r s).0
  unfolding publish_all
  publish_all-Accounts send n [] r s h = h
  publish_all-Accounts send n (event ∷ events) r s h = elim (Result-cases (send event)) [
    | inl (u, a) ↦ elim (Result-cases (mark_published {F = F} db w n event.id s).0) [
      | inr (x, b) ↦
          accounts (r, some x) _ (ground (arith, a, b)) (stopped r x (length (event ∷ events)) h)
      | inl (u', b) ↦
          accounts
            (publish_all db w send (n + 1) events (record r { published = r.published + 1 })
              (mark_published {F = F} db w n event.id s).1).0
            _ (ground (arith, a, b))
            (publish_all-Accounts send (n + 1) events (record r { published = r.published + 1 })
              (mark_published {F = F} db w n event.id s).1 (ground (arith, h)))
    ]
    | inr (e, a) ↦ elim (Result-cases (record_publish_failure {F = F} db w n event s).0) [
      | inr (x, b) ↦
          accounts ((record r { failed = r.failed + 1 }), some x) _ (ground (arith, a, b))
            (stopped (record r { failed = r.failed + 1 }) x (length events) (ground (arith, h)))
      | inl (u', b) ↦
          accounts
            (publish_all db w send (n + 1) events
              (record r {
                failed = r.failed + 1;
                dead_lettered =
                    r.dead_lettered + (if leb w.max_attempts (event.attempts + 1) then 1 else 0);
              })
              (record_publish_failure {F = F} db w n event s).1).0
            _ (ground (arith, a, b))
            (publish_all-Accounts send (n + 1) events
              (record r {
                failed = r.failed + 1;
                dead_lettered =
                    r.dead_lettered + (if leb w.max_attempts (event.attempts + 1) then 1 else 0);
              })
              (record_publish_failure {F = F} db w n event s).1 (ground (arith, h)))
    ]
  ]

  -- A run of the publisher without an error has counted each event that it fetched once, as
  -- published or failed, and no more dead letters than failures. A run that stops with an error has
  -- counted no more than it fetched.
  pub run_once-Accounts :
      (held : OutboxEvent → Bool) (s : Tables F) → Accounts (run_once db w held s).0
  unfolding run_once
  run_once-Accounts held s = elim (Bool-cases w.has_transactor) [
    | inr a ↦
        accounts (no_result, some outbox_transactor_required) _ (ground (arith, a))
          (stopped no_result outbox_transactor_required 0 (omega arith, omega arith))
    | inl a ↦ elim (Option-cases w.publisher) [
      | inl b ↦
          accounts (no_result, some outbox_publisher_required) _ (ground (arith, a, b))
            (stopped no_result outbox_publisher_required 0 (omega arith, omega arith))
      | inr (send, b) ↦ elim (Result-cases (claim {F = F} db w held s).0) [
        | inr (x, c) ↦
            let k = claim_fetched {F = F} db w held s in
            accounts (record no_result { fetched = k }, some x) _ (ground (arith, a, b, c))
              (stopped (record no_result { fetched = k }) x k (omega arith, omega arith))
        | inl (events, c) ↦
            let k = claim_fetched {F = F} db w held s in
            let counted : PublishBatchResult = record no_result { fetched = k } in
            accounts (publish_all db w send 1 events counted (claim {F = F} db w held s).1).0 _
              (ground (arith, a, b, c))
              (publish_all-Accounts send 1 events counted (claim {F = F} db w held s).1
                (omega (arith, claim_fetched-length held s events c), omega arith))
      ]
    ]
  ]
