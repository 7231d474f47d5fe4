-- ===== src/Outbox/Claims.antt =====
-- The claim of ready events: what it takes, and that what is claimed is not claimed again until the
-- processing timeout has passed.
use scalable_e_commerce_plat.Base.{
  ℕ, suc, List-cases, ◌≤◌, ◌<◌, String, ◌≡◌, refl, Bool, true, false, not, ◌&&◌, some, List, [],
  ◌∷◌, map, ok, err, engine, other, ◌==◌, arith, inl, inr, sym, subst, ap, ◌∙◌, length,
  length-take-le, All, All-weaken, if◌then◌else◌, ◌⊎◌,
}
use scalable_e_commerce_plat.Dbs.{Engine}
use scalable_e_commerce_plat.Dbs.Rows.{find_rows, filter_where, sort_by, map_where, all_where}
use scalable_e_commerce_plat.Dbs.Pages.{filter_where-All_both, sort_by-All, take-All}
use scalable_e_commerce_plat.Store.{Tables}
use scalable_e_commerce_plat.Outbox.Model.{OutboxEvent}
use scalable_e_commerce_plat.Outbox.Repository.{
  claimable, limit_or_default, created, claim, ids, one_of, claim_ready,
}

-- The events that a claim may take, oldest first and no more than the limit.
abbrev pub chosen : (OutboxEvent → Bool) → ℕ → ℕ → ℕ → List OutboxEvent → List OutboxEvent
chosen held now limit stale_before rows =
    find_rows (λ e. claimable now stale_before e && not (held e)) created
      (some (limit_or_default limit)) rows

abbrev pub owner : String → String
owner locked_by = if locked_by == "" then "unknown" else locked_by

all_where-true :
    (p : OutboxEvent → Bool) (rows : List OutboxEvent) → all_where p (λ _. true) rows ≡ true
all_where-true p [] = refl
all_where-true p (r ∷ rows) = ground (arith, all_where-true p rows)

map_where-false :
    (set : OutboxEvent → OutboxEvent) (rows : List OutboxEvent)
    → map_where (λ _. false) set rows ≡ rows
map_where-false set [] = refl
map_where-false set (r ∷ rows) = ap (λ rs. r ∷ rs) (map_where-false set rows)

module _ (P : OutboxEvent → Type 0) where
  pub map-All :
      (f : OutboxEvent → OutboxEvent) (Q : OutboxEvent → Type 0) (rows : List OutboxEvent)
      → ((e : OutboxEvent) → P e → Q (f e))
      → All P rows
      → All Q (map f rows)
  map-All f Q [] h k = tt
  map-All f Q (r ∷ rows) h k = (h r k.0, map-All f Q rows h k.1)

module _ {F : Type 0} (db : Engine) (held : OutboxEvent → Bool) (now limit : ℕ) (locked_by : String)
    (stale_before : ℕ) where
  -- ClaimReady answers the ready events that no other transaction holds, oldest first and up to the
  -- limit, each marked as claimed, and has marked exactly the rows with their ids. Or the engine
  -- reports a fault and nothing has changed.
  pub claim_ready_lem :
      (s : Tables F)
      → (claim_ready db held now limit locked_by stale_before s ≡ (
        ok (map (claim now (owner locked_by)) (chosen held now limit stale_before s.outbox_events)),
        record s {
          outbox_events =
              map_where
                (λ x. one_of (ids (chosen held now limit stale_before s.outbox_events)) x.id)
                (claim now (owner locked_by))
                s.outbox_events;
        },
      ))
        ⊎ ((n : ℕ) × (claim_ready db held now limit locked_by stale_before s
              ≡ (err (engine (other n)), s)))
  unfolding claim_ready
  claim_ready_lem s =
      let found =
        db.find_replies OutboxEvent (λ e. claimable now stale_before e && not (held e)) created
          (some (limit_or_default limit)) s.outbox_events in
      let picked = chosen held now limit stale_before s.outbox_events in
      let upd =
        db.update_replies OutboxEvent (λ x. one_of (ids picked) x.id) (claim now (owner locked_by))
          (λ _. true) s.outbox_events in
      let fits = all_where-true (λ x. one_of (ids picked) x.id) s.outbox_events in
      elim (List-cases picked) [
        | inl z ↦
            ground (arith, found, z, map_where-false (claim now (owner locked_by)) s.outbox_events)
        | inr (x, xs, z) ↦ ground (arith, found, z, upd, fits)
      ]

length-map :
    (f : OutboxEvent → OutboxEvent) (rows : List OutboxEvent) → length (map f rows) ≡ length rows
length-map f [] = refl
length-map f (r ∷ rows) = ap suc (length-map f rows)

ids-claim :
    (now : ℕ) (by : String) (rows : List OutboxEvent) → ids (map (claim now by) rows) ≡ ids rows
ids-claim now by [] = refl
ids-claim now by (r ∷ rows) = ap (λ xs. r.id ∷ xs) (ids-claim now by rows)

-- An event of the list is not ready for a claim with these instants.
abbrev Spared : List String → ℕ → ℕ → OutboxEvent → Type 0
Spared taken now stale_before e = one_of taken e.id ≡ true → claimable now stale_before e ≡ false

claimed-Spared :
    (taken : List String) (now : ℕ) (by : String) (now' stale_before' : ℕ) (rows : List OutboxEvent)
    → stale_before' < now
    → All (Spared taken now' stale_before') (map_where (λ x. one_of taken x.id) (claim now by) rows)
claimed-Spared taken now by now' stale_before' [] h = tt
claimed-Spared taken now by now' stale_before' (r ∷ rows) h =
    (λ t. ground (arith, t, h), claimed-Spared taken now by now' stale_before' rows h)

-- A claim from a table whose listed events are spared takes none of them.
chosen-Spared :
    (taken : List String) (held : OutboxEvent → Bool) (now limit stale_before : ℕ)
    (rows : List OutboxEvent)
    → All (Spared taken now stale_before) rows
    → All (λ e. one_of taken e.id ≡ false) (chosen held now limit stale_before rows)
chosen-Spared taken held now limit stale_before rows h =
    let ready : OutboxEvent → Bool = λ e. claimable now stale_before e && not (held e) in
    take-All _ (limit_or_default limit) _ (
      sort_by-All _ created (filter_where ready rows) (
        All-weaken _ _ (filter_where ready rows) (λ e q. ground (arith, q.0, q.1))
          (filter_where-All_both (Spared taken now stale_before) ready rows h)))

module _ {F : Type 0} where
  -- ClaimReady answers no more events than its limit, or 100 where the limit is not positive.
  pub claim_ready-length :
      (db : Engine) (held : OutboxEvent → Bool) (now limit : ℕ) (locked_by : String)
      (stale_before : ℕ) (s : Tables F) (events : List OutboxEvent)
      → (claim_ready db held now limit locked_by stale_before s).0 ≡ ok events
      → length events ≤ limit_or_default limit
  claim_ready-length db held now limit locked_by stale_before s events e =
      elim (claim_ready_lem db held now limit locked_by stale_before s) [
        | inr (n, f) ↦ absurd (ground (arith, e, f))
        | inl f ↦
            let picked = chosen held now limit stale_before s.outbox_events in
            let v : events ≡ map (claim now (owner locked_by)) picked = ground (arith, e, f) in
            omega (
              arith,
              ap length v,
              length-map (claim now (owner locked_by)) picked,
              length-take-le (limit_or_default limit) (
                  sort_by created (
                    filter_where (λ x. claimable now stale_before x && not (held x))
                      s.outbox_events)),
            )
      ]

  -- The events that ClaimReady answers are answered by no second ClaimReady whose staleness bound
  -- lies before the instant of the first, whatever its worker, limit and clock, and that runs on
  -- the tables that the first leaves.
  pub claim_ready-exclusive :
      (db : Engine) (held held' : OutboxEvent → Bool) (now now' limit limit' : ℕ)
      (locked_by locked_by' : String) (stale_before stale_before' : ℕ) (s : Tables F)
      (events events' : List OutboxEvent)
      → (claim_ready db held now limit locked_by stale_before s).0 ≡ ok events
      → stale_before' < now
      → (claim_ready db held' now' limit' locked_by' stale_before'
          (claim_ready db held now limit locked_by stale_before s).1).0
        ≡ ok events'
      → All (λ e. one_of (ids events) e.id ≡ false) events'
  claim_ready-exclusive db held held' now now' limit limit' locked_by locked_by' stale_before
        stale_before' s events events' e h e' =
      elim (claim_ready_lem db held now limit locked_by stale_before s) [
        | inr (n, f) ↦ absurd (ground (arith, e, f))
        | inl f ↦
            let picked = chosen held now limit stale_before s.outbox_events in
            let mine = claim now (owner locked_by) in
            let s' = (claim_ready db held now limit locked_by stale_before s).1 in
            let taken : ids events ≡ ids picked =
              ap ids (ground (arith, e, f)) ∙ ids-claim now (owner locked_by) picked in
            let rows : s'.outbox_events
                ≡ map_where (λ x. one_of (ids picked) x.id) mine s.outbox_events =
              ground (arith, f) in
            elim (claim_ready_lem db held' now' limit' locked_by' stale_before' s') [
              | inr (n, g) ↦ absurd (ground (arith, e', g))
              | inl g ↦
                  let spared = subst (All (Spared (ids picked) now' stale_before')) (sym rows) (
                    claimed-Spared (ids picked) now (owner locked_by) now' stale_before'
                      s.outbox_events h) in
                  let v : events'
                      ≡ map (claim now' (owner locked_by'))
                          (chosen held' now' limit' stale_before' s'.outbox_events) =
                    ground (arith, e', g) in
                  subst (λ xs. All (λ x. one_of xs x.id ≡ false) events') (sym taken)
                    (subst (All (λ x. one_of (ids picked) x.id ≡ false)) (sym v) (
                      map-All (λ x. one_of (ids picked) x.id ≡ false)
                        (claim now' (owner locked_by')) _ _ (λ x q. q)
                        (chosen-Spared (ids picked) held' now' limit' stale_before' s'.outbox_events
                          spared)))
            ]
      ]
