-- ===== src/Outbox/Claimed.antt =====
-- internal/outbox/repository/outbox.go: what ClaimReady takes, in terms of the rows.
use scalable_e_commerce_plat.Base.{
  ℕ, ◌≤◌, String, ◌≡◌, Bool, true, false, not, ◌&&◌, none, some, List, [], ◌∷◌, length, All, pos,
  ◌≤ℤ◌, ◌⊎◌,
}
use scalable_e_commerce_plat.Outbox.Model.{OutboxEvent, pending, processing}
use scalable_e_commerce_plat.Outbox.Repository.{claimable, ids, one_of, limit_or_default}
use scalable_e_commerce_plat.Outbox.Claims.{chosen}

-- An event is due, or was claimed so long ago that its claim has lapsed.
abbrev pub IsReady : ℕ → ℕ → OutboxEvent → Type 0
IsReady now stale_before e =
    ((e.status ≡ pending) × (e.next_attempt_at ≤ℤ pos now))
    ⊎ ((e.status ≡ processing)
        × ((e.locked_at ≡ none) ⊎ ((at : ℕ) × (e.locked_at ≡ some at) × (at ≤ stale_before))))

-- Oldest first.
abbrev pub AreOldestFirst : List OutboxEvent → Type 0
AreOldestFirst [] = Unit {0}
AreOldestFirst (e ∷ events) = All (λ x. e.created_at ≤ x.created_at) events × AreOldestFirst events

module _ (held : OutboxEvent → Bool) (now limit stale_before : ℕ) (rows : List OutboxEvent) where
  abbrev free : OutboxEvent → Bool
  free e = claimable now stale_before e && not (held e)

  abbrev picked : List OutboxEvent
  picked = chosen held now limit stale_before rows

  -- The claim is full, or leaves no ready row that is free.
  abbrev pub IsComplete : List OutboxEvent → Type 0
  IsComplete events =
      (length events ≡ limit_or_default limit)
      ⊎ All
          (λ e.
            (IsReady now stale_before e → ⊥) ⊎ (held e ≡ true) ⊎ (one_of (ids events) e.id ≡ true))
          rows

  abbrev pub ArePicked : List OutboxEvent → Type 0
  ArePicked events =
      All (λ e. IsReady now stale_before e × (held e ≡ false) × (one_of (ids rows) e.id ≡ true))
        events
      × AreOldestFirst events
      × (length events ≤ limit_or_default limit)
      × IsComplete events

-- The row of an event that a worker has claimed.
abbrev pub taken : ℕ → String → OutboxEvent → OutboxEvent
taken now by e = record e { status = processing; locked_at = some now; locked_by = by }
