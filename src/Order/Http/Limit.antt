-- ===== src/Order/Http/Limit.antt =====
-- internal/order/port/http/handlers.go: the rate limit of a user. `counter` reads the number that
-- Redis holds under a key, which INCR raises by one and answers; its expiration ends the window.
use Prim.Native.Nat.{min}
use scalable_e_commerce_plat.Base.{
  ℕ, zero, suc, ◌-◌, ◌≤◌, String, ◌≡◌, some, ok, ℤ, pos, leb, arith, if◌then◌else◌,
}
use scalable_e_commerce_plat.Order.Http.{RecordCache, OrderHandler, Call}
use scalable_e_commerce_plat.Order.Http.Lines.{order_rate_limit_redis_key}
use scalable_e_commerce_plat.Order.Http.Placement.{allow_order_placement}

abbrev pub Counts : {R : Type 0} → (R → String → ℕ) → RecordCache R → Type 0
Counts {R} counter cache =
    (key : String) (window : ℤ) (r : R)
    → ((cache.increment_with_expiration key window r).0 ≡ ok (pos (suc (counter r key))))
      × (counter (cache.increment_with_expiration key window r).1 key ≡ suc (counter r key))

module _ {T R F : Type 0} (h : OrderHandler T R F) where
  -- How many of the next `n` requests of a user are let pass.
  unfoldable pub admitted : ℕ → String → Call T R F → ℕ
  admitted zero user_id c = 0
  admitted (suc n) user_id c =
      let (allowed, c1) = allow_order_placement h user_id c in
      let rest = admitted n user_id c1 in if allowed then suc rest else rest

  module _ (counter : R → String → ℕ) (cache : RecordCache R) (on : h.cache ≡ some cache)
      (counts : Counts counter cache) (limit : ℕ) (positive : 1 ≤ limit)
      (limited : h.rate_limit_limit ≡ pos limit) where
    allow_order_placement_lem :
        (user_id : String) (c : Call T R F)
        → let key = order_rate_limit_redis_key user_id in
          let (allowed, c1) = allow_order_placement h user_id c in
          (allowed ≡ leb (suc (counter c.redis key)) limit)
          × (counter c1.redis key ≡ suc (counter c.redis key))
    unfolding allow_order_placement
    allow_order_placement_lem user_id c = ground (
      arith,
      on,
      limited,
      counts (order_rate_limit_redis_key user_id) h.rate_limit_window c.redis,
    )

    -- With a Redis that counts, and a limit of at least 1, the rate limit lets pass as many of the
    -- next n requests of a user as the limit leaves after those that are counted already, and no
    -- more.
    pub admitted_lem :
        (n : ℕ) (user_id : String) (c : Call T R F)
        → admitted n user_id c
          ≡ min n (limit - counter c.redis (order_rate_limit_redis_key user_id))
    unfolding admitted
    admitted_lem zero user_id c = ground arith
    admitted_lem (suc n) user_id c =
        let c1 = (allow_order_placement h user_id c).1 in
        ground (arith, allow_order_placement_lem user_id c, admitted_lem n user_id c1)
