-- ===== src/Database.antt =====
-- pkg/dbs: what a connection pool and a migrated schema must be, and the column that a caller may
-- order by (dbs.go, option.go).
use scalable_e_commerce_plat.Base.{
  ℕ, String, ◌≡◌, ◌↔◌, ◌⊎◌, Bool, true, false, not, Option, none, some, List, [], ◌∷◌, ◌==◌, eq_iff,
  arith, inl, inr, Option-cases, Bool-cases, ltb, ℤ, pos, ◌≤ℤ◌, ltb_ℤ, leb_ℤ, if◌then◌else◌,
}

pub record PoolConfig : Type 0 where
  pub max_open_conns : ℤ
  pub max_idle_conns : ℤ
  pub conn_max_lifetime : ℤ
  pub conn_max_idle_time : ℤ

-- The errors of the two checks.
pub data Refusal : Type 0 where
  no_open_conns no_idle_conns too_many_idle_conns no_lifetime no_idle_time : Refusal
  migration_dirty migration_old : Refusal

unfoldable pub validate_connection_pool_config : PoolConfig → Option Refusal
validate_connection_pool_config config =
    if leb_ℤ config.max_open_conns (pos 0)
    then some no_open_conns
    else if leb_ℤ config.max_idle_conns (pos 0)
    then some no_idle_conns
    else if ltb_ℤ config.max_open_conns config.max_idle_conns
    then some too_many_idle_conns
    else if leb_ℤ config.conn_max_lifetime (pos 0)
    then some no_lifetime
    else if leb_ℤ config.conn_max_idle_time (pos 0)
    then some no_idle_time
    else none

unfoldable pub validate_migration_state : ℕ → Bool → ℕ → Option Refusal
validate_migration_state version dirty minimum_version =
    if dirty
    then some migration_dirty
    else if ltb version minimum_version
    then some migration_old
    else none

pub record OrderByColumn : Type 0 where
  pub column : String
  pub desc : Bool

abbrev pub allowed_column : String → List (String × String) → Option String
allowed_column order_by [] = none
allowed_column order_by ((name, column) ∷ allowed) =
    if name == order_by then some column else allowed_column order_by allowed

unfoldable pub safe_order_by_column :
    String → Bool → String → List (String × String) → OrderByColumn
safe_order_by_column order_by desc default_column allowed_columns =
    elim (allowed_column order_by allowed_columns) [
      | some column ↦
          if not (order_by == "")
          then record { column = column; desc = desc }
          else record { column = default_column; desc = false }
      | none ↦ record { column = default_column; desc = false }
    ]

-- A configuration of the connection pool is accepted exactly when its idle connections are at least
-- 1 and no more than its open connections, and both of its durations are positive.
pub validate_connection_pool_config_iff :
    (config : PoolConfig)
    → (validate_connection_pool_config config ≡ none) ↔ (
        (pos 1 ≤ℤ config.max_idle_conns)
        × (config.max_idle_conns ≤ℤ config.max_open_conns)
        × (pos 1 ≤ℤ config.conn_max_lifetime)
        × (pos 1 ≤ℤ config.conn_max_idle_time))
unfolding validate_connection_pool_config
validate_connection_pool_config_iff config = (λ e. ground (arith, e), λ h. ground (arith, h))

-- The names that a caller may order by.
abbrev pub columns : List (String × String) → List String
columns [] = []
columns ((name, column) ∷ allowed) = column ∷ columns allowed

abbrev pub one_of : List String → String → Bool
one_of [] c = false
one_of (x ∷ xs) c = if x == c then true else one_of xs c

allowed_column-one_of :
    (order_by : String) (allowed : List (String × String)) (c : String)
    → allowed_column order_by allowed ≡ some c
    → one_of (columns allowed) c ≡ true
allowed_column-one_of order_by [] c e = cc e
allowed_column-one_of order_by ((name, column) ∷ allowed) c e =
    ground (arith, e, eq_iff c c, allowed_column-one_of order_by allowed c)

-- The column that SafeOrderByColumn answers is the default one, ascending, or one of the allowed
-- columns, in the order that is asked for; it is never another text of the caller.
pub safe_order_by_column_lem :
    (order_by : String) (desc : Bool) (default_column : String) (allowed : List (String × String))
    → let r = safe_order_by_column order_by desc default_column allowed in
      ((r.column ≡ default_column) × (r.desc ≡ false))
      ⊎ ((one_of (columns allowed) r.column ≡ true) × (r.desc ≡ desc))
unfolding safe_order_by_column
safe_order_by_column_lem order_by desc default_column allowed =
    elim (Option-cases (allowed_column order_by allowed)) [
      | inl z ↦ inl (ground (arith, z), ground (arith, z))
      | inr (c, z) ↦ elim (Bool-cases (order_by == "")) [
        | inl t ↦ inl (ground (arith, z, t), ground (arith, z, t))
        | inr t ↦
            inr (
              ground (arith, z, t, allowed_column-one_of order_by allowed c z),
              ground (arith, z, t),
            )
      ]
    ]
