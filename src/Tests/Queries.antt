-- ===== src/Tests/Queries.antt =====
-- Runs of pkg/dbs.
use scalable_e_commerce_plat.Base.{◌≡◌, ◌⊎◌, String, true, false, List, [], ◌∷◌, pos}
use scalable_e_commerce_plat.Database.{
  PoolConfig, safe_order_by_column, columns, one_of, safe_order_by_column_lem,
}

abbrev pool : PoolConfig
pool = record {
  max_open_conns = pos 25;
  max_idle_conns = pos 5;
  conn_max_lifetime = pos 300;
  conn_max_idle_time = pos 60;
}

abbrev allowed : List (String × String)
allowed = ("created", "created_at") ∷ []

safe_order_by_column_lem_example :
    (((safe_order_by_column "created" true "id" allowed).column ≡ "id")
      × ((safe_order_by_column "created" true "id" allowed).desc ≡ false))
    ⊎ ((one_of (columns allowed) (safe_order_by_column "created" true "id" allowed).column ≡ true)
        × ((safe_order_by_column "created" true "id" allowed).desc ≡ true))
safe_order_by_column_lem_example = safe_order_by_column_lem "created" true "id" allowed
