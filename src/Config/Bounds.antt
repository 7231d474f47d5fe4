-- ===== src/Config/Bounds.antt =====
-- pkg/config/config.go and cmd/api/main.go: the settings are usable, and the pool that main opens is
-- one that pkg/dbs accepts.
use scalable_e_commerce_plat.Base.{
  ℕ, ◌≤◌, ◌≡◌, refl, true, none, List, [], ◌∷◌, All, arith, ℤ, pos, ◌≤ℤ◌, ◌*ℤ◌, ◌&&◌, leb, wrap64,
}
use scalable_e_commerce_plat.Database.{
  PoolConfig, validate_connection_pool_config, validate_connection_pool_config_iff,
}
use scalable_e_commerce_plat.Config.{Schema, validate, int_or_default}
use scalable_e_commerce_plat.Config.Accepted.{validate_iff}
use scalable_e_commerce_plat.Config.Settings as Settings
use scalable_e_commerce_plat.Config.Settings.{seconds_or_default}

-- The seconds of a time.Duration.
abbrev pub max_seconds : ℕ
max_seconds = 9223372036

pub seconds_or_default_lem :
    (value : ℤ) (default_value : ℕ)
    → 1 ≤ default_value
    → default_value ≤ max_seconds
    → value ≤ℤ pos max_seconds
    → (pos 1 ≤ℤ seconds_or_default value default_value)
unfolding seconds_or_default wrap64 ◌*ℤ◌
seconds_or_default_lem value default_value d m h = ground arith

-- The configuration that main passes to NewDatabase.
abbrev pub pool_config : Schema → PoolConfig
pool_config cfg = record {
  max_open_conns = Settings.database_max_open_conns cfg;
  max_idle_conns = Settings.database_max_idle_conns cfg;
  conn_max_lifetime = Settings.database_conn_max_lifetime cfg;
  conn_max_idle_time = Settings.database_conn_max_idle_time cfg;
}

int_or_default_pos :
    (value : ℤ) (default_value : ℕ)
    → 1 ≤ default_value
    → pos 0 ≤ℤ value
    → pos 1 ≤ℤ int_or_default value default_value
unfolding int_or_default
int_or_default_pos value default_value d h = ground arith

-- A configuration that Validate accepts, with the lifetime and the idle time of a connection at
-- most 9223372036 seconds, gives main a connection pool that pkg/dbs accepts.
pub validate-validate_connection_pool_config :
    (cfg : Schema)
    → validate cfg ≡ none
    → cfg.database_conn_max_lifetime_seconds ≤ℤ pos max_seconds
    → cfg.database_conn_max_idle_time_seconds ≤ℤ pos max_seconds
    → validate_connection_pool_config (pool_config cfg) ≡ none
validate-validate_connection_pool_config cfg e lifetime idle =
    let pool = ((validate_iff cfg).0 e).pool in
    (validate_connection_pool_config_iff (pool_config cfg)).1 (
      int_or_default_pos cfg.database_max_idle_conns 5 (omega arith) pool.idle_conns,
      pool.ordered,
      seconds_or_default_lem cfg.database_conn_max_lifetime_seconds 300 (omega arith) (omega arith)
          lifetime,
      seconds_or_default_lem cfg.database_conn_max_idle_time_seconds 60 (omega arith) (omega arith)
          idle,
    )

-- The durations of the configuration, in seconds.
abbrev pub seconds : Schema → List ℤ
seconds cfg =
    cfg.http_read_timeout_seconds ∷ cfg.http_write_timeout_seconds ∷ cfg.http_idle_timeout_seconds
    ∷ cfg.http_read_header_timeout_seconds ∷ cfg.order_idempotency_ttl_seconds
    ∷ cfg.order_rate_limit_window_seconds ∷ cfg.outbox_publish_retry_base_seconds
    ∷ cfg.outbox_publish_interval_seconds ∷ cfg.outbox_processing_timeout_seconds
    ∷ cfg.outbox_consumer_block_seconds ∷ cfg.outbox_consumer_processed_ttl_seconds
    ∷ cfg.outbox_consumer_claim_min_idle_seconds ∷ cfg.outbox_consumer_failure_ttl_seconds ∷ []

abbrev pub durations : Schema → List ℤ
durations cfg =
    Settings.http_read_timeout cfg
    ∷ Settings.http_write_timeout cfg
    ∷ Settings.http_idle_timeout cfg
    ∷ Settings.http_read_header_timeout cfg
    ∷ Settings.order_idempotency_ttl cfg
    ∷ Settings.order_rate_limit_window cfg
    ∷ Settings.outbox_publish_retry_base cfg
    ∷ Settings.outbox_publish_interval cfg
    ∷ Settings.outbox_processing_timeout cfg
    ∷ Settings.outbox_consumer_block cfg
    ∷ Settings.outbox_consumer_processed_ttl cfg
    ∷ Settings.outbox_consumer_claim_min_idle cfg
    ∷ Settings.outbox_consumer_failure_ttl cfg
    ∷ []

abbrev pub counts : Schema → List ℤ
counts cfg =
    Settings.http_max_header_bytes cfg
    ∷ Settings.max_request_body_bytes cfg
    ∷ Settings.order_rate_limit_limit cfg
    ∷ Settings.outbox_publish_batch_size cfg
    ∷ Settings.outbox_publish_max_attempts cfg
    ∷ Settings.outbox_consumer_batch_size cfg
    ∷ Settings.outbox_consumer_claim_batch_size cfg
    ∷ Settings.outbox_consumer_max_delivery_attempts cfg
    ∷ []

abbrev pub IsPositive : ℤ → Type 0
IsPositive n = pos 1 ≤ℤ n

abbrev IsShort : ℤ → Type 0
IsShort n = n ≤ℤ pos max_seconds

counts-All : (cfg : Schema) → All IsPositive (counts cfg)
counts-All cfg = (
  ground arith,
  (
    ground arith,
    (
      ground arith,
      (ground arith, (ground arith, (ground arith, (ground arith, (ground arith, tt))))),
    ),
  ),
)

usable :
    (value : ℤ) (n : ℕ)
    → leb 1 n && leb n max_seconds ≡ true
    → IsShort value
    → IsPositive (seconds_or_default value n)
usable value n d h = seconds_or_default_lem value n (ground arith) (ground arith) h

durations-All : (cfg : Schema) → All IsShort (seconds cfg) → All IsPositive (durations cfg)
durations-All cfg h = (
  usable cfg.http_read_timeout_seconds 10 refl h.0,
  (
    usable cfg.http_write_timeout_seconds 30 refl h.1.0,
    (
      usable cfg.http_idle_timeout_seconds 60 refl h.1.1.0,
      (
        usable cfg.http_read_header_timeout_seconds 5 refl h.1.1.1.0,
        (
          usable cfg.order_idempotency_ttl_seconds 86400 refl h.1.1.1.1.0,
          (
            usable cfg.order_rate_limit_window_seconds 60 refl h.1.1.1.1.1.0,
            (
              usable cfg.outbox_publish_retry_base_seconds 60 refl h.1.1.1.1.1.1.0,
              (
                usable cfg.outbox_publish_interval_seconds 30 refl h.1.1.1.1.1.1.1.0,
                (
                  usable cfg.outbox_processing_timeout_seconds 900 refl h.1.1.1.1.1.1.1.1.0,
                  (
                    usable cfg.outbox_consumer_block_seconds 5 refl h.1.1.1.1.1.1.1.1.1.0,
                    (
                      usable cfg.outbox_consumer_processed_ttl_seconds 86400 refl
                          h.1.1.1.1.1.1.1.1.1.1.0,
                      (
                        usable cfg.outbox_consumer_claim_min_idle_seconds 60 refl
                            h.1.1.1.1.1.1.1.1.1.1.1.0,
                        (
                          usable cfg.outbox_consumer_failure_ttl_seconds 86400 refl
                              h.1.1.1.1.1.1.1.1.1.1.1.1.0,
                          tt,
                        ),
                      ),
                    ),
                  ),
                ),
              ),
            ),
          ),
        ),
      ),
    ),
  ),
)

-- Every size, limit and count that the program reads from its configuration is at least 1, and so
-- is every duration, where its number of seconds is at most 9223372036.
pub settings-IsPositive :
    (cfg : Schema)
    → All IsShort (seconds cfg)
    → All IsPositive (counts cfg) × All IsPositive (durations cfg)
settings-IsPositive cfg h = (counts-All cfg, durations-All cfg h)
