-- ===== src/Config.antt =====
-- pkg/config/config.go: the schema of the configuration and Validate. An int is an integer; the two
-- numbers of bytes and the durations are in Config/Settings. Loading (the environment, the file) is
-- left out.
pub mod Settings
pub mod Accepted
pub mod Bounds
use scalable_e_commerce_plat.Base.{
  ℕ, zero, String, Bool, true, false, not, Option, none, some, List, [], ◌∷◌, ◌==◌, ltb, ℤ, pos,
  ltb_ℤ, leb_ℤ, if◌then◌else◌,
}
use scalable_e_commerce_plat.Base.Text.{codes}
use scalable_e_commerce_plat.Base.Words.{
  trim_space, lower_codes, same_codes, byte_length, parse_bool, member,
}

pub record Schema : Type 0 where
  pub environment : String
  pub http_port : ℤ
  pub grpc_port : ℤ
  pub auth_secret : String
  pub database_uri : String
  pub redis_uri : String
  pub redis_password : String
  pub redis_db : ℤ
  pub grpc_reflection_enabled : String
  pub swagger_enabled : String
  pub database_auto_migrate : Bool
  pub database_max_open_conns : ℤ
  pub database_max_idle_conns : ℤ
  pub database_conn_max_lifetime_seconds : ℤ
  pub database_conn_max_idle_time_seconds : ℤ
  pub http_read_timeout_seconds : ℤ
  pub http_write_timeout_seconds : ℤ
  pub http_idle_timeout_seconds : ℤ
  pub http_read_header_timeout_seconds : ℤ
  pub http_max_header_bytes : ℤ
  pub max_request_body_bytes : ℤ
  pub metrics_enabled : String
  pub metrics_path : String
  pub order_idempotency_ttl_seconds : ℤ
  pub order_rate_limit_limit : ℤ
  pub order_rate_limit_window_seconds : ℤ
  pub outbox_publisher_enabled : Bool
  pub outbox_publisher_type : String
  pub outbox_redis_stream_name : String
  pub outbox_publish_batch_size : ℤ
  pub outbox_publish_max_attempts : ℤ
  pub outbox_publish_retry_base_seconds : ℤ
  pub outbox_publish_interval_seconds : ℤ
  pub outbox_processing_timeout_seconds : ℤ
  pub outbox_consumer_enabled : Bool
  pub outbox_consumer_group : String
  pub outbox_consumer_name : String
  pub outbox_consumer_batch_size : ℤ
  pub outbox_consumer_block_seconds : ℤ
  pub outbox_consumer_processed_ttl_seconds : ℤ
  pub outbox_consumer_claim_min_idle_seconds : ℤ
  pub outbox_consumer_claim_batch_size : ℤ
  pub outbox_consumer_max_delivery_attempts : ℤ
  pub outbox_consumer_failure_ttl_seconds : ℤ
  pub outbox_dead_letter_stream_name : String

-- The errors of Validate.
pub data ConfigError : Type 0 where
  unknown_environment idle_exceeds_open placeholder_secret short_secret : ConfigError
  no_http_port no_grpc_port no_database_uri no_redis_uri auto_migrate : ConfigError
  negative not_a_bool : String → ConfigError

-- A configuration is accepted, or refused with the first error.
abbrev pub Check : Type 0
Check = Option ConfigError

infixr 4 ◌then_check◌
abbrev pub ◌then_check◌ : Check → Check → Check
none then_check rest = rest
some e then_check rest = some e

abbrev pub refuse_if : Bool → ConfigError → Check
refuse_if true e = some e
refuse_if false e = none

abbrev pub minimum_production_auth_secret_bytes : ℕ
minimum_production_auth_secret_bytes = 32

unfoldable pub int_or_default : ℤ → ℕ → ℤ
int_or_default (pos zero) default_value = pos default_value
int_or_default value default_value = value

-- ParseBool succeeds.
abbrev pub is_bool : String → Bool
is_bool value = elim (parse_bool value) [ none ↦ false | some b ↦ true ]

unfoldable pub validate_optional_bool : String → String → Check
validate_optional_bool name value =
    if trim_space value == "" then none else if is_bool value then none else some (not_a_bool name)

abbrev refuse_negative : List (String × ℤ) → Check
refuse_negative [] = none
refuse_negative ((name, value) ∷ items) =
    let rest = refuse_negative items in if ltb_ℤ value (pos 0) then some (negative name) else rest

unfoldable pub validate_database_pool_config : Schema → Check
validate_database_pool_config cfg =
    refuse_negative (
      ("database_max_open_conns", cfg.database_max_open_conns)
      ∷ ("database_max_idle_conns", cfg.database_max_idle_conns)
      ∷ ("database_conn_max_lifetime_seconds", cfg.database_conn_max_lifetime_seconds)
      ∷ ("database_conn_max_idle_time_seconds", cfg.database_conn_max_idle_time_seconds)
      ∷ [])
    then_check refuse_if
        (ltb_ℤ (int_or_default cfg.database_max_open_conns 25)
          (int_or_default cfg.database_max_idle_conns 5))
        idle_exceeds_open

abbrev pub one_of_texts : List ℕ → List String → Bool
one_of_texts s [] = false
one_of_texts s (t ∷ ts) =
    let rest = one_of_texts s ts in if same_codes s (codes t) then true else rest

unfoldable pub is_placeholder_auth_secret : String → Bool
is_placeholder_auth_secret secret = one_of_texts (lower_codes (trim_space secret)) (
    "" ∷ "######" ∷ "auth_secret" ∷ "secret" ∷ "change-me" ∷ "changeme" ∷ "local-dev-secret"
    ∷ "replace-with-a-random-secret" ∷ [])

abbrev pub environments : List String
environments = "development" ∷ "test" ∷ "production" ∷ []

abbrev validate_production : Schema → Check
validate_production cfg =
    refuse_if (is_placeholder_auth_secret cfg.auth_secret) placeholder_secret
    then_check refuse_if
        (ltb (byte_length (trim_space cfg.auth_secret)) minimum_production_auth_secret_bytes)
        short_secret
    then_check refuse_if (leb_ℤ cfg.http_port (pos 0)) no_http_port
    then_check refuse_if (leb_ℤ cfg.grpc_port (pos 0)) no_grpc_port
    then_check refuse_if (trim_space cfg.database_uri == "") no_database_uri
    then_check refuse_if (trim_space cfg.redis_uri == "") no_redis_uri
    then_check refuse_if cfg.database_auto_migrate auto_migrate

unfoldable pub validate : Schema → Check
validate cfg =
    refuse_if (not (member cfg.environment environments)) unknown_environment
    then_check validate_database_pool_config cfg
    then_check validate_optional_bool "metrics_enabled" cfg.metrics_enabled
    then_check validate_optional_bool "grpc_reflection_enabled" cfg.grpc_reflection_enabled
    then_check validate_optional_bool "swagger_enabled" cfg.swagger_enabled
    then_check (if not (cfg.environment == "production") then none else validate_production cfg)
