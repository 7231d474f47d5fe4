-- ===== src/Config/Settings.antt =====
-- pkg/config/config.go: the settings that the program reads, with their defaults. A duration is an
-- int64 number of nanoseconds.
use scalable_e_commerce_plat.Base.{
  ℕ, String, Bool, false, not, none, some, ◌==◌, ℤ, pos, leb_ℤ, ◌*ℤ◌, wrap64, if◌then◌else◌,
}
use scalable_e_commerce_plat.Base.Words.{trim_space, parse_bool}
use scalable_e_commerce_plat.Config.{Schema, int_or_default}

-- `time.Duration(value) * time.Second` wraps as int64 does.
unfoldable pub seconds_or_default : ℤ → ℕ → ℤ
seconds_or_default value default_value =
    wrap64 ((if leb_ℤ value (pos 0) then pos default_value else value) *ℤ pos 1000000000)

-- The Boolean of ParseBool, which is false with an error.
abbrev parsed : String → Bool
parsed value = elim (parse_bool value) [ none ↦ false | some b ↦ b ]

abbrev pub metrics_enabled : Schema → Bool
metrics_enabled cfg =
    if trim_space cfg.metrics_enabled == ""
    then not (cfg.environment == "production")
    else parsed cfg.metrics_enabled

abbrev pub grpc_reflection_enabled : Schema → Bool
grpc_reflection_enabled cfg =
    if not (trim_space cfg.grpc_reflection_enabled == "")
    then parsed cfg.grpc_reflection_enabled
    else not (cfg.environment == "production")

abbrev pub swagger_enabled : Schema → Bool
swagger_enabled cfg =
    if not (trim_space cfg.swagger_enabled == "")
    then parsed cfg.swagger_enabled
    else not (cfg.environment == "production")

abbrev pub database_auto_migrate : Schema → Bool
database_auto_migrate cfg = cfg.database_auto_migrate

abbrev pub database_max_open_conns : Schema → ℤ
database_max_open_conns cfg = int_or_default cfg.database_max_open_conns 25

abbrev pub database_max_idle_conns : Schema → ℤ
database_max_idle_conns cfg = int_or_default cfg.database_max_idle_conns 5

abbrev pub database_conn_max_lifetime : Schema → ℤ
database_conn_max_lifetime cfg = seconds_or_default cfg.database_conn_max_lifetime_seconds 300

abbrev pub database_conn_max_idle_time : Schema → ℤ
database_conn_max_idle_time cfg = seconds_or_default cfg.database_conn_max_idle_time_seconds 60

abbrev pub http_read_timeout : Schema → ℤ
http_read_timeout cfg = seconds_or_default cfg.http_read_timeout_seconds 10

abbrev pub http_write_timeout : Schema → ℤ
http_write_timeout cfg = seconds_or_default cfg.http_write_timeout_seconds 30

abbrev pub http_idle_timeout : Schema → ℤ
http_idle_timeout cfg = seconds_or_default cfg.http_idle_timeout_seconds 60

abbrev pub http_read_header_timeout : Schema → ℤ
http_read_header_timeout cfg = seconds_or_default cfg.http_read_header_timeout_seconds 5

abbrev pub http_max_header_bytes : Schema → ℤ
http_max_header_bytes cfg =
    if leb_ℤ cfg.http_max_header_bytes (pos 0) then pos 1048576 else cfg.http_max_header_bytes

abbrev pub max_request_body_bytes : Schema → ℤ
max_request_body_bytes cfg =
    if leb_ℤ cfg.max_request_body_bytes (pos 0) then pos 1048576 else cfg.max_request_body_bytes

abbrev pub metrics_path : Schema → String
metrics_path cfg = if cfg.metrics_path == "" then "/metrics" else cfg.metrics_path

abbrev pub order_idempotency_ttl : Schema → ℤ
order_idempotency_ttl cfg = seconds_or_default cfg.order_idempotency_ttl_seconds 86400

abbrev pub order_rate_limit_limit : Schema → ℤ
order_rate_limit_limit cfg =
    if leb_ℤ cfg.order_rate_limit_limit (pos 0) then pos 120 else cfg.order_rate_limit_limit

abbrev pub order_rate_limit_window : Schema → ℤ
order_rate_limit_window cfg = seconds_or_default cfg.order_rate_limit_window_seconds 60

abbrev pub outbox_publisher_enabled : Schema → Bool
outbox_publisher_enabled cfg = cfg.outbox_publisher_enabled

abbrev pub outbox_publisher_type : Schema → String
outbox_publisher_type cfg =
    if cfg.outbox_publisher_type == "" then "log" else cfg.outbox_publisher_type

abbrev pub outbox_redis_stream_name : Schema → String
outbox_redis_stream_name cfg =
    if cfg.outbox_redis_stream_name == "" then "stream:orders" else cfg.outbox_redis_stream_name

abbrev pub outbox_publish_batch_size : Schema → ℤ
outbox_publish_batch_size cfg =
    if leb_ℤ cfg.outbox_publish_batch_size (pos 0) then pos 100 else cfg.outbox_publish_batch_size

abbrev pub outbox_publish_max_attempts : Schema → ℤ
outbox_publish_max_attempts cfg =
    if leb_ℤ cfg.outbox_publish_max_attempts (pos 0) then pos 3 else cfg.outbox_publish_max_attempts

abbrev pub outbox_publish_retry_base : Schema → ℤ
outbox_publish_retry_base cfg = seconds_or_default cfg.outbox_publish_retry_base_seconds 60

abbrev pub outbox_publish_interval : Schema → ℤ
outbox_publish_interval cfg = seconds_or_default cfg.outbox_publish_interval_seconds 30

abbrev pub outbox_processing_timeout : Schema → ℤ
outbox_processing_timeout cfg = seconds_or_default cfg.outbox_processing_timeout_seconds 900

abbrev pub outbox_consumer_enabled : Schema → Bool
outbox_consumer_enabled cfg = cfg.outbox_consumer_enabled

abbrev pub outbox_consumer_group : Schema → String
outbox_consumer_group cfg =
    if cfg.outbox_consumer_group == "" then "order-events" else cfg.outbox_consumer_group

abbrev pub outbox_consumer_name : Schema → String
outbox_consumer_name cfg =
    if cfg.outbox_consumer_name == "" then "local-consumer-1" else cfg.outbox_consumer_name

abbrev pub outbox_consumer_batch_size : Schema → ℤ
outbox_consumer_batch_size cfg =
    if leb_ℤ cfg.outbox_consumer_batch_size (pos 0) then pos 10 else cfg.outbox_consumer_batch_size

abbrev pub outbox_consumer_block : Schema → ℤ
outbox_consumer_block cfg = seconds_or_default cfg.outbox_consumer_block_seconds 5

abbrev pub outbox_consumer_processed_ttl : Schema → ℤ
outbox_consumer_processed_ttl cfg =
    seconds_or_default cfg.outbox_consumer_processed_ttl_seconds 86400

abbrev pub outbox_consumer_claim_min_idle : Schema → ℤ
outbox_consumer_claim_min_idle cfg =
    seconds_or_default cfg.outbox_consumer_claim_min_idle_seconds 60

abbrev pub outbox_consumer_claim_batch_size : Schema → ℤ
outbox_consumer_claim_batch_size cfg =
    if leb_ℤ cfg.outbox_consumer_claim_batch_size (pos 0)
    then pos 10
    else cfg.outbox_consumer_claim_batch_size

abbrev pub outbox_consumer_max_delivery_attempts : Schema → ℤ
outbox_consumer_max_delivery_attempts cfg =
    if leb_ℤ cfg.outbox_consumer_max_delivery_attempts (pos 0)
    then pos 5
    else cfg.outbox_consumer_max_delivery_attempts

abbrev pub outbox_consumer_failure_ttl : Schema → ℤ
outbox_consumer_failure_ttl cfg = seconds_or_default cfg.outbox_consumer_failure_ttl_seconds 86400

abbrev pub outbox_dead_letter_stream_name : Schema → String
outbox_dead_letter_stream_name cfg =
    if cfg.outbox_dead_letter_stream_name == ""
    then "stream:orders:dead_letter"
    else cfg.outbox_dead_letter_stream_name
