-- ===== src/Tests/Settings.antt =====
-- A configuration for production.
use scalable_e_commerce_plat.Base.{◌≡◌, ◌↔◌, refl, none, true, false, pos, arith}
use scalable_e_commerce_plat.Base.Words.{trim_space, lower_codes, byte_length, parse_bool}
use scalable_e_commerce_plat.Database.{validate_connection_pool_config}
use scalable_e_commerce_plat.Config.{
  Schema, validate, validate_database_pool_config, validate_optional_bool,
  is_placeholder_auth_secret, int_or_default,
}
use scalable_e_commerce_plat.Config.Accepted.{IsAccepted, validate_iff}
use scalable_e_commerce_plat.Config.Bounds.{pool_config, validate-validate_connection_pool_config}

abbrev cfg : Schema
cfg = record {
  environment = "production";
  http_port = pos 8888;
  grpc_port = pos 8889;
  auth_secret = "0123456789abcdef0123456789abcdef";
  database_uri = "postgres://db";
  redis_uri = "redis:6379";
  redis_password = "";
  redis_db = pos 0;
  grpc_reflection_enabled = "";
  swagger_enabled = "";
  database_auto_migrate = false;
  database_max_open_conns = pos 40;
  database_max_idle_conns = pos 0;
  database_conn_max_lifetime_seconds = pos 0;
  database_conn_max_idle_time_seconds = pos 0;
  http_read_timeout_seconds = pos 0;
  http_write_timeout_seconds = pos 0;
  http_idle_timeout_seconds = pos 0;
  http_read_header_timeout_seconds = pos 0;
  http_max_header_bytes = pos 0;
  max_request_body_bytes = pos 0;
  metrics_enabled = "true";
  metrics_path = "";
  order_idempotency_ttl_seconds = pos 0;
  order_rate_limit_limit = pos 0;
  order_rate_limit_window_seconds = pos 0;
  outbox_publisher_enabled = true;
  outbox_publisher_type = "";
  outbox_redis_stream_name = "";
  outbox_publish_batch_size = pos 50;
  outbox_publish_max_attempts = pos 0;
  outbox_publish_retry_base_seconds = pos 0;
  outbox_publish_interval_seconds = pos 0;
  outbox_processing_timeout_seconds = pos 0;
  outbox_consumer_enabled = false;
  outbox_consumer_group = "";
  outbox_consumer_name = "";
  outbox_consumer_batch_size = pos 0;
  outbox_consumer_block_seconds = pos 0;
  outbox_consumer_processed_ttl_seconds = pos 0;
  outbox_consumer_claim_min_idle_seconds = pos 0;
  outbox_consumer_claim_batch_size = pos 0;
  outbox_consumer_max_delivery_attempts = pos 0;
  outbox_consumer_failure_ttl_seconds = pos 0;
  outbox_dead_letter_stream_name = "";
}

validate_iff_example : (validate cfg ≡ none) ↔ IsAccepted cfg
validate_iff_example = validate_iff cfg

accepted : validate cfg ≡ none
unfolding validate validate_database_pool_config validate_optional_bool is_placeholder_auth_secret
    int_or_default trim_space lower_codes byte_length parse_bool
accepted = refl

validate-validate_connection_pool_config_example :
    validate_connection_pool_config (pool_config cfg) ≡ none
validate-validate_connection_pool_config_example =
    validate-validate_connection_pool_config cfg accepted (ground arith) (ground arith)
