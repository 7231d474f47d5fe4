-- ===== src/Config/Accepted.antt =====
-- pkg/config/config.go: which configurations Validate accepts.
use scalable_e_commerce_plat.Base.{
  ◌≤◌, String, ◌≡◌, ◌↔◌, ◌⊎◌, inl, inr, Bool, true, false, not, none, some, ◌==◌, eq_iff, arith,
  refl, Bool-cases, pos, ◌≤ℤ◌, if◌then◌else◌,
}
use scalable_e_commerce_plat.Base.Words.{trim_space, byte_length, member}
use scalable_e_commerce_plat.Config.{
  Schema, Check, ConfigError, ◌then_check◌, refuse_if, is_bool, int_or_default,
  validate_optional_bool, validate_database_pool_config, is_placeholder_auth_secret,
  validate_production, validate, environments, unknown_environment,
}

-- An empty flag has a default; else ParseBool must know the text.
abbrev pub IsFlag : String → Type 0
IsFlag value = (trim_space value ≡ "") ⊎ (is_bool value ≡ true)

pub record IsPool (cfg : Schema) : Type 0 where
  pub open_conns : pos 0 ≤ℤ cfg.database_max_open_conns
  pub idle_conns : pos 0 ≤ℤ cfg.database_max_idle_conns
  pub lifetime : pos 0 ≤ℤ cfg.database_conn_max_lifetime_seconds
  pub idle_time : pos 0 ≤ℤ cfg.database_conn_max_idle_time_seconds
  pub ordered :
      int_or_default cfg.database_max_idle_conns 5 ≤ℤ int_or_default cfg.database_max_open_conns 25

pub record IsProductionReady (cfg : Schema) : Type 0 where
  pub secret : is_placeholder_auth_secret cfg.auth_secret ≡ false
  pub long : 32 ≤ byte_length (trim_space cfg.auth_secret)
  pub http : pos 1 ≤ℤ cfg.http_port
  pub grpc : pos 1 ≤ℤ cfg.grpc_port
  pub database : (trim_space cfg.database_uri == "") ≡ false
  pub redis : (trim_space cfg.redis_uri == "") ≡ false
  pub migrated : cfg.database_auto_migrate ≡ false

pub record IsAccepted (cfg : Schema) : Type 0 where
  pub known :
      (cfg.environment ≡ "development")
      ⊎ (cfg.environment ≡ "test")
      ⊎ (cfg.environment ≡ "production")
  pub pool : IsPool cfg
  pub metrics : IsFlag cfg.metrics_enabled
  pub reflection : IsFlag cfg.grpc_reflection_enabled
  pub swagger : IsFlag cfg.swagger_enabled
  pub production : cfg.environment ≡ "production" → IsProductionReady cfg

then_check-eq-none : (a b : Check) → ((a then_check b) ≡ none) ↔ ((a ≡ none) × (b ≡ none))
then_check-eq-none none b = (λ e. (refl, e), λ h. h.1)
then_check-eq-none (some x) b = (λ e. ground (arith, e), λ h. h.0)

refuse_if-eq-none : (b : Bool) (e : ConfigError) → (refuse_if b e ≡ none) ↔ (b ≡ false)
refuse_if-eq-none true e = (λ h. ground (arith, h), λ h. ground (arith, h))
refuse_if-eq-none false e = (λ h. refl, λ h. refl)

validate_optional_bool_iff :
    (name value : String) → (validate_optional_bool name value ≡ none) ↔ IsFlag value
unfolding validate_optional_bool
validate_optional_bool_iff name value = elim (Bool-cases (trim_space value == "")) [
  | inl t ↦ (λ e. inl ((eq_iff (trim_space value) "").0 t), λ h. rw t refl)
  | inr t ↦ elim (Bool-cases (is_bool value)) [
    | inl u ↦ (λ e. inr u, λ h. ground (arith, t, u))
    | inr u ↦ (
      λ e. absurd (ground (arith, t, u, e)),
      λ h. ground (arith, t, u, h, eq_iff (trim_space value) ""),
    )
  ]
]

validate_database_pool_config_iff :
    (cfg : Schema) → (validate_database_pool_config cfg ≡ none) ↔ IsPool cfg
unfolding validate_database_pool_config
validate_database_pool_config_iff cfg = (
  λ e. record {
    open_conns = ground (arith, e);
    idle_conns = ground (arith, e);
    lifetime = ground (arith, e);
    idle_time = ground (arith, e);
    ordered = ground (arith, e);
  },
  λ h. ground (arith, h.open_conns, h.idle_conns, h.lifetime, h.idle_time, h.ordered),
)

validate_production_iff : (cfg : Schema) → (validate_production cfg ≡ none) ↔ IsProductionReady cfg
validate_production_iff cfg = (
  λ e. record {
    secret = ground (arith, e);
    long = ground (arith, e);
    http = ground (arith, e);
    grpc = ground (arith, e);
    database = ground (arith, e);
    redis = ground (arith, e);
    migrated = ground (arith, e);
  },
  λ h. ground (arith, h.secret, h.long, h.http, h.grpc, h.database, h.redis, h.migrated),
)

member-environments :
    (s : String)
    → (member s environments ≡ true) ↔ ((s ≡ "development") ⊎ (s ≡ "test") ⊎ (s ≡ "production"))
member-environments s = (
  λ h. ground (arith, h, eq_iff "development" s, eq_iff "test" s, eq_iff "production" s),
  λ h. ground (arith, h, eq_iff "development" s, eq_iff "test" s, eq_iff "production" s),
)

-- Production asks for more than the other environments.
production_iff :
    (cfg : Schema)
    → ((if not (cfg.environment == "production") then none else validate_production cfg) ≡ none)
      ↔ (cfg.environment ≡ "production" → IsProductionReady cfg)
production_iff cfg = elim (Bool-cases (cfg.environment == "production")) [
  | inl t ↦ (
    λ e _. (validate_production_iff cfg).0 (ground (arith, t, e)),
    λ h. rw t ((validate_production_iff cfg).1 (h ((eq_iff cfg.environment "production").0 t))),
  )
  | inr t ↦
      (λ e p. absurd (ground (arith, t, (eq_iff cfg.environment "production").1 p)), λ h. rw t refl)
]

-- Validate accepts a configuration exactly when its environment is one of the three, its pool
-- settings are not negative with no more idle than open connections (defaults included), each
-- optional flag is blank or a Boolean, and, in production, the secret is no placeholder and has at
-- least 32 bytes without its outer spaces, the ports are positive, the two URIs are not blank, and
-- automatic migration is off.
pub validate_iff : (cfg : Schema) → (validate cfg ≡ none) ↔ IsAccepted cfg
unfolding validate
validate_iff cfg =
    let environment = refuse_if (not (member cfg.environment environments)) unknown_environment in
    let pool = validate_database_pool_config cfg in
    let metrics = validate_optional_bool "metrics_enabled" cfg.metrics_enabled in
    let reflection = validate_optional_bool "grpc_reflection_enabled" cfg.grpc_reflection_enabled in
    let swagger = validate_optional_bool "swagger_enabled" cfg.swagger_enabled in
    let production =
      if not (cfg.environment == "production") then none else validate_production cfg in
    let a = then_check-eq-none environment _ in
    let b = then_check-eq-none pool _ in
    let c = then_check-eq-none metrics _ in
    let d = then_check-eq-none reflection _ in
    let f = then_check-eq-none swagger production in
    (
      λ e.
          let e1 = (a.0 e).1 in
          let e2 = (b.0 e1).1 in
          let e3 = (c.0 e2).1 in
          let e4 = (d.0 e3).1 in
          let e5 = f.0 e4 in
          record {
            known = (member-environments cfg.environment).0 (ground (arith, (a.0 e).0));
            pool = (validate_database_pool_config_iff cfg).0 (b.0 e1).0;
            metrics = (validate_optional_bool_iff _ _).0 (c.0 e2).0;
            reflection = (validate_optional_bool_iff _ _).0 (d.0 e3).0;
            swagger = (validate_optional_bool_iff _ _).0 e5.0;
            production = (production_iff cfg).0 e5.1;
          },
      λ h. a.1 (
        ground (arith, (member-environments cfg.environment).1 h.known),
        b.1 (
          (validate_database_pool_config_iff cfg).1 h.pool,
          c.1 (
            (validate_optional_bool_iff _ _).1 h.metrics,
            d.1 (
              (validate_optional_bool_iff _ _).1 h.reflection,
              f.1 (
                (validate_optional_bool_iff _ _).1 h.swagger,
                (production_iff cfg).1 h.production,
              ),
            ),
          ),
        ),
      ),
    )
