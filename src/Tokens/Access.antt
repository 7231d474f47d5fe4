-- ===== src/Tokens/Access.antt =====
-- pkg/middleware/auth.go and auth_interceptor.go: who may pass, over HTTP and over gRPC.
use scalable_e_commerce_plat.Base.{
  ℕ, String, Bool, false, not, Option, none, some, List, [], ◌∷◌, ◌++◌, Result, ok, err, ◌==◌,
  new_error, if◌then◌else◌,
}
use scalable_e_commerce_plat.Base.Words.{trim_space, member}
use scalable_e_commerce_plat.Tokens.{
  Numbers, Claim, text_claim, Jwt, claim_of, validate_token, token_version, access_token_type,
  refresh_token_type,
}

-- What the HTTP middleware sets in the context of the request.
pub record Identity (F : Type 0) : Type 0 where
  pub user_id : String
  pub role : Option (Claim F)
  pub token_version : ℕ

-- `value.(string)`
abbrev pub as_text : {F : Type 0} → Option (Claim F) → Option String
as_text (some (text_claim s)) = some s
as_text _ = none

-- `payload["type"] == tokenType`
abbrev pub is_text : {F : Type 0} → Option (Claim F) → String → Bool
is_text (some (text_claim s)) t = s == t
is_text _ t = false

-- The sets of method names.
pub record AuthInterceptor : Type 0 where
  pub ignored_methods : List String
  pub refresh_token_methods : List String

pub data AuthInterceptorOption : Type 0 where
  with_refresh_token_methods : List String → AuthInterceptorOption

unfoldable pub apply_interceptor_option : AuthInterceptorOption → AuthInterceptor → AuthInterceptor
apply_interceptor_option (with_refresh_token_methods methods) ai = record ai {
  refresh_token_methods = methods ++ ai.refresh_token_methods;
}

unfoldable pub new_auth_interceptor : List String → List AuthInterceptorOption → AuthInterceptor
new_auth_interceptor ignored_methods [] = record {
  ignored_methods = ignored_methods;
  refresh_token_methods = [];
}
new_auth_interceptor ignored_methods (opt ∷ opts) =
    apply_interceptor_option opt (new_auth_interceptor ignored_methods opts)

-- RequireRole; GetString answers the empty string for a role that is no text.
unfoldable pub require_role : {F : Type 0} → String → Identity F → Bool
require_role role identity = elim (as_text identity.role) [ none ↦ "" == role | some r ↦ r == role ]

unfoldable pub expected_token_type : AuthInterceptor → String → String
expected_token_type ai method =
    if member method ai.refresh_token_methods then refresh_token_type else access_token_type

module _ {F : Type 0} (jwt : Jwt F) (numbers : Numbers F) where
  -- JWT; none is a response with status 401.
  unfoldable pub jwt_auth : String → String → Option (Identity F)
  jwt_auth token_type token = if token == "" then none else elim (validate_token jwt token) [
    | err e ↦ none
    | ok payload ↦
        if not (is_text (claim_of "type" payload) token_type)
        then none
        else elim (as_text (claim_of "id" payload)) [
          | none ↦ none
          | some user_id ↦
              if trim_space user_id == "" then none else elim (token_version numbers payload) [
                | err e ↦ none
                | ok version ↦ some (record {
                  user_id = user_id;
                  role = claim_of "role" payload;
                  token_version = version;
                })
              ]
        ]
  ]

  -- `authorize`, with the values of the metadata's key `token`; every error is Unauthenticated.
  unfoldable pub authorize : List String → String → Result (String × ℕ)
  authorize [] expected = err (new_error "missing token")
  authorize (token ∷ tokens) expected = elim (validate_token jwt token) [
    | err e ↦ err (new_error "unauthorized")
    | ok payload ↦ elim (as_text (claim_of "type" payload)) [
      | none ↦ err (new_error "unauthorized")
      | some token_type ↦
          if not (token_type == expected)
          then err (new_error "unauthorized")
          else elim (as_text (claim_of "id" payload)) [
            | none ↦ err (new_error "unauthorized")
            | some user_id ↦
                if trim_space user_id == ""
                then err (new_error "unauthorized")
                else elim (token_version numbers payload) [
                  | err e ↦ err (new_error "unauthorized")
                  | ok version ↦ ok (user_id, version)
                ]
          ]
    ]
  ]

  -- Whom the interceptor lets through to the handler: nobody in particular for an ignored method.
  unfoldable pub unary : AuthInterceptor → String → List String → Result (Option (String × ℕ))
  unary ai method tokens =
      if member method ai.ignored_methods
      then ok none
      else elim (authorize tokens (expected_token_type ai method)) [
        | err e ↦ err e
        | ok caller ↦ ok (some caller)
      ]
