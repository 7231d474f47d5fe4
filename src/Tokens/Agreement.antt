-- ===== src/Tokens/Agreement.antt =====
-- pkg/middleware/auth.go and auth_interceptor.go: both transports let the same tokens pass.
use scalable_e_commerce_plat.Base.{
  ℕ, String, ◌≡◌, ◌↔◌, ap, true, false, Option, none, some, List, ◌∷◌, ok, ◌==◌, eq_iff, arith, inl,
  inr, Bool-cases, Option-cases, Result-cases,
}
use scalable_e_commerce_plat.Base.Words.{trim_space}
use scalable_e_commerce_plat.Tokens.{
  Numbers, Claim, text_claim, uint64_claim, uint_claim, int_claim, float_claim, other_claim,
  Payload, Jwt, claim_of, validate_token, token_version,
}
use scalable_e_commerce_plat.Tokens.Access.{as_text, is_text, jwt_auth, authorize}

is_text-as_text :
    {F : Type 0} (claim : Option (Claim F)) (t : String)
    → (is_text claim t ≡ true) ↔ (as_text claim ≡ some t)
is_text-as_text none t = (λ e. cc e, λ e. cc e)
is_text-as_text (some (text_claim s)) t =
    (λ e. ap some ((eq_iff s t).0 e), λ e. (eq_iff s t).1 (cc e))
is_text-as_text (some (uint64_claim n)) t = (λ e. cc e, λ e. cc e)
is_text-as_text (some (uint_claim n)) t = (λ e. cc e, λ e. cc e)
is_text-as_text (some (int_claim n)) t = (λ e. cc e, λ e. cc e)
is_text-as_text (some (float_claim x)) t = (λ e. cc e, λ e. cc e)
is_text-as_text (some other_claim) t = (λ e. cc e, λ e. cc e)

module _ {F : Type 0} (jwt : Jwt F) (numbers : Numbers F) where
  -- The token is valid, of the type, and names a user and a version.
  pub record IsBearer (token_type token user_id : String) (version : ℕ) : Type 0 where
    pub payload : Payload F
    pub valid : validate_token jwt token ≡ ok payload
    pub typed : as_text (claim_of "type" payload) ≡ some token_type
    pub named : as_text (claim_of "id" payload) ≡ some user_id
    pub filled : (trim_space user_id == "") ≡ false
    pub versioned : token_version numbers payload ≡ ok version

  IsBearer-authorize :
      (token_type token user_id : String) (version : ℕ) (tokens : List String)
      → IsBearer token_type token user_id version
      → authorize jwt numbers (token ∷ tokens) token_type ≡ ok (user_id, version)
  unfolding authorize
  IsBearer-authorize token_type token user_id version tokens b =
      ground (arith, b.valid, b.typed, b.named, b.filled, b.versioned, eq_iff token_type token_type)

  authorize-IsBearer :
      (token_type token user_id : String) (version : ℕ) (tokens : List String)
      → authorize jwt numbers (token ∷ tokens) token_type ≡ ok (user_id, version)
      → IsBearer token_type token user_id version
  unfolding authorize
  authorize-IsBearer token_type token user_id version tokens e =
      elim (Result-cases (validate_token jwt token)) [
        | inr (x, a) ↦ absurd (ground (arith, a, e))
        | inl (payload, a) ↦ elim (Option-cases (as_text (claim_of "type" payload))) [
          | inl b ↦ absurd (ground (arith, a, b, e))
          | inr (t, b) ↦ elim (Option-cases (as_text (claim_of "id" payload))) [
            | inl c ↦ absurd (ground (arith, a, b, c, e))
            | inr (user, c) ↦ elim (Result-cases (token_version numbers payload)) [
              | inr (x, d) ↦ absurd (ground (arith, a, b, c, d, e))
              | inl (v, d) ↦ record {
                payload = payload;
                valid = a;
                typed = ground (arith, a, b, c, d, e, eq_iff t token_type);
                named = ground (arith, a, b, c, d, e);
                filled = ground (arith, a, b, c, d, e);
                versioned = ground (arith, a, b, c, d, e);
              }
            ]
          ]
        ]
      ]

  -- The middleware
  abbrev pub Passes : String → String → String → ℕ → Type 0
  Passes token_type token user_id version =
      (role : Option (Claim F)) × (jwt_auth jwt numbers token_type token
        ≡ some (record { user_id = user_id; role = role; token_version = version }))

  IsBearer-jwt_auth :
      (token_type token user_id : String) (version : ℕ)
      → (token == "") ≡ false
      → IsBearer token_type token user_id version
      → Passes token_type token user_id version
  unfolding jwt_auth
  IsBearer-jwt_auth token_type token user_id version k b = (
    claim_of "role" b.payload,
    ground (
      arith,
      k,
      b.valid,
      b.named,
      b.filled,
      b.versioned,
      (is_text-as_text (claim_of "type" b.payload) token_type).1 b.typed,
    ),
  )

  jwt_auth-IsBearer :
      (token_type token user_id : String) (version : ℕ)
      → (token == "") ≡ false
      → Passes token_type token user_id version
      → IsBearer token_type token user_id version
  unfolding jwt_auth
  jwt_auth-IsBearer token_type token user_id version k (role, e) =
      elim (Result-cases (validate_token jwt token)) [
        | inr (x, a) ↦ absurd (ground (arith, k, a, e))
        | inl (payload, a) ↦ elim (Bool-cases (is_text (claim_of "type" payload) token_type)) [
          | inr b ↦ absurd (ground (arith, k, a, b, e))
          | inl b ↦ elim (Option-cases (as_text (claim_of "id" payload))) [
            | inl c ↦ absurd (ground (arith, k, a, b, c, e))
            | inr (user, c) ↦ elim (Result-cases (token_version numbers payload)) [
              | inr (x, d) ↦ absurd (ground (arith, k, a, b, c, d, e))
              | inl (v, d) ↦ record {
                payload = payload;
                valid = a;
                typed = (is_text-as_text (claim_of "type" payload) token_type).0 b;
                named = ground (arith, k, a, b, c, d, e);
                filled = ground (arith, k, a, b, c, d, e);
                versioned = ground (arith, k, a, b, c, d, e);
              }
            ]
          ]
        ]
      ]

  -- For a token that is not empty, the gRPC interceptor lets a user pass with a version exactly
  -- when the HTTP middleware does, and that is exactly when the token is valid, of the expected
  -- type, and names a user id that is not blank and a version.
  pub authorize-jwt_auth :
      (token_type token user_id : String) (version : ℕ) (tokens : List String)
      → (token == "") ≡ false
      → ((authorize jwt numbers (token ∷ tokens) token_type ≡ ok (user_id, version))
          ↔ Passes token_type token user_id version)
        × (Passes token_type token user_id version ↔ IsBearer token_type token user_id version)
  authorize-jwt_auth token_type token user_id version tokens k = (
    (
      λ e.
          IsBearer-jwt_auth token_type token user_id version k
            (authorize-IsBearer token_type token user_id version tokens e),
      λ p.
          IsBearer-authorize token_type token user_id version tokens
            (jwt_auth-IsBearer token_type token user_id version k p),
    ),
    (
      jwt_auth-IsBearer token_type token user_id version k,
      IsBearer-jwt_auth token_type token user_id version k,
    ),
  )
