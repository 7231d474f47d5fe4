-- ===== src/Tokens.antt =====
-- pkg/jtoken/jwt.go: the claims of a token. Signing and parsing of JWT texts are a parameter, as are the
-- operations of float64, which JSON makes of every number.
pub mod Access
pub mod Agreement
pub mod Issued
use scalable_e_commerce_plat.Base.{
  ℕ, ◌+◌, String, Bool, true, false, not, ◌||◌, Option, none, some, List, [], ◌∷◌, Result, ok, err,
  Error, ◌==◌, ℤ, pos, negsuc, new_error, if◌then◌else◌,
}
use scalable_e_commerce_plat.Base.Words.{trim_space, trim_prefix}

-- float64, as TokenVersion tests it: `typed < 0`, `typed >= 2^63`, `math.Trunc(typed) != typed` and
-- `uint64(typed)`.
pub record Numbers (F : Type 0) : Type 0 where
  pub is_negative : F → Bool
  pub is_large : F → Bool
  pub is_fractional : F → Bool
  pub to_uint64 : F → ℕ

pub data Claim (F : Type 0) : Type 0 where
  text_claim : String → Claim F
  uint64_claim uint_claim : ℕ → Claim F
  int_claim : ℤ → Claim F
  float_claim : F → Claim F
  other_claim : Claim F

-- A map[string]interface{}; the first entry of a key counts.
abbrev pub Payload : Type 0 → Type 0
Payload F = List (String × Claim F)

abbrev pub claim_of : {F : Type 0} → String → Payload F → Option (Claim F)
claim_of key [] = none
claim_of key ((k, v) ∷ payload) =
    let rest = claim_of key payload in if k == key then some v else rest

-- jwt.MapClaims of a token that is issued; instants are in seconds.
pub record TokenContent (F : Type 0) : Type 0 where
  pub payload : Payload F
  pub iat : ℕ
  pub exp : ℕ

-- What the parser makes of a text that it accepts: whether the token is valid, and its payload if that
-- claim is a map.
pub record Parsed (F : Type 0) : Type 0 where
  pub valid : Bool
  pub payload : Option (Payload F)

pub record Jwt (F : Type 0) : Type 0 where
  pub sign : TokenContent F → Result String
  pub parse : String → Result (Parsed F)

abbrev pub access_token_type : String
access_token_type = "x-access"

abbrev pub refresh_token_type : String
refresh_token_type = "x-refresh"

abbrev pub bearer_prefix : String
bearer_prefix = "Bearer "

abbrev pub version_claim : String
version_claim = "token_version"

module _ {F : Type 0} (jwt : Jwt F) where
  -- The claims of a token that is issued.
  unfoldable pub token_payload : Payload F → String → Payload F
  token_payload payload token_type = elim (claim_of version_claim payload) [
    | some v ↦ ("type", text_claim token_type) ∷ payload
    | none ↦ ("type", text_claim token_type) ∷ (version_claim, uint64_claim 0) ∷ payload
  ]

  unfoldable pub generate_token : ℕ → Payload F → String → ℕ → String
  generate_token now payload token_type lifetime_seconds =
      elim (jwt.sign (record {
        payload = token_payload payload token_type;
        iat = now;
        exp = now + lifetime_seconds;
      })) [ ok token ↦ token | err e ↦ "" ]

  abbrev pub generate_access_token : ℕ → Payload F → String
  generate_access_token now payload = generate_token now payload access_token_type 300

  abbrev pub generate_refresh_token : ℕ → Payload F → String
  generate_refresh_token now payload = generate_token now payload refresh_token_type 2592000

  unfoldable pub validate_token : String → Result (Payload F)
  validate_token text = elim (jwt.parse (trim_prefix (trim_space text) bearer_prefix)) [
    | err e ↦ err e
    | ok token ↦
        if not token.valid then err (new_error "token has invalid claims") else elim token.payload [
          | none ↦ err (new_error "invalid jwt payload")
          | some payload ↦ ok payload
        ]
  ]

module _ {F : Type 0} (numbers : Numbers F) where
  abbrev version_of : Claim F → Result ℕ
  version_of (uint64_claim n) = ok n
  version_of (uint_claim n) = ok n
  version_of (int_claim (pos n)) = ok n
  version_of (int_claim (negsuc n)) = err (new_error "invalid token_version claim")
  version_of (float_claim x) =
      if numbers.is_negative x || numbers.is_large x || numbers.is_fractional x
      then err (new_error "invalid token_version claim")
      else ok (numbers.to_uint64 x)
  version_of _ = err (new_error "invalid token_version claim")

  unfoldable pub token_version : Payload F → Result ℕ
  token_version payload = elim (claim_of version_claim payload) [
    | none ↦ err (new_error "missing token_version claim")
    | some value ↦ version_of value
  ]
