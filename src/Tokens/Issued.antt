-- ===== src/Tokens/Issued.antt =====
-- pkg/jtoken/jwt.go with pkg/middleware: an issued token passes as what it was issued for. A signed text
-- is parsed, until it expires, to the claims that were signed, as JSON gives them back; it has no
-- spaces around it and does not start with the Bearer prefix. JSON gives back every number as a float64.
use scalable_e_commerce_plat.Base.{
  ℕ, ◌<◌, ◌^◌, String, ◌≡◌, refl, ap, ◌∙◌, subst, true, false, Option, some, ok, ◌==◌, arith, ◌+◌,
}
use scalable_e_commerce_plat.Base.Words.{trim_space, trim_prefix}
use scalable_e_commerce_plat.Tokens.{
  Numbers, Claim, text_claim, uint64_claim, float_claim, Payload, TokenContent, Jwt, claim_of,
  token_payload, generate_token, validate_token, token_version, bearer_prefix, version_claim,
}
use scalable_e_commerce_plat.Tokens.Access.{as_text}
use scalable_e_commerce_plat.Tokens.Agreement.{IsBearer}

-- float64 has the number exactly.
abbrev pub IsNumber : {F : Type 0} → Numbers F → F → ℕ → Type 0
IsNumber numbers x n =
    (numbers.is_negative x ≡ false)
    × (numbers.is_large x ≡ false)
    × (numbers.is_fractional x ≡ false)
    × (numbers.to_uint64 x ≡ n)

-- A text that was signed, and its claims as they are read again.
pub record IsSigned {F : Type 0} (jwt : Jwt F) (numbers : Numbers F) (content : TokenContent F)
    (text : String) : Type 0 where
  pub read : Payload F
  pub signed : jwt.sign content ≡ ok text
  pub parsed : jwt.parse text ≡ ok (record { valid = true; payload = some read })
  pub clean : trim_prefix (trim_space text) bearer_prefix ≡ text
  pub same_text :
      (key : String) → as_text (claim_of key read) ≡ as_text (claim_of key content.payload)
  -- A uint64 below 2^53 comes back as the float64 of that number.
  pub same_number :
      (key : String) (n : ℕ)
      → claim_of key content.payload ≡ some (uint64_claim n)
      → n < 2 ^ 53
      → (x : F) × (claim_of key read ≡ some (float_claim x)) × IsNumber numbers x n

module _ {F : Type 0} (jwt : Jwt F) (numbers : Numbers F) (now lifetime : ℕ) (payload : Payload F)
    (token_type text : String) where
  abbrev content : TokenContent F
  content = record {
    payload = token_payload jwt payload token_type;
    iat = now;
    exp = now + lifetime;
  }

  validate_token-generate_token :
      (laws : IsSigned jwt numbers content text) → validate_token jwt text ≡ ok laws.read
  unfolding validate_token
  validate_token-generate_token laws = ground (arith, laws.clean, laws.parsed)

  -- What a token is issued with.
  token_payload_lem :
      (key : String) (c : Option (Claim F))
      → claim_of key payload ≡ c
      → (("type" == key) ≡ false
          → (version_claim == key) ≡ false
          → claim_of key (token_payload jwt payload token_type) ≡ c)
        × (claim_of "type" (token_payload jwt payload token_type) ≡ some (text_claim token_type))
  unfolding token_payload
  token_payload_lem key c e = ground (arith, e)

  token_payload-version :
      (n : ℕ)
      → claim_of version_claim payload ≡ some (uint64_claim n)
      → claim_of version_claim (token_payload jwt payload token_type) ≡ some (uint64_claim n)
  unfolding token_payload
  token_payload-version n e = ground (arith, e)

  token_version-read :
      (laws : IsSigned jwt numbers content text) (n : ℕ)
      → claim_of version_claim payload ≡ some (uint64_claim n)
      → n < 2 ^ 53
      → token_version numbers laws.read ≡ ok n
  unfolding token_version
  token_version-read laws n version small =
      let (x, found, whole) =
        laws.same_number version_claim n (token_payload-version n version) small in
      ground (arith, found, whole)

  IsSigned-typed :
      (laws : IsSigned jwt numbers content text)
      → as_text (claim_of "type" laws.read) ≡ some token_type
  IsSigned-typed laws =
      laws.same_text "type" ∙ ap as_text (token_payload_lem "type" (claim_of "type" payload) refl).1

  -- A valid token has one type.
  IsBearer-typed :
      (token_type' user_id' : String) (n' : ℕ)
      → IsSigned jwt numbers content text
      → IsBearer jwt numbers token_type' text user_id' n'
      → token_type' ≡ token_type
  IsBearer-typed token_type' user_id' n' laws b =
      ground (arith, b.valid, b.typed, IsSigned-typed laws, validate_token-generate_token laws)

  -- A token that is signed for a user id that is not blank and a version below 2^53 passes as a
  -- token of its type, with that id and that version, and of no other type. The text must be free
  -- of outer spaces and of the Bearer prefix and parse to the claims that were signed, as JSON
  -- gives them back: texts as they were, and a number below 2^53 as the float64 of that number.
  pub generate_token-IsBearer :
      (user_id : String) (n : ℕ)
      → IsSigned jwt numbers content text
      → claim_of "id" payload ≡ some (text_claim user_id)
      → (trim_space user_id == "") ≡ false
      → claim_of version_claim payload ≡ some (uint64_claim n)
      → n < 2 ^ 53
      → let token = generate_token jwt now payload token_type lifetime in
        IsBearer jwt numbers token_type token user_id n
        × ((token_type' user_id' : String) (n' : ℕ)
            → IsBearer jwt numbers token_type' token user_id' n'
            → token_type' ≡ token_type)
  unfolding generate_token
  generate_token-IsBearer user_id n laws id filled version small =
      let token : text ≡ generate_token jwt now payload token_type lifetime =
        ground (arith, laws.signed) in
      let named = (token_payload_lem "id" (some (text_claim user_id)) id).0 refl refl in
      subst
        (λ x.
          IsBearer jwt numbers token_type x user_id n
          × ((token_type' user_id' : String) (n' : ℕ)
              → IsBearer jwt numbers token_type' x user_id' n'
              → token_type' ≡ token_type))
        token
        (
          record {
            payload = laws.read;
            valid = validate_token-generate_token laws;
            typed = IsSigned-typed laws;
            named = laws.same_text "id" ∙ ap as_text named;
            filled = filled;
            versioned = token_version-read laws n version small;
          },
          λ token_type' user_id' n' b. IsBearer-typed token_type' user_id' n' laws b,
        )
