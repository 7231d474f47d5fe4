-- ===== src/Tests/Access.antt =====
-- Tokens that a signer writes down in a word each.
use scalable_e_commerce_plat.Base.{
  ℕ, String, ◌≡◌, ◌↔◌, refl, true, false, some, [], ◌∷◌, ok, arith, ltb, ◌+◌,
}
use scalable_e_commerce_plat.Base.Words.{trim_space, trim_prefix}
use scalable_e_commerce_plat.Tokens.{
  Numbers, text_claim, uint64_claim, float_claim, Payload, Jwt, token_payload, generate_token,
  token_version,
}
use scalable_e_commerce_plat.Tokens.Access.{authorize}
use scalable_e_commerce_plat.Tokens.Agreement.{IsBearer, Passes, authorize-jwt_auth}
use scalable_e_commerce_plat.Tokens.Issued.{IsSigned, generate_token-IsBearer}

abbrev numbers : Numbers ℕ
numbers = record {
  is_negative = λ _. false;
  is_large = λ n. ltb 9223372036854775807 n;
  is_fractional = λ _. false;
  to_uint64 = λ n. n;
}

abbrev payload : Payload ℕ
payload = ("id", text_claim "ann") ∷ ("token_version", uint64_claim 7) ∷ []

abbrev read : Payload ℕ
read =
    ("type", text_claim "x-access")
    ∷ ("id", text_claim "ann")
    ∷ ("token_version", float_claim 7)
    ∷ []

abbrev jwt : Jwt ℕ
jwt = record {
  sign = λ _. ok "word";
  parse = λ _. ok (record { valid = true; payload = some read });
}

word-IsSigned :
    IsSigned jwt numbers
      (record { payload = token_payload jwt payload "x-access"; iat = 100; exp = 100 + 300 })
      "word"
unfolding token_payload trim_space trim_prefix token_version
word-IsSigned = record {
  read = read;
  signed = refl;
  parsed = refl;
  clean = refl;
  same_text = λ key. ground arith;
  same_number = λ key n e small. (n, ground (arith, e), (refl, ground (arith, small), refl, refl));
}

generate_token-IsBearer_example :
    IsBearer jwt numbers "x-access" (generate_token jwt 100 payload "x-access" 300) "ann" 7
    × ((token_type user_id : String) (n : ℕ)
        → IsBearer jwt numbers token_type (generate_token jwt 100 payload "x-access" 300) user_id n
        → token_type ≡ "x-access")
unfolding trim_space
generate_token-IsBearer_example =
    generate_token-IsBearer jwt numbers 100 300 payload "x-access" "word" "ann" 7 word-IsSigned refl
      refl refl (omega arith)

authorize-jwt_auth_example :
    ((authorize jwt numbers ("word" ∷ []) "x-access" ≡ ok ("ann", 7))
      ↔ Passes jwt numbers "x-access" "word" "ann" 7)
    × (Passes jwt numbers "x-access" "word" "ann" 7
        ↔ IsBearer jwt numbers "x-access" "word" "ann" 7)
authorize-jwt_auth_example = authorize-jwt_auth jwt numbers "x-access" "word" "ann" 7 [] refl
