-- ===== src/Response.antt =====
-- pkg/response: the body of a response, and what an error shows of itself.
use scalable_e_commerce_plat.Base.{
  ℕ, String, not, ◌&&◌, Option, none, some, ◌==◌, Error, ltb, if◌then◌else◌,
}

-- `result`, or `error` with its message and, where it is shown, the error itself.
pub data Body (A : Type 0) : Type 0 where
  result : A → Body A
  failure : String → Option Error → Body A

pub record Response (A : Type 0) : Type 0 where
  pub status : ℕ
  pub body : Body A

unfoldable pub error_response : {A : Type 0} → String → ℕ → Error → String → Response A
error_response environment status e message = record {
  status = status;
  body =
      failure message
        (if not (environment == "production") && ltb status 500 then some e else none);
}

abbrev pub json_response : {A : Type 0} → ℕ → A → Response A
json_response status data_ = record { status = status; body = result data_ }
