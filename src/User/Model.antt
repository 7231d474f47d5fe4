-- ===== src/User/Model.antt =====
-- internal/user/model, internal/user/dto, and the calls of bcrypt and pkg/jtoken, which are a
-- parameter. The time stamps are left out.
use scalable_e_commerce_plat.Base.{ℕ, String, Bool, Result}

-- `no_role` is the empty string.
pub data UserRole : Type 0 where
  no_role admin customer : UserRole

pub record User : Type 0 where
  pub id : String
  pub email : String
  pub password : String
  pub role : UserRole
  pub token_version : ℕ

pub record RegisterReq : Type 0 where
  pub email : String
  pub password : String

pub record LoginReq : Type 0 where
  pub email : String
  pub password : String

pub record ChangePasswordReq : Type 0 where
  pub password : String
  pub new_password : String

-- The claims of a token.
pub record TokenData : Type 0 where
  pub id : String
  pub role : UserRole
  pub token_version : ℕ

pub record Secrets : Type 0 where
  -- bcrypt.CompareHashAndPassword, bcrypt.Cost, and HashAndSalt of pkg/utils
  pub compare_hash_and_password : String → String → Bool
  pub cost : String → Result ℕ
  pub hash_and_salt : String → Result String
  -- GenerateAccessToken and GenerateRefreshToken of pkg/jtoken
  pub generate_access_token : TokenData → String
  pub generate_refresh_token : TokenData → String

pub record Verdicts : Type 0 where
  pub login : LoginReq → Result (Unit {0})
  pub register : RegisterReq → Result (Unit {0})
  pub change_password : ChangePasswordReq → Result (Unit {0})
