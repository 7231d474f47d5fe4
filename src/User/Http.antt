-- ===== src/User/Http.antt =====
-- internal/user/port/http/handlers.go. A request comes with its body as gin has bound it, and with the
-- user and the token version that the middleware has set. The log is left out.
use scalable_e_commerce_plat.Base.{
  ℕ, String, Option, none, some, Result, ok, err, Error, ◌==◌, cause, new_error,
  refresh_token_revoked, if◌then◌else◌,
}
use scalable_e_commerce_plat.Dbs.{Engine}
use scalable_e_commerce_plat.Response.{Response, error_response, json_response}
use scalable_e_commerce_plat.User.Model.{
  User, RegisterReq, LoginReq, ChangePasswordReq, Secrets, Verdicts,
}
use scalable_e_commerce_plat.User.Repository.{Users}
use scalable_e_commerce_plat.User.Service as Service

-- dto.User, without its time stamps
pub record UserRes : Type 0 where
  pub id : String
  pub email : String

pub record LoginRes : Type 0 where
  pub user : UserRes
  pub access_token : String
  pub refresh_token : String

-- `utils.Copy(&res, &user)`
abbrev pub copy_user : User → UserRes
copy_user user = record { id = user.id; email = user.email }

module _ (secrets : Secrets) (v : Verdicts) (db : Engine) (environment : String) where
  abbrev pub refuse : {A : Type 0} → ℕ → Error → String → Users → Response A × Users
  refuse status e message s = (error_response environment status e message, s)

  abbrev pub unauthorized : {A : Type 0} → Users → Response A × Users
  unauthorized s = refuse 401 (new_error "unauthorized") "Unauthorized" s

  unfoldable pub login : Result LoginReq → Users → Response LoginRes × Users
  login (err e) s = refuse 400 e "Invalid parameters" s
  login (ok req) s =
      let (r, s1) = Service.login secrets v db req s in
      elim r [
        | err e ↦ refuse 500 e "Something went wrong" s1
        | ok found ↦ (
          json_response 200 (record {
            user = copy_user found.user;
            access_token = found.access_token;
            refresh_token = found.refresh_token;
          }),
          s1,
        )
      ]

  -- dto.RegisterRes holds the user alone.
  unfoldable pub register : String → Result RegisterReq → Users → Response UserRes × Users
  register uuid (err e) s = refuse 400 e "Invalid parameters" s
  register uuid (ok req) s =
      let (r, s1) = Service.register secrets v db uuid req s in
      elim r [
        | err e ↦ refuse 500 e "Something went wrong" s1
        | ok user ↦ (json_response 200 (copy_user user), s1)
      ]

  unfoldable pub get_me : String → Users → Response UserRes × Users
  get_me user_id s =
      if user_id == ""
      then unauthorized s
      else let (r, s1) = Service.get_user_by_id secrets v db user_id s in
        elim r [
          | err e ↦ refuse 500 e "Something went wrong" s1
          | ok user ↦ (json_response 200 (copy_user user), s1)
        ]

  -- dto.RefreshTokenRes holds the access token alone.
  unfoldable pub refresh_token : String → Option ℕ → Users → Response String × Users
  refresh_token user_id token_version s =
      if user_id == "" then unauthorized s else elim token_version [
        | none ↦ unauthorized s
        | some version ↦
            let (r, s1) = Service.refresh_token secrets v db user_id version s in
            elim r [
              | err e ↦ elim (cause e) [
                | refresh_token_revoked ↦ refuse 401 e "Unauthorized" s1
                | _ ↦ refuse 500 e "Something went wrong" s1
              ]
              | ok access_token ↦ (json_response 200 access_token, s1)
            ]
      ]

  unfoldable pub change_password :
      String → Result ChangePasswordReq → Users → Response (Unit {0}) × Users
  change_password user_id (err e) s = refuse 400 e "Invalid parameters" s
  change_password user_id (ok req) s =
      let (r, s1) = Service.change_password secrets v db user_id req s in
      elim r [
        | err e ↦ refuse 500 e "Something went wrong" s1
        | ok done ↦ (json_response 200 tt, s1)
      ]
