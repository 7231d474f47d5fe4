-- ===== src/Tests/Accounts.antt =====
-- Runs of the user service.
use scalable_e_commerce_plat.Base.{◌≡◌, ◌≢◌, refl, ok, arith, [], ◌∷◌, ◌==◌}
use scalable_e_commerce_plat.Dbs.Reference.{reliable}
use scalable_e_commerce_plat.User.Model.{
  User, customer, LoginReq, ChangePasswordReq, Secrets, Verdicts,
}
use scalable_e_commerce_plat.User.Repository as UserRepository
use scalable_e_commerce_plat.User.Repository.{Users}
use scalable_e_commerce_plat.User.Service.{
  LoginResult, login, upgrade_password_hash, change_password, refresh_token,
}
use scalable_e_commerce_plat.User.Login.{LoggedIn, login-LoggedIn}
use scalable_e_commerce_plat.User.Revocation.{change_password-refresh_token}

-- A hash that is the password itself, and tokens that name the user.
abbrev secrets : Secrets
secrets = record {
  compare_hash_and_password = λ hash password. hash == password;
  cost = λ _. ok 10;
  hash_and_salt = λ password. ok password;
  generate_access_token = λ token. token.id;
  generate_refresh_token = λ token. token.id;
}

abbrev verdicts : Verdicts
verdicts = record { login = λ _. ok tt; register = λ _. ok tt; change_password = λ _. ok tt }

abbrev ann : User
ann = record {
  id = "u1";
  email = "ann@shop";
  password = "secret";
  role = customer;
  token_version = 4;
}

abbrev credentials : LoginReq
credentials = record { email = "ann@shop"; password = "secret" }

abbrev change : ChangePasswordReq
change = record { password = "secret"; new_password = "better" }

abbrev session : LoginResult
session = record { user = ann; access_token = "u1"; refresh_token = "u1" }

logged_in : (login secrets verdicts reliable credentials (ann ∷ [])).0 ≡ ok session
unfolding login upgrade_password_hash UserRepository.get_user_by_email
logged_in = refl

login-LoggedIn_example :
    LoggedIn secrets verdicts reliable credentials
      (ann ∷ [])
      session
      (login secrets verdicts reliable credentials (ann ∷ [])).1
login-LoggedIn_example =
    login-LoggedIn secrets verdicts reliable credentials (ann ∷ []) session logged_in

changed : (change_password secrets verdicts reliable "u1" change (ann ∷ [])).0 ≡ ok tt
unfolding change_password UserRepository.get_user_by_id UserRepository.update
changed = refl

change_password-refresh_token_example :
    (refresh_token secrets verdicts reliable "u1" 4
      (change_password secrets verdicts reliable "u1" change (ann ∷ [])).1).0
    ≢ ok "u1"
change_password-refresh_token_example =
    change_password-refresh_token secrets verdicts reliable "u1" change (ann ∷ []) ann "u1" refl
      (omega arith) changed
