-- ===== src/User/Service.antt =====
-- internal/user/service/user.go.
use scalable_e_commerce_plat.Base.{
  ℕ, ◌+◌, ◌%◌, String, not, nat_eq, leb, Action, pure, raise_if, lift, ◌>>=◌, ◌>>◌, wrong_password,
  refresh_token_revoked, two_64, if◌then◌else◌,
}
use scalable_e_commerce_plat.Dbs.{Engine}
use scalable_e_commerce_plat.User.Model.{
  User, no_role, RegisterReq, LoginReq, ChangePasswordReq, TokenData, Secrets, Verdicts,
}
use scalable_e_commerce_plat.User.Repository
use scalable_e_commerce_plat.User.Repository.{Users}

-- bcrypt.DefaultCost
abbrev pub default_cost : ℕ
default_cost = 10

abbrev pub token_data : User → TokenData
token_data user = record { id = user.id; role = user.role; token_version = user.token_version }

pub record LoginResult : Type 0 where
  pub user : User
  pub access_token : String
  pub refresh_token : String

module _ (secrets : Secrets) (v : Verdicts) (db : Engine) where
  -- The user as the service goes on with it.
  unfoldable pub upgrade_password_hash : User → String → Action Users User
  upgrade_password_hash user password = do
    cost ← lift (secrets.cost user.password)
    if leb default_cost cost then pure user else (do
      hashed ← lift (secrets.hash_and_salt password)
      let upgraded : User = record user { password = hashed }
      Repository.update db upgraded
      pure upgraded)

  unfoldable pub login : LoginReq → Action Users LoginResult
  login req = do
    lift (v.login req)
    user ← Repository.get_user_by_email db req.email
    raise_if (not (secrets.compare_hash_and_password user.password req.password)) wrong_password
    user' ← upgrade_password_hash user req.password
    pure (record {
      user = user';
      access_token = secrets.generate_access_token (token_data user');
      refresh_token = secrets.generate_refresh_token (token_data user');
    })

  unfoldable pub register : String → RegisterReq → Action Users User
  register uuid req = do
    lift (v.register req)
    Repository.create db secrets uuid (record {
      id = "";
      email = req.email;
      password = req.password;
      role = no_role;
      token_version = 0;
    })

  unfoldable pub get_user_by_id : String → Action Users User
  get_user_by_id id = Repository.get_user_by_id db id

  unfoldable pub refresh_token : String → ℕ → Action Users String
  refresh_token user_id token_version = do
    user ← Repository.get_user_by_id db user_id
    raise_if (not (nat_eq user.token_version token_version)) refresh_token_revoked
    pure (secrets.generate_access_token (token_data user))

  -- `TokenVersion++` on a uint64
  unfoldable pub change_password : String → ChangePasswordReq → Action Users (Unit {0})
  change_password id req = do
    lift (v.change_password req)
    user ← Repository.get_user_by_id db id
    raise_if (not (secrets.compare_hash_and_password user.password req.password)) wrong_password
    hashed ← lift (secrets.hash_and_salt req.new_password)
    Repository.update db
        (record user { password = hashed; token_version = (user.token_version + 1) % two_64 })
