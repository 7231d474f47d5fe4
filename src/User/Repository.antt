-- ===== src/User/Repository.antt =====
-- internal/user/repository/user.go, on the rows of the users table.
use scalable_e_commerce_plat.Base.{
  String, List, [], ◌∷◌, Result, ok, err, Action, lift, ◌>>=◌, ◌==◌, if◌then◌else◌,
}
use scalable_e_commerce_plat.Dbs.{Engine, statement, query, answering}
use scalable_e_commerce_plat.User.Model.{User, UserRole, no_role, admin, customer, Secrets}

abbrev pub Users : Type 0
Users = List User

-- The constraints of migrations/ that a present row makes an INSERT violate.
abbrev pub violates : User → User → List String
violates row u =
    if u.id == row.id
    then "users_pkey" ∷ []
    else if u.email == row.email
    then "idx_user_email" ∷ []
    else []

abbrev pub role_or_customer : UserRole → UserRole
role_or_customer no_role = customer
role_or_customer admin = admin
role_or_customer customer = customer

-- `User.BeforeCreate`
unfoldable pub before_create : Secrets → String → User → Result User
before_create secrets uuid user = elim (secrets.hash_and_salt user.password) [
  | err e ↦ err e
  | ok hashed ↦ ok (record user { id = uuid; password = hashed; role = role_or_customer user.role })
]

module _ (db : Engine) where
  unfoldable pub create : Secrets → String → User → Action Users User
  create secrets uuid user = do
    row ← lift (before_create secrets uuid user)
    statement (λ s. s) (λ rows s. rows)
        (λ rows. answering row (db.insert User (violates row) row rows))

  unfoldable pub update : User → Action Users (Unit {0})
  update user =
      statement (λ s. s) (λ rows s. rows)
        (λ rows. answering tt (db.save User (λ u. u.id == user.id) user rows))

  unfoldable pub get_user_by_id : String → Action Users User
  get_user_by_id id = query (λ s. s) (db.first User (λ u. u.id == id))

  unfoldable pub get_user_by_email : String → Action Users User
  get_user_by_email email = query (λ s. s) (db.first User (λ u. u.email == email))
