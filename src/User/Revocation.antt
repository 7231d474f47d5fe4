-- ===== src/User/Revocation.antt =====
-- What a change of password does to the refresh tokens that were issued before.
use scalable_e_commerce_plat.Base.{
  ℕ, ◌+◌, ◌%◌, ◌<◌, String, ◌≡◌, ◌≢◌, true, [], ◌∷◌, Option, some, ok, ◌==◌, eq_iff, arith, inl,
  inr, sym, subst, ap, ◌∙◌, Result-cases, Option-cases, Bool-cases, two_64,
}
use scalable_e_commerce_plat.Dbs.{Engine}
use scalable_e_commerce_plat.Dbs.Rows.{map_where}
use scalable_e_commerce_plat.Dbs.Keyed.{find_key, find_key-key}
use scalable_e_commerce_plat.User.Model.{User, ChangePasswordReq, Secrets, Verdicts}
use scalable_e_commerce_plat.User.Repository
use scalable_e_commerce_plat.User.Repository.{Users}
use scalable_e_commerce_plat.User.Service.{change_password, refresh_token}

abbrev pub id_of : User → String
id_of u = u.id

abbrev pub user_of : String → Users → Option User
user_of = find_key id_of

-- The version after one that a uint64 holds is another.
next_version : (n : ℕ) → n < two_64 → (n + 1) % two_64 ≡ n → ⊥
next_version n b e = omega (arith, b, e)

-- A row that is on record is found again after it is saved.
user_of-replaced :
    (row : User) (rows : Users) (old : User)
    → user_of row.id rows ≡ some old
    → user_of row.id (map_where (λ u. u.id == row.id) (λ _. row) rows) ≡ some row
user_of-replaced row [] old e = cc e
user_of-replaced row (u ∷ rows) old e =
    ground (arith, e, eq_iff row.id row.id, user_of-replaced row rows old)

module _ (secrets : Secrets) (v : Verdicts) (db : Engine) where
  -- A change that succeeds: the user had the old password, and the row has the next version.
  pub record Changed (id : String) (req : ChangePasswordReq) (s s' : Users) : Type 0 where
    pub user : User
    pub hashed : String
    pub found : user_of id s ≡ some user
    pub knew : secrets.compare_hash_and_password user.password req.password ≡ true
    pub hashes : secrets.hash_and_salt req.new_password ≡ ok hashed
    pub now :
        user_of id s'
        ≡ some
            (record user { password = hashed; token_version = (user.token_version + 1) % two_64 })

  pub change_password-Changed :
      (id : String) (req : ChangePasswordReq) (s : Users)
      → (change_password secrets v db id req s).0 ≡ ok tt
      → Changed id req s (change_password secrets v db id req s).1
  unfolding change_password Repository.get_user_by_id Repository.update
  change_password-Changed id req s e =
      let found = db.first_replies User (λ u. u.id == id) s in
      elim (Result-cases (v.change_password req)) [
        | inr (x, a) ↦ absurd (ground (arith, a, e))
        | inl (u, a) ↦ elim (Option-cases (user_of id s)) [
          | inl z ↦ absurd (ground (arith, a, z, found, e))
          | inr (user, z) ↦
              elim (Bool-cases (secrets.compare_hash_and_password user.password req.password)) [
                | inr b ↦ absurd (ground (arith, a, z, found, b, e))
                | inl b ↦ elim (Result-cases (secrets.hash_and_salt req.new_password)) [
                  | inr (x, c) ↦ absurd (ground (arith, a, z, found, b, c, e))
                  | inl (hashed, c) ↦
                      let row : User = record user {
                        password = hashed;
                        token_version = (user.token_version + 1) % two_64;
                      } in
                      let key = find_key-key id_of id s user z in
                      let z' : user_of user.id s ≡ some user =
                        subst (λ i. user_of i s ≡ some user) (sym key) z in
                      let saves = db.save_replies User (λ u. u.id == user.id) row s in
                      let end : (change_password secrets v db id req s).1
                          ≡ map_where (λ u. u.id == user.id) (λ _. row) s =
                        ground (arith, a, z, z', found, b, c, saves, e) in
                      record {
                        user = user;
                        hashed = hashed;
                        found = z;
                        knew = b;
                        hashes = c;
                        now =
                            ap (user_of id) end
                            ∙ subst
                                (λ i.
                                  user_of i (map_where (λ u. u.id == user.id) (λ _. row) s)
                                  ≡ some row)
                                key (user_of-replaced row s user z');
                      }
                ]
              ]
        ]
      ]

  -- After a change of password that succeeds for a user whose token version fits uint64, a refresh
  -- token with the version from before is answered no access token.
  pub change_password-refresh_token :
      (id : String) (req : ChangePasswordReq) (s : Users) (user : User) (token : String)
      → user_of id s ≡ some user
      → user.token_version < two_64
      → (change_password secrets v db id req s).0 ≡ ok tt
      → (refresh_token secrets v db id user.token_version
          (change_password secrets v db id req s).1).0
        ≢ ok token
  unfolding refresh_token Repository.get_user_by_id
  change_password-refresh_token id req s user token z b e f =
      let c = change_password-Changed id req s e in
      let s' = (change_password secrets v db id req s).1 in
      let same : c.user ≡ user = ground (arith, c.found, z) in
      let version : (c.user.token_version + 1) % two_64 ≢ user.token_version = λ g. absurd (
        next_version user.token_version b
          (subst (λ (x : User). (x.token_version + 1) % two_64 ≡ user.token_version) same g)) in
      ground (arith, c.now, version, db.first_replies User (λ u. u.id == id) s', f)
