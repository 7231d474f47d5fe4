-- ===== src/User/Login.antt =====
-- Whom Login lets in, and what its tokens say.
use scalable_e_commerce_plat.Base.{
  ℕ, String, ◌≡◌, true, false, some, ok, ◌==◌, leb, arith, inl, inr, subst, ap, ◌∙◌, Result-cases,
  Option-cases, Bool-cases,
}
use scalable_e_commerce_plat.Dbs.{Engine}
use scalable_e_commerce_plat.Dbs.Rows.{first_where, save_row}
use scalable_e_commerce_plat.User.Model.{User, LoginReq, Secrets, Verdicts}
use scalable_e_commerce_plat.User.Repository
use scalable_e_commerce_plat.User.Repository.{Users}
use scalable_e_commerce_plat.User.Service.{
  LoginResult, token_data, default_cost, upgrade_password_hash, login,
}

module _ (secrets : Secrets) (v : Verdicts) (db : Engine) where
  -- The user is as before, or has a new hash of the password in place of a weak one.
  pub data Upgraded (user : User) (password : String) (s : Users) (user' : User) (s' : Users)
      : Type 0 where
    kept :
        (cost : ℕ)
        → secrets.cost user.password ≡ ok cost
        → leb default_cost cost ≡ true
        → user' ≡ user
        → s' ≡ s
        → Upgraded user password s user' s'
    rehashed :
        (cost : ℕ) (hashed : String)
        → secrets.cost user.password ≡ ok cost
        → leb default_cost cost ≡ false
        → secrets.hash_and_salt password ≡ ok hashed
        → user' ≡ record user { password = hashed }
        → s' ≡ save_row (λ u. u.id == user.id) (record user { password = hashed }) s
        → Upgraded user password s user' s'

  upgrade_password_hash-Upgraded :
      (user : User) (password : String) (s : Users) (user' : User)
      → (upgrade_password_hash secrets v db user password s).0 ≡ ok user'
      → Upgraded user password s user' (upgrade_password_hash secrets v db user password s).1
  unfolding upgrade_password_hash Repository.update
  upgrade_password_hash-Upgraded user password s user' e =
      elim (Result-cases (secrets.cost user.password)) [
        | inr (x, a) ↦ absurd (ground (arith, a, e))
        | inl (cost, a) ↦ elim (Bool-cases (leb default_cost cost)) [
          | inl b ↦ kept cost a b (ground (arith, a, b, e)) (ground (arith, a, b, e))
          | inr b ↦ elim (Result-cases (secrets.hash_and_salt password)) [
            | inr (x, c) ↦ absurd (ground (arith, a, b, c, e))
            | inl (hashed, c) ↦
                let saves =
                  db.save_replies User (λ u. u.id == user.id) (record user { password = hashed })
                    s in
                rehashed cost hashed a b c (ground (arith, a, b, c, saves, e))
                  (ground (arith, a, b, c, saves, e))
          ]
        ]
      ]

  -- A login as a user on record.
  pub record LoggedIn (req : LoginReq) (s : Users) (r : LoginResult) (s' : Users) : Type 0 where
    pub user : User
    pub found : first_where (λ u. u.email == req.email) s ≡ some user
    pub knew : secrets.compare_hash_and_password user.password req.password ≡ true
    pub upgrade : Upgraded user req.password s r.user s'
    pub access : r.access_token ≡ secrets.generate_access_token (token_data user)
    pub refresh : r.refresh_token ≡ secrets.generate_refresh_token (token_data user)

  same_token_data :
      (user : User) (password : String) (s : Users) (user' : User) (s' : Users)
      → Upgraded user password s user' s'
      → token_data user' ≡ token_data user
  same_token_data user password s user' s' (kept cost a b c d) = ap token_data c
  same_token_data user password s user' s' (rehashed cost hashed a b c d e) = ap token_data d

  -- A login that succeeds is that of the user on record with the email, whose stored hash the
  -- password matches; both tokens carry that user's id, role and token version. The user is as
  -- before where the hash costs enough, and else the table has a new hash of the same password.
  pub login-LoggedIn :
      (req : LoginReq) (s : Users) (r : LoginResult)
      → (login secrets v db req s).0 ≡ ok r
      → LoggedIn req s r (login secrets v db req s).1
  unfolding login Repository.get_user_by_email
  login-LoggedIn req s r e =
      let found = db.first_replies User (λ u. u.email == req.email) s in
      elim (Result-cases (v.login req)) [
        | inr (x, a) ↦ absurd (ground (arith, a, e))
        | inl (u, a) ↦ elim (Option-cases (first_where (λ (u : User). u.email == req.email) s)) [
          | inl z ↦ absurd (ground (arith, a, z, found, e))
          | inr (user, z) ↦
              elim (Bool-cases (secrets.compare_hash_and_password user.password req.password)) [
                | inr b ↦ absurd (ground (arith, a, z, found, b, e))
                | inl b ↦
                    let up = upgrade_password_hash secrets v db user req.password s in
                    elim (Result-cases up.0) [
                      | inr (x, c) ↦ absurd (ground (arith, a, z, found, b, c, e))
                      | inl (user', c) ↦
                          let g = upgrade_password_hash-Upgraded user req.password s user' c in
                          let same = same_token_data user req.password s user' up.1 g in
                          let who : user' ≡ r.user = ground (arith, a, z, found, b, c, e) in
                          let issued : LoginResult = record {
                            user = user';
                            access_token = secrets.generate_access_token (token_data user');
                            refresh_token = secrets.generate_refresh_token (token_data user');
                          } in
                          let answer : r ≡ issued = ground (arith, a, z, found, b, c, e) in
                          let end : up.1 ≡ (login secrets v db req s).1 =
                            ground (arith, a, z, found, b, c, e) in
                          record {
                            user = user;
                            found = z;
                            knew = b;
                            upgrade =
                                subst
                                  (λ x. Upgraded user req.password s x (login secrets v db req s).1)
                                  who (subst (Upgraded user req.password s user') end g);
                            access =
                                ap (λ (x : LoginResult). x.access_token) answer
                                ∙ ap secrets.generate_access_token same;
                            refresh =
                                ap (λ (x : LoginResult). x.refresh_token) answer
                                ∙ ap secrets.generate_refresh_token same;
                          }
                    ]
              ]
        ]
      ]
