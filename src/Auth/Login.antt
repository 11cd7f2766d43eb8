-- ===== src/Auth/Login.antt =====
-- Who can log in, and what a registration changes.
use antimony_backend.Base.{
  ◌==◌, nat_eq, string_eq, Bool-cases, Option-cases, lookup, ℕ, ◌+◌, ◌≤◌, ◌<◌, ◌≡◌, refl, ap, ◌∙◌,
  ◌⊎◌, inl, inr, true, ◌&&◌, none, some, [], arith,
}
use antimony_backend.Policy.Text.{Text, text_eq}
use antimony_backend.Errors.{err_invalid_credentials}
use antimony_backend.Errors.Result.{ok, failed}
use antimony_backend.Auth.{
  AuthenticatedUser, NativeTestingAccount, Manager, Claims, Jwt, native_user, create_auth_token,
  create_access_token, login_native, authenticate_user, refresh_access_token,
}

-- The credentials of the administrator, or of a registered account.
pub Knows : Manager → Text → Text → Type 0
Knows m username password =
    ((username ≡ m.config.admin_username) × (password ≡ m.config.admin_password))
    ⊎ ((a : NativeTestingAccount) × (lookup username m.native_testing_accounts ≡ some a)
        × (password ≡ a.password))

module _ (m : Manager) (username password : Text) where
  native_user-Knows : (native_user m username password ≡ []) ⊎ Knows m username password
  unfolding native_user Knows
  native_user-Knows =
      elim (Bool-cases
        (username == m.config.admin_username && password == m.config.admin_password)) [
          | inl admin ↦ inr (
              inl (
                ground (
                  arith,
                  admin,
                  text_eq.equal_iff username m.config.admin_username,
                  text_eq.equal_iff password m.config.admin_password,
                )))
          | inr other ↦ elim (Option-cases (lookup username m.native_testing_accounts)) [
            | inl missing ↦ inl (rw (other, missing, native_user) refl)
            | inr (a, found) ↦ elim (Bool-cases (password == a.password)) [
              | inl same ↦ inr (inr (a, found, (text_eq.equal_iff password a.password).0 same))
              | inr wrong ↦ inl (rw (other, found, wrong, native_user) refl)
            ]
          ]
        ]

  login_native-nobody :
      (jwt : Jwt) (now : ℕ)
      → m.config.admin_enabled ≡ true
      → lookup (native_user m username password) m.authenticated_users ≡ none
      → login_native jwt now m username password ≡ failed err_invalid_credentials
  unfolding login_native
  login_native-nobody jwt now enabled nobody = rw (nobody, enabled, login_native) refl

  -- If no user has the empty ID, a native login that succeeds was made with the credentials of
  -- the administrator or of a registered account, and while native logins are enabled.
  pub login_native-Knows :
      (jwt : Jwt) (now : ℕ) (tokens : Text × Text)
      → lookup [] m.authenticated_users ≡ none
      → login_native jwt now m username password ≡ ok tokens
      → (m.config.admin_enabled ≡ true) × Knows m username password
  unfolding login_native
  login_native-Knows jwt now tokens empty h = elim (Bool-cases m.config.admin_enabled) [
    | inr disabled ↦ absurd (cc (rw (disabled, login_native) at h))
    | inl enabled ↦ elim native_user-Knows [
      | inr known ↦ (enabled, known)
      | inl unknown ↦
          let nobody = ap (λ id. lookup id m.authenticated_users) unknown ∙ empty in
          absurd (cc (h, login_native-nobody jwt now enabled nobody))
    ]
  ]

-- `jwt.Parse` returns the claims that were signed with the same secret, between `nbf` and `exp`.
pub record IsJwt (jwt : Jwt) : Type 0 where
  pub parse-sign :
      (secret token : Text) (c : Claims) (now : ℕ)
      → jwt.sign secret c ≡ ok token
      → c.nbf ≤ now
      → now < c.exp
      → jwt.parse secret now token ≡ some c

module _ (jwt : Jwt) (law : IsJwt jwt) (m : Manager) (user : AuthenticatedUser) where
  authenticate-signed :
      (id token : Text) (c : Claims) (now : ℕ)
      → jwt.sign m.jwt_secret c ≡ ok token
      → c.nbf ≤ now
      → now < c.exp
      → c.id ≡ some id
      → lookup id m.authenticated_users ≡ some user
      → authenticate_user jwt now m token ≡ ok user
  unfolding authenticate_user
  authenticate-signed id token c now signed from until known found =
      rw
        (law.parse-sign m.jwt_secret token c now signed from until, known, found, authenticate_user)
        refl

  -- With a JWT package that parses what it signed, the auth token of a known user can be exchanged
  -- for 30 days, and what `RefreshAccessToken` returns then is what `CreateAccessToken` makes for
  -- that user.
  pub refresh_access_token-create_auth_token :
      (made now : ℕ) (id token : Text)
      → create_auth_token jwt made m id ≡ ok token
      → made ≤ now
      → now < made + 2592000
      → lookup id m.authenticated_users ≡ some user
      → refresh_access_token jwt now m token ≡ create_access_token jwt now m user
  unfolding refresh_access_token create_auth_token
  refresh_access_token-create_auth_token made now id token h from until found =
      rw (authenticate-signed id token _ now h from until refl found, refresh_access_token) refl

  -- With a JWT package that parses what it signed, the access token of a user who is known under
  -- their own ID authenticates that user for 30 minutes.
  pub authenticate_user-create_access_token :
      (made now : ℕ) (token : Text)
      → create_access_token jwt made m user ≡ ok token
      → made ≤ now
      → now < made + 1800
      → lookup user.user_id m.authenticated_users ≡ some user
      → authenticate_user jwt now m token ≡ ok user
  unfolding create_access_token
  authenticate_user-create_access_token made now token h from until found =
      authenticate-signed user.user_id token _ now h from until refl found
