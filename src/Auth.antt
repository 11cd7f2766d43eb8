-- ===== src/Auth.antt =====
-- auth/manager.go: native, desktop and OpenID logins, and the tokens that users are known by. The
-- mutex makes each access to the two maps one step. A text is the list of its bytes.
pub mod Login
pub mod Register
pub mod Desktop
pub mod Tests
use antimony_backend.Base.{
  Eq, ◌==◌, nat_eq, string_eq, ==_refl, ltb, leb, nat_beq, if◌then◌else◌, ltb→lt, leb→le, ltb-of_lt,
  ltb-of_le, nat_beq_iff, Bool-cases, Option-cases, length, get_elem?, take, drop, replicate, store,
  length-append, length-take, length-drop, length-replicate, take-append-drop, take_all, drop_all,
  drop-append, drop-drop, get_elem?-some, Stores, store-some, All, In, All-In, All-of_In, All-imp,
  All-append, In-append_left, In-append_right, lookup, put, delete, Map, lookup-put, lookup-delete,
  lookup-put_self, lookup-put_ne, lookup-delete_self, lookup-delete_ne, lookup-put-some,
  lookup-delete-some, ℕ, zero, suc, ◌+◌, ◌-◌, ◌*◌, ◌/◌, ◌%◌, ◌^◌, ◌≤◌, ◌<◌, min, String, ◌≡◌, refl,
  sym, ap, subst, ◌∙◌, ◌≢◌, ◌↔◌, ◌⊎◌, inl, inr, Bool, true, false, not, ◌&&◌, ◌||◌, Option, none,
  some, List, [], ◌∷◌, ◌++◌, map, append-nil, append_assoc, arith,
}
use antimony_backend.Policy.Text.{Text, codes, text_eq, has_prefix, contains_func}
use antimony_backend.Errors.{
  err_admin_auth_disabled_error, err_open_id_auth_disabled_error, err_desktop_auth_disabled_error,
  err_invalid_credentials, err_desktop_token_invalid, err_access_token_invalid, err_open_id_error,
  err_unauthorized,
}
use antimony_backend.Errors.Result.{Result, ok, failed, ◌>>=◌}

abbrev pub native_user_id : Text
native_user_id = codes "00000000-0000-0000-0000-00000000000"

pub record AuthenticatedUser : Type 0 where
  pub user_id : Text
  pub collections : List Text
  pub is_admin : Bool

-- The configuration, with what the source reads from the environment.
pub record AuthConfig : Type 0 where
  pub admin_enabled : Bool
  pub admin_username : Text
  pub admin_password : Text
  pub open_id_enabled : Bool
  pub admin_groups : List Text
  pub open_id_secret : Text
  pub desktop_enabled : Bool
  pub desktop_token : Text

pub record NativeTestingAccount : Type 0 where
  pub password : Text
  pub user_id : Text

pub record Manager : Type 0 where
  pub jwt_secret : Text
  pub config : AuthConfig
  pub native_testing_accounts : Map Text NativeTestingAccount
  pub authenticated_users : Map Text AuthenticatedUser

-- The claims of a token; `id` is none where the claim is missing or not a string, and `is_admin`
-- is only in access tokens.
pub record Claims : Type 0 where
  pub id : Option Text
  pub is_admin : Option Bool
  pub nbf : ℕ
  pub exp : ℕ

-- The JWT package, with HMAC as the only accepted method: signing may fail, and parsing at some
-- time returns the claims of a valid token.
pub record Jwt : Type 0 where
  pub sign : Text → Claims → Result Text
  pub parse : Text → ℕ → Text → Option Claims

pub record UserInfo : Type 0 where
  pub sub : Text
  pub groups : List Text
  pub profile : Text

unfoldable pub register_admin : Manager → Manager
register_admin m = record m {
  authenticated_users =
      put native_user_id (record { user_id = native_user_id; is_admin = true; collections = [] })
        m.authenticated_users;
}

-- `CreateManager`: `random` is the generated secret and `connects` says whether the OpenID
-- provider answers. `none` is `log.Fatal`, which ends the program.
unfoldable pub create_manager : AuthConfig → Text → Text → Bool → Option Manager
create_manager c secret random connects =
    let m : Manager = record {
      jwt_secret = if secret == [] then random else secret;
      config = c;
      native_testing_accounts = [];
      authenticated_users = [];
    } in
    let m₁ = if c.admin_enabled then register_admin m else m in
    let m₂ = if c.desktop_enabled then register_admin m₁ else m₁ in
    if c.admin_enabled && (c.admin_username == [] || c.admin_password == [])
    then none
    else if c.desktop_enabled && c.desktop_token == []
    then none
    else if c.open_id_enabled && (c.open_id_secret == [] || not connects)
    then none
    else some m₂

unfoldable pub register_native_user : Manager → Text → Text → Text → List Text → Result Manager
register_native_user m user_id username password collections =
    if not m.config.admin_enabled
    then failed err_admin_auth_disabled_error
    else if username == [] || password == [] || username == m.config.admin_username
    then failed err_invalid_credentials
    else elim (lookup username m.native_testing_accounts) [
      | some _ ↦ failed err_invalid_credentials
      | none ↦ ok (record m {
        native_testing_accounts =
            put username (record { password = password; user_id = user_id })
              m.native_testing_accounts;
        authenticated_users =
            put user_id (record { user_id = user_id; is_admin = false; collections = collections })
              m.authenticated_users;
      })
    ]

unfoldable pub register_test_user : Manager → AuthenticatedUser → Manager × Text
register_test_user m user =
    (record m { authenticated_users = put user.user_id user m.authenticated_users }, user.user_id)

-- The user that `LoginNative` finds for the credentials; the empty ID if there is none.
unfoldable pub native_user : Manager → Text → Text → Text
native_user m username password =
    if username == m.config.admin_username && password == m.config.admin_password
    then native_user_id
    else elim (lookup username m.native_testing_accounts) [
      | none ↦ []
      | some account ↦ if password == account.password then account.user_id else []
    ]

-- `now` is the time in seconds.
module _ (jwt : Jwt) (now : ℕ) where
  unfoldable pub create_auth_token : Manager → Text → Result Text
  create_auth_token m user_id =
      jwt.sign m.jwt_secret
        (record { id = some user_id; is_admin = none; nbf = now; exp = now + 2592000 })

  unfoldable pub create_access_token : Manager → AuthenticatedUser → Result Text
  create_access_token m user = jwt.sign m.jwt_secret (record {
    id = some user.user_id;
    is_admin = some user.is_admin;
    nbf = now;
    exp = now + 1800;
  })

  -- An auth token and an access token.
  unfoldable pub login_native : Manager → Text → Text → Result (Text × Text)
  login_native m username password =
      if not m.config.admin_enabled
      then failed err_admin_auth_disabled_error
      else elim (lookup (native_user m username password) m.authenticated_users) [
        | none ↦ failed err_invalid_credentials
        | some user ↦ do
          auth_token ← create_auth_token m (native_user m username password)
          access_token ← create_access_token m user
          ok (auth_token, access_token)
      ]

  -- `none` is the panic of a nil dereference.
  unfoldable pub login_desktop : Manager → Text → Option (Result Text)
  login_desktop m token =
      if not m.config.desktop_enabled
      then some (failed err_desktop_auth_disabled_error)
      else if not (token == m.config.desktop_token)
      then some (failed err_desktop_token_invalid)
      else elim (lookup native_user_id m.authenticated_users) [
        | none ↦ none
        | some user ↦ some (create_access_token m user)
      ]

  unfoldable pub authenticate_user : Manager → Text → Result AuthenticatedUser
  authenticate_user m token = elim (jwt.parse m.jwt_secret now token) [
    | none ↦ failed err_access_token_invalid
    | some claims ↦ elim claims.id [
      | none ↦ failed err_access_token_invalid
      | some id ↦ elim (lookup id m.authenticated_users) [
        | none ↦ failed err_access_token_invalid
        | some user ↦ ok user
      ]
    ]
  ]

  unfoldable pub refresh_access_token : Manager → Text → Result Text
  refresh_access_token m auth_token = do
    user ← authenticate_user m auth_token
    create_access_token m user

  -- The middleware answers every failure with the same error.
  unfoldable pub authenticate_token : Manager → Text → Result AuthenticatedUser
  authenticate_token m token = elim (authenticate_user m token) [
    | ok user ↦ ok user
    | failed _ ↦ failed err_access_token_invalid
  ]

  -- The user of a request, from its `Authorization` header or else its cookie, or the error of
  -- the reply.
  unfoldable pub authenticate_request : Manager → Text → Option Text → Result AuthenticatedUser
  authenticate_request m header cookie =
      if has_prefix header (codes "Bearer ")
      then authenticate_token m (drop 7 header)
      else elim cookie [ none ↦ failed err_unauthorized | some token ↦ authenticate_token m token ]

-- `AuthenticateWithCode`: `fetch` asks the OpenID provider for the user of a code, in three calls
-- of which each may fail, and `mapper` is the caller's function to the user's ID.
unfoldable pub authenticate_with_code :
    (Text → Option UserInfo)
    → (Text → Text → Result Text)
    → Manager
    → Text
    → Result (AuthenticatedUser × Manager)
authenticate_with_code fetch mapper m code =
    if not m.config.open_id_enabled
    then failed err_open_id_auth_disabled_error
    else elim (fetch code) [
      | none ↦ failed err_open_id_error
      | some info ↦ do
        user_id ← mapper info.sub info.profile
        let user : AuthenticatedUser = record {
          user_id = user_id;
          is_admin =
              contains_func m.config.admin_groups
                (λ group. contains_func info.groups (λ g. g == group));
          collections = info.groups;
        } in
            ok (user, record m { authenticated_users = put user_id user m.authenticated_users })
    ]

unfoldable pub get_auth_code_url : (Text → Text) → Manager → Text → Result Text
get_auth_code_url url m state =
    if not m.config.open_id_enabled then failed err_open_id_auth_disabled_error else ok (url state)
