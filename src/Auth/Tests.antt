-- ===== src/Auth/Tests.antt =====
-- An administrator with a password, a desktop token, and a native user for testing.
use antimony_backend.Base.{
  nat_eq, string_eq, ltb, leb, if◌then◌else◌, ltb-of_lt, lookup, put, ℕ, zero, suc, ◌≤◌, ◌<◌, ◌≡◌,
  refl, ◌≢◌, Bool, true, false, ◌&&◌, Option, none, some, [], ◌∷◌, arith,
}
use antimony_backend.Policy.Text.{Text, codes, text_eq, text_beq}
use antimony_backend.Errors.Result.{Result, ok}
use antimony_backend.Auth.{
  AuthenticatedUser, AuthConfig, Manager, Claims, Jwt, native_user_id, create_manager,
  register_admin, register_native_user, native_user, create_auth_token, create_access_token,
  login_native, login_desktop, authenticate_user, refresh_access_token,
}
use antimony_backend.Auth.Login.{
  Knows, IsJwt, login_native-Knows, refresh_access_token-create_auth_token,
  authenticate_user-create_access_token,
}
use antimony_backend.Auth.Register.{register_native_user-native_user}
use antimony_backend.Auth.Desktop.{registered, act_all, login_desktop-returns}

abbrev config : AuthConfig
config = record {
  admin_enabled = true;
  admin_username = codes "admin";
  admin_password = codes "secret";
  open_id_enabled = false;
  admin_groups = [];
  open_id_secret = [];
  desktop_enabled = true;
  desktop_token = codes "token";
}

abbrev admin : AuthenticatedUser
admin = record { user_id = native_user_id; collections = []; is_admin = true }

abbrev manager : Manager
manager = record {
  jwt_secret = codes "key";
  config = config;
  native_testing_accounts = [];
  authenticated_users = (native_user_id, admin) ∷ [];
}

abbrev with_user : Manager
with_user = record {
  jwt_secret = codes "key";
  config = config;
  native_testing_accounts = (codes "u", record { password = codes "p"; user_id = codes "id" }) ∷ [];
  authenticated_users =
      (native_user_id, admin)
      ∷ (codes "id", record { user_id = codes "id"; collections = []; is_admin = false })
      ∷ [];
}

-- A token that spells out its claims.
abbrev flag : Option Bool → ℕ
flag none = 0
flag (some false) = 1
flag (some true) = 2

abbrev unflag : ℕ → Option Bool
unflag zero = none
unflag (suc zero) = some false
unflag (suc (suc n)) = some true

abbrev name : Option Text → Text
name none = []
name (some id) = 0 ∷ id

abbrev unname : Text → Option Text
unname [] = none
unname (_ ∷ id) = some id

abbrev read : ℕ → Text → Option Claims
read now (from ∷ until ∷ a ∷ id) =
    if leb from now && ltb now until
    then some (record { id = unname id; is_admin = unflag a; nbf = from; exp = until })
    else none
read now _ = none

abbrev jwt : Jwt
jwt = record {
  sign = λ secret c. ok (c.nbf ∷ c.exp ∷ flag c.is_admin ∷ name c.id);
  parse = λ secret now token. read now token;
}

unflag-flag : (a : Option Bool) → unflag (flag a) ≡ a
unflag-flag none = refl
unflag-flag (some false) = refl
unflag-flag (some true) = refl

unname-name : (id : Option Text) → unname (name id) ≡ id
unname-name none = refl
unname-name (some id) = refl

jwt-IsJwt : IsJwt jwt
jwt-IsJwt = record { parse-sign = λ secret token c now e from until. law token c now e from until }
  where
    law :
        (token : Text) (c : Claims) (now : ℕ)
        → jwt.sign [] c ≡ ok token
        → c.nbf ≤ now
        → now < c.exp
        → read now token ≡ some c
    law token c now e from until =
        let spelled : token ≡ c.nbf ∷ c.exp ∷ flag c.is_admin ∷ name c.id = cc e in
        let begun : leb c.nbf now ≡ true = ground (arith, from) in
        rw (spelled, begun, ltb-of_lt now c.exp until, unflag-flag c.is_admin, unname-name c.id)
          refl

manager_created : create_manager config (codes "key") [] true ≡ some manager
unfolding create_manager register_admin put text_beq
manager_created = refl

user_registered :
    register_native_user manager (codes "id") (codes "u") (codes "p") [] ≡ ok with_user
unfolding register_native_user put text_beq lookup
user_registered = refl

login_desktop-returns_example :
    (r : Result Text) × (login_desktop jwt 0
        (act_all manager (registered (codes "id") (codes "u") (codes "p") [] ∷ []))
        (codes "token")
      ≡ some r)
login_desktop-returns_example =
    login_desktop-returns jwt 0 config (codes "key") [] true manager
      (registered (codes "id") (codes "u") (codes "p") [] ∷ []) (codes "token") manager_created

register_native_user-native_user_example :
    (native_user with_user (codes "u") (codes "p") ≡ codes "id")
    × (lookup (codes "id") with_user.authenticated_users
        ≡ some (record { user_id = codes "id"; collections = []; is_admin = false }))
    × ((name other : Text)
        → name ≢ codes "u"
        → (native_user with_user name other ≡ native_user manager name other)
          × (native_user manager name other ≢ codes "id"
              → lookup (native_user with_user name other) with_user.authenticated_users
                ≡ lookup (native_user manager name other) manager.authenticated_users))
register_native_user-native_user_example =
    register_native_user-native_user manager with_user (codes "id") (codes "u") (codes "p") []
      user_registered

refresh_access_token-create_auth_token_example :
    refresh_access_token jwt 9 manager (5 ∷ 2592005 ∷ 0 ∷ 0 ∷ native_user_id)
    ≡ create_access_token jwt 9 manager admin
unfolding lookup text_beq create_auth_token
refresh_access_token-create_auth_token_example =
    refresh_access_token-create_auth_token jwt jwt-IsJwt manager admin 5 9 native_user_id
      (5 ∷ 2592005 ∷ 0 ∷ 0 ∷ native_user_id) refl (omega arith) (omega arith) refl

authenticate_user-create_access_token_example :
    authenticate_user jwt 9 manager (5 ∷ 1805 ∷ 2 ∷ 0 ∷ native_user_id) ≡ ok admin
unfolding lookup text_beq create_access_token
authenticate_user-create_access_token_example =
    authenticate_user-create_access_token jwt jwt-IsJwt manager admin 5 9
      (5 ∷ 1805 ∷ 2 ∷ 0 ∷ native_user_id) refl (omega arith) (omega arith) refl

login_native-Knows_example : (config.admin_enabled ≡ true) × Knows with_user (codes "u") (codes "p")
unfolding lookup text_beq login_native native_user create_auth_token create_access_token
login_native-Knows_example =
    login_native-Knows with_user (codes "u") (codes "p") jwt 5
      ((5 ∷ 2592005 ∷ 0 ∷ 0 ∷ codes "id"), (5 ∷ 1805 ∷ 1 ∷ 0 ∷ codes "id")) refl refl
