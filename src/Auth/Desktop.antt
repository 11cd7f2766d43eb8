-- ===== src/Auth/Desktop.antt =====
-- The desktop login never meets a missing user.
use antimony_backend.Base.{
  ◌==◌, nat_eq, string_eq, if◌then◌else◌, Bool-cases, lookup, put, Map, lookup-put, lookup-put_self,
  ℕ, ◌≡◌, refl, sym, ap, ◌∙◌, inl, inr, Bool, true, Option, some, List, [], ◌∷◌, arith,
}
use antimony_backend.Auth.Register
use antimony_backend.Errors.{err_desktop_auth_disabled_error, err_desktop_token_invalid}
use antimony_backend.Auth.{create_access_token}
use antimony_backend.Policy.Text.{Text, text_eq}
use antimony_backend.Errors.Result.{Result, Result-cases, ok, failed}
use antimony_backend.Auth.{
  native_user_id, AuthenticatedUser, AuthConfig, Manager, Jwt, UserInfo, create_manager,
  register_admin, register_native_user, register_test_user, login_desktop, authenticate_with_code,
}

-- The calls that change a manager; one that fails leaves it as it is.
pub data Action : Type 0 where
  registered : Text → Text → Text → List Text → Action
  tested : AuthenticatedUser → Action
  coded : (Text → Option UserInfo) → (Text → Text → Result Text) → Text → Action

unfoldable pub act : Manager → Action → Manager
act m (registered id username password collections) =
    elim (register_native_user m id username password collections) [ ok m' ↦ m' | failed _ ↦ m ]
act m (tested user) = (register_test_user m user).0
act m (coded fetch mapper code) = elim (authenticate_with_code fetch mapper m code) [
  | ok r ↦ r.1
  | failed _ ↦ m
]

unfoldable pub act_all : Manager → List Action → Manager
act_all m [] = m
act_all m (a ∷ actions) = act_all (act m a) actions

IsKnown : Text → Map Text AuthenticatedUser → Type 0
IsKnown id users = (user : AuthenticatedUser) × (lookup id users ≡ some user)

IsKnown-put :
    (id other : Text) (user : AuthenticatedUser) (users : Map Text AuthenticatedUser)
    → IsKnown id users
    → IsKnown id (put other user users)
unfolding IsKnown
IsKnown-put id other user users (u, h) = elim (Bool-cases (other == id)) [
  | inl same ↦ (user, rw (lookup-put, same) refl)
  | inr differs ↦ (u, rw (lookup-put, differs) h)
]

-- Desktop logins are enabled as the configuration says, and then the native user is known.
record HasDesktopUser (c : AuthConfig) (m : Manager) : Type 0 where
  kept : m.config ≡ c
  known : c.desktop_enabled ≡ true → IsKnown native_user_id m.authenticated_users

create_manager-HasDesktopUser :
    (c : AuthConfig) (secret random : Text) (connects : Bool) (m : Manager)
    → create_manager c secret random connects ≡ some m
    → HasDesktopUser c m
unfolding create_manager register_admin IsKnown
create_manager-HasDesktopUser c secret random connects m h = record {
  kept = ground (arith, h);
  known =
      λ on. let (users, e) = users_of on in (admin, e ∙ lookup-put_self native_user_id admin users);
}
  where
    admin : AuthenticatedUser
    admin = record { user_id = native_user_id; is_admin = true; collections = [] }

    users_of :
        c.desktop_enabled ≡ true
        → (users : Map Text AuthenticatedUser) × (lookup native_user_id m.authenticated_users
            ≡ lookup native_user_id (put native_user_id admin users))
    users_of on = (
      if c.admin_enabled then put native_user_id admin [] else [],
      ap (lookup native_user_id) (ground (arith, h, on)),
    )

coded-after :
    (fetch : Text → Option UserInfo) (mapper : Text → Text → Result Text) (m : Manager)
    (code : Text) (r : AuthenticatedUser × Manager)
    → authenticate_with_code fetch mapper m code ≡ ok r
    → r.1 ≡ record m { authenticated_users = put r.0.user_id r.0 m.authenticated_users }
unfolding authenticate_with_code
coded-after fetch mapper m code r e = ground (arith, e)

act-HasDesktopUser :
    (c : AuthConfig) (m : Manager) (a : Action) → HasDesktopUser c m → HasDesktopUser c (act m a)
unfolding act register_test_user
act-HasDesktopUser c m (registered id username password collections) h =
    elim (Result-cases (register_native_user m id username password collections)) [
      | inl (m', e) ↦
          rw (e, act, Register.registered m m' id username password collections e)
            (record {
              kept = h.kept;
              known = λ on. IsKnown-put native_user_id id _ m.authenticated_users (h.known on);
            })
      | inr (error, e) ↦ rw (e, act) h
    ]
act-HasDesktopUser c m (tested user) h = record {
  kept = h.kept;
  known = λ on. IsKnown-put native_user_id user.user_id user m.authenticated_users (h.known on);
}
act-HasDesktopUser c m (coded fetch mapper code) h =
    elim (Result-cases (authenticate_with_code fetch mapper m code)) [
      | inl (r, e) ↦
          rw (e, act, coded-after fetch mapper m code r e)
            (record {
              kept = h.kept;
              known = λ on.
                  IsKnown-put native_user_id r.0.user_id r.0 m.authenticated_users (h.known on);
            })
      | inr (error, e) ↦ rw (e, act) h
    ]

act_all-HasDesktopUser :
    (c : AuthConfig) (m : Manager) (actions : List Action)
    → HasDesktopUser c m
    → HasDesktopUser c (act_all m actions)
unfolding act_all
act_all-HasDesktopUser c m [] h = h
act_all-HasDesktopUser c m (a ∷ actions) h =
    act_all-HasDesktopUser c (act m a) actions (act-HasDesktopUser c m a h)

login_desktop-known :
    (jwt : Jwt) (now : ℕ) (m : Manager) (token : Text)
    → (m.config.desktop_enabled ≡ true → IsKnown native_user_id m.authenticated_users)
    → (r : Result Text) × (login_desktop jwt now m token ≡ some r)
unfolding login_desktop IsKnown
login_desktop-known jwt now m token known = elim (Bool-cases m.config.desktop_enabled) [
  | inr off ↦ (failed err_desktop_auth_disabled_error, rw (off, login_desktop) refl)
  | inl on ↦ elim (Bool-cases (token == m.config.desktop_token)) [
    | inr wrong ↦ (failed err_desktop_token_invalid, rw (wrong, on, login_desktop) refl)
    | inl right ↦
        let (user, found) = known on in
        (create_access_token jwt now m user, rw (found, right, on, login_desktop) refl)
  ]
]

-- After any registrations and OpenID logins on a manager that was created, `LoginDesktop` returns
-- a token or an error: it does not panic.
pub login_desktop-returns :
    (jwt : Jwt) (now : ℕ) (c : AuthConfig) (secret random : Text) (connects : Bool) (m : Manager)
    (actions : List Action) (token : Text)
    → create_manager c secret random connects ≡ some m
    → (r : Result Text) × (login_desktop jwt now (act_all m actions) token ≡ some r)
login_desktop-returns jwt now c secret random connects m actions token h =
    let kept =
      act_all-HasDesktopUser c m actions
        (create_manager-HasDesktopUser c secret random connects m h) in
    login_desktop-known jwt now (act_all m actions) token
      (λ on. kept.known (ap (λ x. x.desktop_enabled) (sym kept.kept) ∙ on))
