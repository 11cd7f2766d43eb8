-- ===== src/Auth/Register.antt =====
-- What the registration of a native user changes: that user, and no other login.
use antimony_backend.Base.{
  ◌==◌, nat_eq, string_eq, ==_refl, Bool-cases, lookup, put, lookup-put_self, lookup-put_ne, ◌≡◌,
  refl, sym, ◌≢◌, inl, inr, false, some, List, arith,
}
use antimony_backend.Policy.Text.{Text, text_eq}
use antimony_backend.Errors.Result.{ok}
use antimony_backend.Auth.{
  AuthenticatedUser, NativeTestingAccount, Manager, register_native_user, native_user,
}

module _ (m m' : Manager) (id username password : Text) (collections : List Text)
    (registers : register_native_user m id username password collections ≡ ok m') where
  abbrev pub account : NativeTestingAccount
  account = record { password = password; user_id = id }

  abbrev pub user : AuthenticatedUser
  user = record { user_id = id; is_admin = false; collections = collections }

  abbrev pub after : Manager
  after = record m {
    native_testing_accounts = put username account m.native_testing_accounts;
    authenticated_users = put id user m.authenticated_users;
  }

  not_admin : (username == m.config.admin_username) ≡ false
  unfolding register_native_user
  not_admin = elim (Bool-cases (username == m.config.admin_username)) [
    | inl same ↦ ground (arith, registers, same)
    | inr differs ↦ differs
  ]

  pub registered : m' ≡ after
  unfolding register_native_user
  registered = ground (arith, registers)

  native_user-after : native_user after username password ≡ id
  unfolding native_user
  native_user-after =
      rw (not_admin, lookup-put_self username account m.native_testing_accounts, ==_refl password)
        refl

  native_user-after_ne :
      (name other : Text)
      → name ≢ username
      → native_user after name other ≡ native_user m name other
  unfolding native_user
  native_user-after_ne name other h =
      rw (lookup-put_ne username name account m.native_testing_accounts (λ e. h (sym e))) refl

  -- After a registration that succeeds the new credentials find the new user, who is no
  -- administrator and has the given collections; for every other name a native login finds the
  -- same user as before, with the same rights if that user's ID is not the new one.
  pub register_native_user-native_user :
      (native_user m' username password ≡ id)
      × (lookup id m'.authenticated_users ≡ some user)
      × ((name other : Text)
          → name ≢ username
          → (native_user m' name other ≡ native_user m name other)
            × (native_user m name other ≢ id
                → lookup (native_user m' name other) m'.authenticated_users
                  ≡ lookup (native_user m name other) m.authenticated_users))
  register_native_user-native_user = rw registered (
    native_user-after,
    lookup-put_self id user m.authenticated_users,
    λ name other differs. (
      native_user-after_ne name other differs,
      λ elsewhere. rw (native_user-after_ne name other differs) (
          lookup-put_ne id (native_user m name other) user m.authenticated_users
            (λ e. elsewhere (sym e))),
    ),
  )
