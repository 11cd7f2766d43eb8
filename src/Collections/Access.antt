-- ===== src/Collections/Access.antt =====
-- Who may change a collection, and what its deletion has done when it succeeds.
use antimony_backend.Base.{
  nat_eq, string_eq, Bool-cases, String, ◌≡◌, refl, sym, ap, ◌∙◌, ◌≢◌, ◌↔◌, ◌⊎◌, inl, inr, Bool,
  true, false, Option, none, some, arith,
}
use antimony_backend.Entities.{Collection}
use antimony_backend.Policy.Text.{codes, text_eq}
use antimony_backend.Auth.{AuthenticatedUser}
use antimony_backend.Errors.{
  Error, err_no_write_access_to_collection, err_no_permission_to_create_collections,
}
use antimony_backend.Errors.Result.{Result-cases, ok, failed}
use antimony_backend.Collections.{
  CollectionIn, CollectionInPartial, Query, Database, drop_row, may_write, get_collection,
  create_collection, update_found, update_collection, delete_row_of, and_then, delete_collection,
}

and_then-none :
    (fails : Query → Bool) (r : Option Error × Database) (f : Database → Option Error × Database)
    (db' : Database)
    → and_then fails r f ≡ (none, db')
    → (r.0 ≡ none) × (f r.1 ≡ (none, db'))
unfolding and_then
and_then-none fails (some e, db) f db' h = absurd (cc (ap (λ x. x.0) h))
and_then-none fails (none, db) f db' h = (refl, h)

pair : {r : Option Error × Database} → r.0 ≡ none → r ≡ (none, r.1)
pair {r} h = ap (λ e. (e, r.1)) h

delete_row_of-none :
    (fails : Query → Bool) (id : String) (db db' : Database)
    → delete_row_of fails id db ≡ (none, db')
    → db' ≡ record db { collections = drop_row id db.collections }
unfolding delete_row_of
delete_row_of-none fails id db db' h = ground (arith, h)

module _ (fails : Query → Bool)
    (remove_labs remove_topologies : String → Database → Option Error × Database) (db : Database)
    (user : AuthenticatedUser) (id : String) where
  may_write_iff :
      (c : Collection)
      → (may_write user c ≡ true) ↔ ((user.is_admin ≡ true) ⊎ (user.user_id ≡ codes c.creator.uuid))
  unfolding may_write
  may_write_iff c =
      let creator = text_eq.equal_iff user.user_id (codes c.creator.uuid) in
      elim (Bool-cases user.is_admin) [
        | inl admin ↦ rw (admin, may_write) ((λ e. inl refl), (λ m. refl))
        | inr ordinary ↦
            rw (ordinary, may_write)
              (
                (λ e. inr (creator.0 e)),
                (λ m. elim m [ inl e ↦ absurd (cc e) | inr e ↦ creator.1 e ]),
              )
      ]

  may_write-stranger :
      (c : Collection)
      → user.is_admin ≡ false
      → user.user_id ≢ codes c.creator.uuid
      → may_write user c ≡ false
  may_write-stranger c ordinary other = elim (Bool-cases (may_write user c)) [
    | inr refused ↦ refused
    | inl allowed ↦ elim ((may_write_iff c).0 allowed) [
      | inl admin ↦ absurd (cc (sym admin ∙ ordinary))
      | inr creator ↦ absurd (other creator)
    ]
  ]

  -- A user who is neither the creator of a collection nor an administrator is refused by
  -- `Update` and `Delete`, and by `Create` too; the database stays as it is.
  pub may_write-refused :
      (c : Collection) (new : CollectionIn) (req : CollectionInPartial) (uuid user_id : String)
      → get_collection fails db id ≡ ok c
      → user.is_admin ≡ false
      → user.user_id ≢ codes c.creator.uuid
      → (update_collection fails db req id user ≡ failed err_no_write_access_to_collection)
        × (delete_collection fails remove_labs remove_topologies db id user
            ≡ (some err_no_write_access_to_collection, db))
        × (create_collection fails db new uuid user_id user
            ≡ failed err_no_permission_to_create_collections)
  unfolding update_collection update_found delete_collection create_collection
  may_write-refused c new req uuid user_id found ordinary other =
      let refused = may_write-stranger c ordinary other in
      (
        ground (arith, found, refused),
        ground (arith, found, refused),
        rw (ordinary, create_collection) refl,
      )

  -- If `Delete` reports no error, the user is an administrator or the creator of the collection,
  -- its labs were removed first and its topologies then, both without an error, and the row of the
  -- collection was dropped after that.
  pub delete_collection-removes :
      (db' : Database)
      → delete_collection fails remove_labs remove_topologies db id user ≡ (none, db')
      → (c : Collection) × (db₁ db₂ : Database) × (get_collection fails db id ≡ ok c)
        × ((user.is_admin ≡ true) ⊎ (user.user_id ≡ codes c.creator.uuid))
        × (remove_labs id db ≡ (none, db₁))
        × (remove_topologies id db₁ ≡ (none, db₂))
        × (db' ≡ record db₂ { collections = drop_row id db₂.collections })
  unfolding delete_collection and_then delete_row_of
  delete_collection-removes db' h = elim (Result-cases (get_collection fails db id)) [
    | inr (e, missing) ↦ absurd (ground (arith, h, missing))
    | inl (c, found) ↦ elim (Bool-cases (may_write user c)) [
      | inr refused ↦ absurd (ground (arith, h, found, refused))
      | inl allowed ↦
          let steps : and_then fails (and_then fails (remove_labs id db) (remove_topologies id))
                (delete_row_of fails id)
              ≡ (none, db') =
            ground (arith, h, found, allowed) in
          let (first, dropped) = and_then-none fails _ (delete_row_of fails id) db' steps in
          let (labs, topologies) =
            and_then-none fails (remove_labs id db) (remove_topologies id) _ (pair first) in
          (
            c,
            (remove_labs id db).1,
            (and_then fails (remove_labs id db) (remove_topologies id)).1,
            found,
            (may_write_iff c).0 allowed,
            pair labs,
            topologies,
            delete_row_of-none fails id _ db' dropped,
          )
    ]
  ]
