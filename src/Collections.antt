-- ===== src/Collections.antt =====
-- domain/collection/service.go and domain/collection/repository.go: the collections and who may
-- change them. The database is a parameter: `fails` says which queries it refuses, and a query
-- that it answers reads or writes the rows of its table. A deleted row, which gorm only marks, is
-- left out. The ID of a user is compared as the list of its bytes.
pub mod Names
pub mod Access
pub mod Tests
use antimony_backend.Base.{
  Eq, ◌==◌, nat_eq, string_eq, ==_refl, ltb, leb, nat_beq, if◌then◌else◌, ltb→lt, leb→le, ltb-of_lt,
  ltb-of_le, nat_beq_iff, Bool-cases, Option-cases, length, get_elem?, take, drop, replicate, store,
  length-append, length-take, length-drop, length-replicate, take-append-drop, take_all, drop_all,
  drop-append, drop-drop, get_elem?-some, Stores, store-some, All, In, All-In, All-of_In, All-imp,
  All-append, In-append_left, In-append_right, lookup, put, delete, Map, lookup-put, lookup-delete,
  lookup-put_self, lookup-put_ne, lookup-delete_self, lookup-delete_ne, lookup-put-some,
  lookup-delete-some, ℕ, zero, suc, ◌+◌, ◌-◌, ◌*◌, ◌/◌, ◌%◌, ◌^◌, ◌≤◌, ◌<◌, min, String, ◌≡◌, refl,
  sym, ap, subst, ◌∙◌, ◌≢◌, ◌↔◌, ◌⊎◌, inl, inr, Bool, true, false, not, ◌&&◌, ◌||◌, Option, none,
  some, List, [], ◌∷◌, ◌++◌, map, append-nil, append_assoc, arith,
}
use antimony_backend.Entities.{User, Collection}
use antimony_backend.Auth.{AuthenticatedUser}
use antimony_backend.Policy.Text.{codes, text_eq, contains_func}
use antimony_backend.Errors.{
  Error, err_database_error, err_uuid_not_found, err_collection_exists,
  err_no_write_access_to_collection, err_no_permission_to_create_collections,
}
use antimony_backend.Errors.Result.{Result, ok, failed, ◌>>=◌}

pub record CollectionIn : Type 0 where
  pub name : String
  pub public_write : Bool
  pub public_deploy : Bool

pub record CollectionInPartial : Type 0 where
  pub name : Option String
  pub public_write : Option Bool
  pub public_deploy : Option Bool

pub data Query : Type 0 where
  get_by_uuid does_name_exist create_row update_row delete_row get_user : Query

pub record Database : Type 0 where
  pub collections : List Collection
  pub users : List User

unfoldable pub find_collection : String → List Collection → Option Collection
find_collection id [] = none
find_collection id (c ∷ cs) = if c.uuid == id then some c else find_collection id cs

unfoldable pub find_user : String → List User → Option User
find_user id [] = none
find_user id (u ∷ us) = if u.uuid == id then some u else find_user id us

unfoldable pub has_name : String → List Collection → Bool
has_name name [] = false
has_name name (c ∷ cs) = c.name == name || has_name name cs

-- `Save` of a row that was read before.
unfoldable pub save_row : Collection → List Collection → List Collection
save_row c [] = []
save_row c (d ∷ ds) = let rest = save_row c ds in if d.uuid == c.uuid then c ∷ ds else d ∷ rest

unfoldable pub drop_row : String → List Collection → List Collection
drop_row id [] = []
drop_row id (c ∷ cs) = let rest = drop_row id cs in if c.uuid == id then cs else c ∷ rest

unfoldable pub or_old {ℓ} : {A : Type ℓ} → Option A → A → A
or_old none a = a
or_old (some b) a = b

-- The user owns the collection or is an administrator.
unfoldable pub may_write : AuthenticatedUser → Collection → Bool
may_write user c = user.is_admin || user.user_id == codes c.creator.uuid

unfoldable pub updated : CollectionInPartial → Collection → Collection
updated req c = record c {
  name = or_old req.name c.name;
  public_write = or_old req.public_write c.public_write;
  public_deploy = or_old req.public_deploy c.public_deploy;
}

module _ (fails : Query → Bool) where
  unfoldable pub query {ℓ} : {A : Type ℓ} → Query → A → Result A
  query q a = if fails q then failed err_database_error else ok a

  unfoldable pub get_collection : Database → String → Result Collection
  get_collection db id = do
    row ← query get_by_uuid (find_collection id db.collections)
    elim row [ none ↦ failed err_uuid_not_found | some c ↦ ok c ]

  unfoldable pub get_creator : Database → String → Result User
  get_creator db id = do
    row ← query get_user (find_user id db.users)
    elim row [ none ↦ failed err_uuid_not_found | some u ↦ ok u ]

  -- An error if a collection of the name exists.
  unfoldable pub check_name : Database → String → Result Bool
  check_name db name = do
    exists ← query does_name_exist (has_name name db.collections)
    if exists then failed err_collection_exists else ok true

  -- `Create`, with the new UUID and the ID of the user as a row holds it.
  unfoldable pub create_collection :
      Database → CollectionIn → String → String → AuthenticatedUser → Result Database
  create_collection db req new_uuid user_id user =
      if not user.is_admin then failed err_no_permission_to_create_collections else (do
        _ ← check_name db req.name
        creator ← get_creator db user_id
        query create_row (record db {
          collections =
              db.collections
              ++ record {
                uuid = new_uuid;
                name = req.name;
                public_write = req.public_write;
                public_deploy = req.public_deploy;
                creator = creator;
              }
                ∷ [];
        }))

  -- The name is checked only if it changes.
  unfoldable pub check_new_name : Database → CollectionInPartial → Collection → Result Bool
  check_new_name db req c =
      let name = or_old req.name c.name in if c.name == name then ok true else check_name db name

  -- `Update` of the collection that was found.
  unfoldable pub update_found :
      Database → CollectionInPartial → AuthenticatedUser → Collection → Result Database
  update_found db req user c =
      if not (may_write user c) then failed err_no_write_access_to_collection else (do
        _ ← check_new_name db req c
        query update_row (record db { collections = save_row (updated req c) db.collections }))

  unfoldable pub update_collection :
      Database → CollectionInPartial → String → AuthenticatedUser → Result Database
  update_collection db req id user = do c ← get_collection db id; update_found db req user c

  -- `Delete`: the labs and then the topologies of the collection are removed by their services,
  -- which answer with an error or with none and may have changed the database in both cases.
  unfoldable pub delete_row_of : String → Database → Option Error × Database
  delete_row_of id db =
      if fails delete_row
      then (some err_database_error, db)
      else (none, record db { collections = drop_row id db.collections })

  -- The second step is run only if the first has no error.
  unfoldable pub and_then :
      Option Error × Database → (Database → Option Error × Database) → Option Error × Database
  and_then (some e, db) f = (some e, db)
  and_then (none, db) f = f db

  unfoldable pub delete_collection :
      (String → Database → Option Error × Database)
      → (String → Database → Option Error × Database)
      → Database
      → String
      → AuthenticatedUser
      → Option Error × Database
  delete_collection remove_labs remove_topologies db id user = elim (get_collection db id) [
    | failed e ↦ (some e, db)
    | ok c ↦
        if not (may_write user c)
        then (some err_no_write_access_to_collection, db)
        else and_then (and_then (remove_labs id db) (remove_topologies id)) (delete_row_of id)
  ]
