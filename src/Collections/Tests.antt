-- ===== src/Collections/Tests.antt =====
-- Two collections of two users.
use antimony_backend.Base.{
  nat_eq, string_eq, String, ◌≡◌, refl, ◌⊎◌, Bool, true, false, Option, none, some, [], ◌∷◌,
}
use antimony_backend.Entities.{User, Collection}
use antimony_backend.Auth.{AuthenticatedUser}
use antimony_backend.Policy.Text.{codes, text_eq, text_beq}
use antimony_backend.Errors.{
  Error, err_no_write_access_to_collection, err_no_permission_to_create_collections,
}
use antimony_backend.Errors.Result.{ok, failed}
use antimony_backend.Collections.{
  CollectionIn, CollectionInPartial, Query, Database, find_collection, find_user, has_name,
  save_row, drop_row, or_old, updated, may_write, query, get_collection, get_creator, check_name,
  check_new_name, create_collection, update_found, update_collection, delete_row_of, and_then,
  delete_collection,
}
use antimony_backend.Collections.Names.{
  HasDistinctNames, create_collection-HasDistinctNames, update_collection-HasDistinctNames,
}
use antimony_backend.Collections.Access.{may_write-refused, delete_collection-removes}

abbrev works : Query → Bool
works q = false

abbrev owner : User
owner = record { uuid = "u"; sub = "u"; name = "u" }

abbrev shelf : String → String → Collection
shelf id title = record {
  uuid = id;
  name = title;
  public_write = false;
  public_deploy = false;
  creator = owner;
}

abbrev one : Database
one = record { collections = shelf "1" "a" ∷ []; users = owner ∷ [] }

abbrev two : Database
two = record { collections = shelf "1" "a" ∷ shelf "2" "b" ∷ []; users = owner ∷ [] }

abbrev renamed : Database
renamed = record { collections = shelf "1" "c" ∷ shelf "2" "b" ∷ []; users = owner ∷ [] }

abbrev admin : AuthenticatedUser
admin = record { user_id = codes "v"; collections = []; is_admin = true }

abbrev stranger : AuthenticatedUser
stranger = record { user_id = codes "w"; collections = []; is_admin = false }

abbrev request : CollectionIn
request = record { name = "b"; public_write = false; public_deploy = false }

abbrev rename : CollectionInPartial
rename = record { name = some "c"; public_write = none; public_deploy = none }

abbrev nothing_left : String → Database → Option Error × Database
nothing_left id db = (none, db)

one-HasDistinctNames : HasDistinctNames one.collections
unfolding HasDistinctNames
one-HasDistinctNames = (tt, tt)

create_collection-HasDistinctNames_example : HasDistinctNames two.collections
unfolding create_collection check_name get_creator query has_name find_user
create_collection-HasDistinctNames_example =
    create_collection-HasDistinctNames works one two request "2" "u" admin one-HasDistinctNames refl

update_collection-HasDistinctNames_example : HasDistinctNames renamed.collections
unfolding update_collection update_found check_new_name check_name get_collection query has_name
    find_collection save_row updated or_old may_write
update_collection-HasDistinctNames_example =
    update_collection-HasDistinctNames works two renamed rename "1" admin
      create_collection-HasDistinctNames_example refl

may_write-refused_example :
    (update_collection works two rename "1" stranger ≡ failed err_no_write_access_to_collection)
    × (delete_collection works nothing_left nothing_left two "1" stranger
        ≡ (some err_no_write_access_to_collection, two))
    × (create_collection works two request "3" "w" stranger
        ≡ failed err_no_permission_to_create_collections)
unfolding get_collection query find_collection may_write text_beq
may_write-refused_example =
    may_write-refused works nothing_left nothing_left two stranger "1" (shelf "1" "a") request
      rename "3" "w" refl refl
      λ e.
        let same : false ≡ true = (text_eq.equal_iff (codes "w") (codes "u")).1 e in
        absurd (cc same)

delete_collection-removes_example :
    (c : Collection) × (db₁ db₂ : Database) × (get_collection works two "2" ≡ ok c)
    × ((admin.is_admin ≡ true) ⊎ (admin.user_id ≡ codes c.creator.uuid))
    × (nothing_left "2" two ≡ (none, db₁))
    × (nothing_left "2" db₁ ≡ (none, db₂))
    × (one ≡ record db₂ { collections = drop_row "2" db₂.collections })
unfolding delete_collection get_collection query find_collection may_write and_then delete_row_of
    drop_row
delete_collection-removes_example =
    delete_collection-removes works nothing_left nothing_left two admin "2" one refl
