-- ===== src/Collections/Names.antt =====
-- No two collections have the same name.
use antimony_backend.Base.{
  ◌==◌, nat_eq, string_eq, Bool-cases, Option-cases, All, All-imp, All-append, String, ◌≡◌, sym, ap,
  subst, ◌∙◌, ◌≢◌, inl, inr, Bool, false, some, List, [], ◌∷◌, ◌++◌, arith,
}
use antimony_backend.Entities.{Collection}
use antimony_backend.Auth.{AuthenticatedUser}
use antimony_backend.Errors.Result.{Result-cases, ok}
use antimony_backend.Collections.{
  CollectionIn, CollectionInPartial, Query, Database, find_collection, has_name, save_row, updated,
  or_old, query, check_name, check_new_name, get_collection, get_creator, create_collection,
  update_collection, update_found,
}

unfoldable pub HasDistinctNames : List Collection → Type 0
HasDistinctNames [] = Unit
HasDistinctNames (c ∷ cs) = All (λ d. c.name ≢ d.name) cs × HasDistinctNames cs

has_name-false :
    (name : String) (cs : List Collection) → has_name name cs ≡ false → All (λ d. d.name ≢ name) cs
unfolding has_name
has_name-false name [] h = tt
has_name-false name (c ∷ cs) h =
    let here : (c.name == name) ≡ false = ground (arith, h) in
    let there : has_name name cs ≡ false = ground (arith, h) in
    ((λ e. absurd (cc (here, (string_eq.equal_iff c.name name).1 e))), has_name-false name cs there)

HasDistinctNames-append :
    (c : Collection) (cs : List Collection)
    → All (λ d. d.name ≢ c.name) cs
    → HasDistinctNames cs
    → HasDistinctNames (cs ++ c ∷ [])
unfolding HasDistinctNames
HasDistinctNames-append c [] n h = (tt, tt)
HasDistinctNames-append c (d ∷ ds) n h =
    (All-append _ ds (c ∷ []) h.0 (n.0, tt), HasDistinctNames-append c ds n.1 h.1)

All-save_row :
    (P : Collection → Type 0) (c : Collection) (cs : List Collection)
    → P c
    → All P cs
    → All P (save_row c cs)
unfolding save_row
All-save_row P c [] p h = tt
All-save_row P c (d ∷ ds) p h = elim (Bool-cases (d.uuid == c.uuid)) [
  | inl same ↦ rw (same, save_row) (p, h.1)
  | inr other ↦ rw (other, save_row) (h.0, All-save_row P c ds p h.1)
]

-- A row whose name no row has may take any row's place.
save_row-new_name :
    (c : Collection) (cs : List Collection)
    → All (λ d. d.name ≢ c.name) cs
    → HasDistinctNames cs
    → HasDistinctNames (save_row c cs)
unfolding save_row HasDistinctNames
save_row-new_name c [] n h = tt
save_row-new_name c (d ∷ ds) n h = elim (Bool-cases (d.uuid == c.uuid)) [
  | inl same ↦ rw (same, save_row) (All-imp _ _ ds (λ x differs e. differs (sym e)) n.1, h.1)
  | inr other ↦
      rw (other, save_row)
        (All-save_row (λ x. d.name ≢ x.name) c ds n.0 h.0, save_row-new_name c ds n.1 h.1)
]

All-found :
    (P : Collection → Type 0) (id : String) (c : Collection) (cs : List Collection)
    → find_collection id cs ≡ some c
    → All P cs
    → P c
unfolding find_collection
All-found P id c [] found h = absurd (cc found)
All-found P id c (d ∷ ds) found h = elim (Bool-cases (d.uuid == id)) [
  | inl here ↦ subst P (ground (arith, found, here)) h.0
  | inr other ↦ All-found P id c ds (ground (arith, found, other)) h.1
]

-- The row that is found may be replaced by one of the same name.
save_row-same_name :
    (c old : Collection) (cs : List Collection)
    → find_collection c.uuid cs ≡ some old
    → old.name ≡ c.name
    → HasDistinctNames cs
    → HasDistinctNames (save_row c cs)
unfolding save_row HasDistinctNames find_collection
save_row-same_name c old [] found same h = tt
save_row-same_name c old (d ∷ ds) found same h = elim (Bool-cases (d.uuid == c.uuid)) [
  | inl here ↦
      let first : d ≡ old = ground (arith, found, here) in
      rw (here, save_row) (All-imp _ _ ds (λ x differs e. differs (cc (e, first, same))) h.0, h.1)
  | inr other ↦
      let later : find_collection c.uuid ds ≡ some old = ground (arith, found, other) in
      let apart : d.name ≢ c.name =
        λ e. All-found (λ x. d.name ≢ x.name) c.uuid old ds later h.0 (cc (e, same)) in
      rw (other, save_row)
        (
          All-save_row (λ x. d.name ≢ x.name) c ds apart h.0,
          save_row-same_name c old ds later same h.1,
        )
]

uuid-found :
    (id : String) (c : Collection) (cs : List Collection)
    → find_collection id cs ≡ some c
    → c.uuid ≡ id
unfolding find_collection
uuid-found id c [] found = absurd (cc found)
uuid-found id c (d ∷ ds) found = elim (Bool-cases (d.uuid == id)) [
  | inl here ↦
      let first : d ≡ c = ground (arith, found, here) in
      ap (λ x. x.uuid) (sym first) ∙ (string_eq.equal_iff d.uuid id).0 here
  | inr other ↦ uuid-found id c ds (ground (arith, found, other))
]

module _ (fails : Query → Bool) (db db' : Database) where
  check_name-ok :
      (name : String) (b : Bool)
      → check_name fails db name ≡ ok b
      → has_name name db.collections ≡ false
  unfolding check_name query
  check_name-ok name b h = ground (arith, h)

  -- A `Create` that succeeds keeps the names of the collections distinct.
  pub create_collection-HasDistinctNames :
      (req : CollectionIn) (uuid user_id : String) (user : AuthenticatedUser)
      → HasDistinctNames db.collections
      → create_collection fails db req uuid user_id user ≡ ok db'
      → HasDistinctNames db'.collections
  unfolding create_collection query check_name
  create_collection-HasDistinctNames req uuid user_id user distinct h =
      let free : has_name req.name db.collections ≡ false = ground (arith, h) in
      elim (Result-cases (get_creator fails db user_id)) [
        | inr (error, e) ↦ absurd (ground (arith, h, e))
        | inl (creator, e) ↦
            let row : Collection = record {
              uuid = uuid;
              name = req.name;
              public_write = req.public_write;
              public_deploy = req.public_deploy;
              creator = creator;
            } in
            let after : db' ≡ record db { collections = db.collections ++ row ∷ [] } =
              ground (arith, h, e) in
            rw after (
              HasDistinctNames-append row db.collections
                (has_name-false req.name db.collections free) distinct)
      ]

  update_found-HasDistinctNames :
      (req : CollectionInPartial) (user : AuthenticatedUser) (c : Collection) (id : String)
      → find_collection id db.collections ≡ some c
      → HasDistinctNames db.collections
      → update_found fails db req user c ≡ ok db'
      → HasDistinctNames db'.collections
  unfolding update_found query check_new_name check_name updated
  update_found-HasDistinctNames req user c id found distinct h =
      let after : db' ≡ record db { collections = save_row (updated req c) db.collections } =
        ground (arith, h) in
      elim (Bool-cases (c.name == or_old req.name c.name)) [
        | inl same ↦ rw after (
            save_row-same_name (updated req c) c db.collections
              (ap (λ i. find_collection i db.collections) (uuid-found id c db.collections found)
                ∙ found)
              ((string_eq.equal_iff c.name (or_old req.name c.name)).0 same) distinct)
        | inr changed ↦
            let free : has_name (or_old req.name c.name) db.collections ≡ false =
              ground (arith, h, changed) in
            rw after (
              save_row-new_name (updated req c) db.collections
                (has_name-false (or_old req.name c.name) db.collections free) distinct)
      ]

  -- An `Update` that succeeds keeps the names of the collections distinct.
  pub update_collection-HasDistinctNames :
      (req : CollectionInPartial) (id : String) (user : AuthenticatedUser)
      → HasDistinctNames db.collections
      → update_collection fails db req id user ≡ ok db'
      → HasDistinctNames db'.collections
  unfolding update_collection get_collection query
  update_collection-HasDistinctNames req id user distinct h =
      elim (Option-cases (find_collection id db.collections)) [
        | inl missing ↦ absurd (ground (arith, h, missing))
        | inr (c, found) ↦
            update_found-HasDistinctNames req user c id found distinct (ground (arith, h, found))
      ]
