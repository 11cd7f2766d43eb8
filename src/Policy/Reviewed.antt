-- ===== src/Policy/Reviewed.antt =====
-- The policy fails closed: a topology without findings has only reviewed keys.
use antimony_backend.Base.{
  ◌==◌, nat_eq, string_eq, Bool-cases, Option-cases, All, All-imp, lookup, Map, String, ◌≡◌, refl,
  ◌≢◌, ◌⊎◌, inl, inr, true, false, ◌||◌, some, List, [], ◌∷◌, ◌++◌, arith,
}
use antimony_backend.Policy.Sorting.{All-of_sorted}
use antimony_backend.Policy.Rules.{Finding}
use antimony_backend.Policy.Fields.{allowed, denied, node_fields}
use antimony_backend.Policy.Definitions.{Any, as_map, sorted_entries}
use antimony_backend.Policy.Checker.{
  Packages, ◌+++◌, add, for_each, unknown, check_node_key, check_node_keys, check_section,
  check_topology_keys, check_root_key, check_root_keys,
}

pub append-empty : (xs ys : List Finding) → xs ++ ys ≡ [] → (xs ≡ []) × (ys ≡ [])
append-empty [] ys h = (refl, h)
append-empty (x ∷ xs) ys h = absurd (cc h)

pub for_each-empty {ℓ} :
    {A : Type ℓ} (f : A → List Finding) (xs : List A) → for_each f xs ≡ [] → All (λ x. f x ≡ []) xs
unfolding for_each
for_each-empty f [] h = tt
for_each-empty f (x ∷ xs) h =
    let (here, there) = append-empty (f x) (for_each f xs) h in (here, for_each-empty f xs there)

-- Every key of a node is on the allowlist and not denied.
pub IsReviewedNode : Any → Type 0
IsReviewedNode v = All (λ e. lookup e.0 node_fields ≡ some allowed) (as_map v)

pub IsReviewedSection : String → Any → Type 0
IsReviewedSection section v =
    ((section ≡ "defaults") × IsReviewedNode v)
    ⊎ (((section ≡ "kinds") ⊎ (section ≡ "groups") ⊎ (section ≡ "nodes"))
        × All (λ e. IsReviewedNode e.1) (as_map v))
    ⊎ (section ≡ "links")

pub IsReviewedKey : String → Any → Type 0
IsReviewedKey key v =
    (key ≡ "name")
    ⊎ (key ≡ "debug")
    ⊎ ((key ≡ "topology") × All (λ e. IsReviewedSection e.0 e.1) (as_map v))

module _ (lib : Packages) where
  -- A loop over the sorted entries of a map that adds nothing adds nothing for any entry.
  for_entries-empty :
      (f : String × Any → List Finding) (m : Map String Any)
      → for_each f (sorted_entries m) ≡ []
      → All (λ e. f e ≡ []) m
  unfolding sorted_entries
  for_entries-empty f m h = All-of_sorted _ _ m (for_each-empty f (sorted_entries m) h)

  check_node_key-empty :
      (path key : String) → check_node_key lib path key ≡ [] → lookup key node_fields ≡ some allowed
  unfolding check_node_key unknown add
  check_node_key-empty path key h = elim (Option-cases (lookup key node_fields)) [
    | inl missing ↦ absurd (cc (rw (missing, check_node_key) at h))
    | inr (allowed, found) ↦ found
    | inr (denied rule_id impact message, found) ↦ absurd (cc (rw (found, check_node_key) at h))
  ]

  check_node_keys-empty :
      (path : String) (v : Any) → check_node_keys lib path v ≡ [] → IsReviewedNode v
  unfolding check_node_keys IsReviewedNode
  check_node_keys-empty path v h =
      All-imp _ _ (as_map v) (λ e. check_node_key-empty path e.0)
        (for_entries-empty (λ e. check_node_key lib path e.0) (as_map v) h)

  is : (a b : String) → (a == b) ≡ true → a ≡ b
  is a b h = (string_eq.equal_iff a b).0 h

  one_of :
      (s : String)
      → (s == "kinds" || s == "groups" || s == "nodes") ≡ true
      → (s ≡ "kinds") ⊎ (s ≡ "groups") ⊎ (s ≡ "nodes")
  one_of s h = ground (arith, is s "kinds", is s "groups", is s "nodes")

  check_names-empty :
      (path : String) (v : Any)
      → for_each (λ e. check_node_keys lib (path +++ "." +++ e.0) e.1) (sorted_entries (as_map v))
        ≡ []
      → All (λ e. IsReviewedNode e.1) (as_map v)
  check_names-empty path v h =
      All-imp _ _ (as_map v) (λ e. check_node_keys-empty (path +++ "." +++ e.0) e.1)
        (for_entries-empty (λ e. check_node_keys lib (path +++ "." +++ e.0) e.1) (as_map v) h)

  check_section-empty :
      (section : String) (v : Any) → check_section lib section v ≡ [] → IsReviewedSection section v
  unfolding check_section IsReviewedSection unknown add
  check_section-empty section v h = elim (Bool-cases (section == "defaults")) [
    | inl is_defaults ↦ inl (
      is section "defaults" is_defaults,
      check_node_keys-empty ("topology." +++ section) v (rw (is_defaults, check_section) at h),
    )
    | inr not_defaults ↦
        elim (Bool-cases (section == "kinds" || section == "groups" || section == "nodes")) [
          | inl is_kinds ↦ inr (
              inl (
                one_of section is_kinds,
                check_names-empty ("topology." +++ section) v
                    (rw (not_defaults, is_kinds, check_section) at h),
              ))
          | inr not_kinds ↦ elim (Bool-cases (section == "links")) [
            | inl is_links ↦ inr (inr (is section "links" is_links))
            | inr not_links ↦
                absurd (cc (rw (not_defaults, not_kinds, not_links, check_section) at h))
          ]
        ]
  ]

  check_topology_keys-empty :
      (v : Any) → check_topology_keys lib v ≡ [] → All (λ e. IsReviewedSection e.0 e.1) (as_map v)
  unfolding check_topology_keys
  check_topology_keys-empty v h =
      All-imp _ _ (as_map v) (λ e. check_section-empty e.0 e.1)
        (for_entries-empty (λ e. check_section lib e.0 e.1) (as_map v) h)

  not_empty :
      (key : String) (v : Any)
      → (key == "name" || key == "debug") ≡ false
      → (key == "topology") ≡ false
      → check_root_key lib key v ≢ []
  unfolding check_root_key unknown add
  not_empty key v unnamed other h =
      let left = rw (unnamed, other, check_root_key) at h in ground (arith, left)

  check_root_key-empty :
      (key : String) (v : Any) → check_root_key lib key v ≡ [] → IsReviewedKey key v
  unfolding check_root_key IsReviewedKey
  check_root_key-empty key v h = elim (Bool-cases (key == "name" || key == "debug")) [
    | inl known ↦ ground (arith, is key "name", is key "debug", known)
    | inr unnamed ↦ elim (Bool-cases (key == "topology")) [
      | inl is_topology ↦ inr (
          inr (
            is key "topology" is_topology,
            check_topology_keys-empty v (rw (unnamed, is_topology, check_root_key) at h),
          ))
      | inr other ↦ absurd (not_empty key v unnamed other h)
    ]
  ]

  -- If the check of the keys finds nothing, every top-level key is `name`, `debug` or `topology`,
  -- every key of the topology is a known section, and every key of a node definition in it is on
  -- the allowlist and not denied.
  pub check_root_keys-reviewed :
      (raw : Any) → check_root_keys lib raw ≡ [] → All (λ e. IsReviewedKey e.0 e.1) (as_map raw)
  unfolding check_root_keys
  check_root_keys-reviewed raw h =
      All-imp _ _ (as_map raw) (λ e. check_root_key-empty e.0 e.1)
        (for_entries-empty (λ e. check_root_key lib e.0 e.1) (as_map raw) h)
