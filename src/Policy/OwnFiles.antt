-- ===== src/Policy/OwnFiles.antt =====
-- The checks ask only whether a file is one of the topology's own, so that the order of the bind
-- files changes no finding.
use antimony_backend.Base.{
  nat_eq, string_eq, Map, ℕ, ◌+◌, String, ◌≡◌, refl, Option, none, some, List, [], ◌∷◌,
}
use antimony_backend.Policy.Text.{Text, text_eq, text_leb, sorted, cut, decimal}
use antimony_backend.Policy.Sorting.{contains_func-sorted}
use antimony_backend.Policy.Rules.{Finding, Options}
use antimony_backend.Policy.Definitions.{Any, sorted_entries, NodeDefinition, Topology}
use antimony_backend.Policy.Checker.{
  Packages, ◌+++◌, for_each, for_index, is_own_file, check_file_reference,
}
use antimony_backend.Policy.Engine.{
  check_optional_file, check_node_definition, check_definitions, check_topology, check_uncached,
}

for_each_cong {ℓ} :
    {A : Type ℓ} (f g : A → List Finding) (xs : List A)
    → ((x : A) → f x ≡ g x)
    → for_each f xs ≡ for_each g xs
unfolding for_each
for_each_cong f g [] h = refl
for_each_cong f g (x ∷ xs) h = rw (h x, for_each_cong f g xs h) refl

for_index_cong {ℓ} :
    {A : Type ℓ} (f g : ℕ → A → List Finding) (i : ℕ) (xs : List A)
    → ((i : ℕ) (x : A) → f i x ≡ g i x)
    → for_index f i xs ≡ for_index g i xs
unfolding for_index
for_index_cong f g i [] h = refl
for_index_cong f g i (x ∷ xs) h = rw (h i x, for_index_cong f g (i + 1) xs h) refl

module _ (lib : Packages) (bind_files : List Text) where
  abbrev in_order : List Text
  in_order = sorted text_leb bind_files

  is_own_file-sorted : (r : Text) → is_own_file in_order r ≡ is_own_file bind_files r
  unfolding is_own_file
  is_own_file-sorted r = rw (contains_func-sorted text_leb _ bind_files) refl

  check_file_reference-sorted :
      (path : String) (r : Text)
      → check_file_reference lib in_order path r ≡ check_file_reference lib bind_files path r
  unfolding check_file_reference
  check_file_reference-sorted path r = rw (is_own_file-sorted _) refl

  check_optional_file-sorted :
      (path : String) (r : Text)
      → check_optional_file lib in_order path r ≡ check_optional_file lib bind_files path r
  unfolding check_optional_file
  check_optional_file-sorted path r = rw (check_file_reference-sorted path r) refl

  check_node_definition-sorted :
      (options : Options) (path : String) (d : Option NodeDefinition)
      → check_node_definition lib options in_order path d
        ≡ check_node_definition lib options bind_files path d
  unfolding check_node_definition
  check_node_definition-sorted options path none = refl
  check_node_definition-sorted options path (some d) =
      rw
        (
          check_optional_file-sorted (path +++ ".startup-config") d.startup_config,
          check_optional_file-sorted (path +++ ".license") d.license,
          check_optional_file-sorted (path +++ ".credentials.identity-file") d.identity_file,
          for_index_cong
              (λ i bind.
                check_file_reference lib in_order (path +++ ".binds[" +++ decimal i +++ "]")
                  (cut 58 bind))
              (λ i bind.
                check_file_reference lib bind_files (path +++ ".binds[" +++ decimal i +++ "]")
                  (cut 58 bind))
              0 d.binds (λ i bind. check_file_reference-sorted _ _),
        )
        refl

  check_definitions-sorted :
      (options : Options) (path : String) (m : Map String (Option NodeDefinition))
      → check_definitions lib options in_order path m
        ≡ check_definitions lib options bind_files path m
  unfolding check_definitions
  check_definitions-sorted options path m =
      for_each_cong _ _ (sorted_entries m) (λ e. check_node_definition-sorted options _ e.1)

  check_topology-sorted :
      (options : Options) (t : Option Topology)
      → check_topology lib options in_order t ≡ check_topology lib options bind_files t
  unfolding check_topology
  check_topology-sorted options none = refl
  check_topology-sorted options (some t) =
      rw
        (
          check_node_definition-sorted options "topology.defaults" t.defaults,
          check_definitions-sorted options "topology.kinds." t.kinds,
          check_definitions-sorted options "topology.groups." t.groups,
          check_definitions-sorted options "topology.nodes." t.nodes,
        )
        refl

  -- The findings of a topology do not depend on the order of its bind files: the check of the
  -- sorted bind files finds the same.
  pub check_uncached-sorted :
      (options : Options) (raw : Any) (t : Option Topology) (definition : Text)
      → check_uncached lib options raw t definition in_order
        ≡ check_uncached lib options raw t definition bind_files
  unfolding check_uncached
  check_uncached-sorted options raw t definition = rw (check_topology-sorted options t) refl
