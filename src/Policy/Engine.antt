-- ===== src/Policy/Engine.antt =====
-- policy/engine.go, the check of a whole topology, and policy/cache.go: the findings of each
-- topology with the hash of the content they belong to.
use antimony_backend.Base.{
  Eq, ◌==◌, nat_eq, string_eq, if◌then◌else◌, length, lookup, put, delete, Map, ℕ, zero, suc, ◌/◌,
  ◌%◌, String, Bool, true, false, Option, none, some, List, [], ◌∷◌, ◌++◌,
}
use antimony_backend.Policy.Text.{
  Text, text_eq, text_leb, sorted, contains_func, contains, cut, decimal,
}
use antimony_backend.Policy.Rules.{Finding, Options, shell, host_kind, privileged, host_link}
use antimony_backend.Policy.Definitions.{Any, sorted_entries, NodeDefinition, Link, Topology}
use antimony_backend.Policy.Checker.{
  Packages, ◌+++◌, add, for_each, for_index, check_raw_text, host_reaching_kinds,
  host_endpoint_nodes, check_root_keys, normalized, check_image, check_stages, check_file_reference,
}

module _ (lib : Packages) where
  unfoldable pub check_kind : String → Text → List Finding
  check_kind path kind =
      let kind' = normalized lib kind in
      if contains_func host_reaching_kinds (λ k. k == kind')
      then add (path +++ ".kind") host_kind shell (
          "kind "
          +++ lib.quote_text kind'
          +++ " connects the lab to the server or networks outside the lab")
      else []

  unfoldable pub check_privileged : String → Option Bool → List Finding
  check_privileged path none = []
  check_privileged path (some false) = []
  check_privileged path (some true) =
      add (path +++ ".privileged") privileged shell "privileged nodes can access the server"

  -- A file reference that is checked only if it is set.
  unfoldable pub check_optional_file : List Text → String → Text → List Finding
  check_optional_file bind_files path reference =
      if reference == [] then [] else check_file_reference lib bind_files path reference

  unfoldable pub check_node_definition :
      Options → List Text → String → Option NodeDefinition → List Finding
  check_node_definition options bind_files path none = []
  check_node_definition options bind_files path (some d) =
      check_kind path d.kind
      ++ (if d.image == []
          then []
          else check_image lib options.allowed_image_prefixes (path +++ ".image") d.image)
      ++ check_privileged path d.privileged
      ++ for_index
          (λ i bind.
            check_file_reference lib bind_files (path +++ ".binds[" +++ decimal i +++ "]")
              (cut 58 bind))
          0 d.binds
      ++ (if contains d.startup_config (10 ∷ [])
          then []
          else check_optional_file bind_files (path +++ ".startup-config") d.startup_config)
      ++ check_optional_file bind_files (path +++ ".license") d.license
      ++ check_optional_file bind_files (path +++ ".credentials.identity-file") d.identity_file
      ++ check_stages lib (path +++ ".stages") d.stages

  unfoldable pub check_endpoint : String → ℕ → Option Text → List Finding
  check_endpoint path j none = []
  check_endpoint path j (some node) =
      if contains_func host_endpoint_nodes (λ n. n == normalized lib node)
      then add (path +++ ".endpoints[" +++ decimal j +++ "]") host_link shell (
          "endpoint "
          +++ lib.quote_text node
          +++ " connects the lab to the server or networks outside the lab")
      else []

  unfoldable pub check_veth_endpoints : String → Link → List Finding
  check_veth_endpoints path link = elim link.veth_endpoints [
    | none ↦ []
    | some endpoints ↦ for_index (check_endpoint path) 0 endpoints
  ]

  unfoldable pub check_link : String → ℕ → Option Link → List Finding
  check_link path i none = []
  check_link path i (some link) =
      let link_path = path +++ "[" +++ decimal i +++ "]" in
      if link.type == lib.link_type_dummy
      then []
      else if link.type == lib.link_type_veth
      then check_veth_endpoints link_path link
      else add link_path host_link shell (
          "link type "
          +++ lib.quote_text link.type
          +++ " connects the lab to the server or networks outside the lab")

  unfoldable pub check_links : String → List (Option Link) → List Finding
  check_links path links = for_index (check_link path) 0 links

  unfoldable pub check_definitions :
      Options → List Text → String → Map String (Option NodeDefinition) → List Finding
  check_definitions options bind_files path definitions =
      for_each (λ e. check_node_definition options bind_files (path +++ e.0) e.1)
        (sorted_entries definitions)

  unfoldable pub check_topology : Options → List Text → Option Topology → List Finding
  check_topology options bind_files none = []
  check_topology options bind_files (some t) =
      check_node_definition options bind_files "topology.defaults" t.defaults
      ++ check_definitions options bind_files "topology.kinds." t.kinds
      ++ check_definitions options bind_files "topology.groups." t.groups
      ++ check_definitions options bind_files "topology.nodes." t.nodes
      ++ check_links "topology.links" t.links

  -- `check`, which runs every rule.
  unfoldable pub check_uncached : Options → Any → Option Topology → Text → List Text → List Finding
  check_uncached options raw topology definition bind_files =
      check_raw_text definition
      ++ check_root_keys lib raw
      ++ check_topology options bind_files topology

-- `binary.BigEndian.AppendUint64`, without its upper bytes if fewer are asked for.
unfoldable pub big_endian : ℕ → ℕ → Text
big_endian zero n = []
big_endian (suc k) n = big_endian k (n / 256) ++ n % 256 ∷ []

-- `writeField`, and what `hashInput` writes.
unfoldable pub write_field : Text → Text
write_field value = big_endian 8 (length value) ++ value

unfoldable pub write_fields : List Text → Text
write_fields [] = []
write_fields (f ∷ fs) = write_field f ++ write_fields fs

unfoldable pub hash_stream : Text → List Text → Text
hash_stream definition bind_files =
    write_field definition ++ write_fields (sorted text_leb bind_files)

pub record CacheEntry (H : Type 0) : Type 0 where
  pub hash : H
  pub findings : List Finding

pub record Engine (H : Type 0) : Type 0 where
  pub options : Options
  pub cache : Map String (CacheEntry H)

module _ {H : Type 0} ⦃hash_eq : Eq H⦄ (sum : Text → H) where
  unfoldable pub get : Map String (CacheEntry H) → String → H → Option (List Finding)
  get entries topology_id content_hash = elim (lookup topology_id entries) [
    | none ↦ none
    | some entry ↦ if entry.hash == content_hash then some entry.findings else none
  ]

  unfoldable pub create_engine : Options → Engine H
  create_engine options = record { options = options; cache = [] }

  unfoldable pub check :
      Packages
      → Engine H
      → String
      → Any
      → Option Topology
      → Text
      → List Text
      → List Finding × Engine H
  check lib e topology_id raw topology definition bind_files =
      let input_hash = sum (hash_stream definition bind_files) in
      elim (get e.cache topology_id input_hash) [
        | some findings ↦ (findings, e)
        | none ↦
            let findings = check_uncached lib e.options raw topology definition bind_files in
            (
              findings,
              record e {
                cache = put topology_id (record { hash = input_hash; findings = findings }) e.cache;
              },
            )
      ]

  unfoldable pub forget : Engine H → String → Engine H
  forget e topology_id = record e { cache = delete topology_id e.cache }
