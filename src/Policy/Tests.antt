-- ===== src/Policy/Tests.antt =====
-- A topology with a node that mounts a bind file of its own and one of the server.
use antimony_backend.Base.{
  nat_eq, string_eq, All, lookup, ◌≡◌, refl, ◌≢◌, true, false, Option, none, some, List, [], ◌∷◌,
  arith,
}
use antimony_backend.Policy.Text.{
  Text, codes, text_beq, text_eq, text_leb, sorted, insert_sorted, contains_func, has_prefix,
}
use antimony_backend.Policy.Paths.{
  clean, is_local, is_abs, split_onto, clean_part, clean_parts, join, join_onto,
}
use antimony_backend.Policy.Rules.{Options}
use antimony_backend.Policy.Definitions.{
  Any, mapping, other, no_fields, field, NodeDefinition, Topology, entries, as_map, sorted_entries,
  key_leb,
}
use antimony_backend.Policy.Checker.{
  Packages, for_each, is_own_file, check_root_keys, check_root_key, check_topology_keys,
  check_section, check_node_keys, check_node_key,
}
use antimony_backend.Policy.Engine.{hash_stream, create_engine, check_uncached}
use antimony_backend.Policy.Stream.{hash_stream-injective}
use antimony_backend.Policy.OwnFiles.{check_uncached-sorted}
use antimony_backend.Policy.Caching.{checked, forgotten, answer, serve_all, answer-eq-uncached}
use antimony_backend.Policy.Contained.{
  IsOwnReference, reaching_kinds, check_node_definition-contained,
}
use antimony_backend.Policy.Engine.{
  check_node_definition, check_kind, check_privileged, check_optional_file,
}
use antimony_backend.Policy.Checker.{
  check_file_reference, for_index, check_image, check_stages, normalized,
}
use antimony_backend.Policy.Text.{
  contains_func, contains, cut, trim_space, trim_left, leading, reverse_onto, is_ascii, lower_ascii,
  to_lower, has_prefix,
}
use antimony_backend.Policy.Reviewed.{IsReviewedKey, check_root_keys-reviewed}

abbrev packages : Packages
packages = record {
  quote = λ s. s;
  quote_text = λ s. "";
  lower_unicode = λ s. s;
  link_type_dummy = codes "dummy";
  link_type_veth = codes "veth";
  command_target_container = codes "container";
}

abbrev every_image : Options
every_image = record { allowed_image_prefixes = [] }

abbrev files : List Text
files = codes "b/x" ∷ codes "a" ∷ []

abbrev node : NodeDefinition
node = record {
  kind = codes "linux";
  image = codes "alpine";
  privileged = some true;
  binds = codes "a:/a" ∷ codes "../c:/c" ∷ [];
  startup_config = [];
  license = [];
  identity_file = [];
  stages = none;
}

abbrev topology : Topology
topology = record {
  defaults = none;
  kinds = [];
  groups = [];
  nodes = ("n", some node) ∷ [];
  links = [];
}

abbrev raw : Any
raw = mapping (
    field "topology"
      (mapping (
        field "nodes"
          (mapping
            (field "n" (mapping (field "image" other (field "binds" other no_fields))) no_fields))
          no_fields))
      (field "name" other no_fields))

abbrev parse : Text → Any × Option Topology
parse d = (raw, some topology)

own : is_own_file files (codes "./a") ≡ true
unfolding is_own_file clean is_local is_abs split_onto clean_part clean_parts join join_onto
    text_beq contains_func has_prefix
own = refl

own_directory : is_own_file files (codes "x/../b") ≡ true
unfolding is_own_file clean is_local is_abs split_onto clean_part clean_parts join join_onto
    text_beq contains_func has_prefix
own_directory = refl

escaping : is_own_file files (codes "a/../../a") ≡ false
unfolding is_own_file clean is_local is_abs split_onto clean_part clean_parts join join_onto
    text_beq contains_func has_prefix
escaping = refl

no_unknown_key : check_root_keys packages raw ≡ []
unfolding check_root_keys check_root_key check_topology_keys check_section check_node_keys
    check_node_key for_each sorted_entries as_map entries sorted insert_sorted key_leb lookup
no_unknown_key = refl

check_uncached-sorted_example :
    check_uncached packages every_image raw (some topology) (codes "d") (sorted text_leb files)
    ≡ check_uncached packages every_image raw (some topology) (codes "d") files
check_uncached-sorted_example =
    check_uncached-sorted packages files every_image raw (some topology) (codes "d")

hash_stream-injective_example :
    (codes "d" ≡ codes "d")
    × (sorted text_leb files ≡ sorted text_leb (codes "a" ∷ codes "b/x" ∷ []))
unfolding hash_stream sorted insert_sorted text_leb
hash_stream-injective_example =
    hash_stream-injective (codes "d") (codes "d") files (codes "a" ∷ codes "b/x" ∷ [])
      (ground arith) (ground arith) refl

check_root_keys-reviewed_example : All (λ e. IsReviewedKey e.0 e.1) (as_map raw)
check_root_keys-reviewed_example = check_root_keys-reviewed packages raw no_unknown_key

answer-eq-uncached_example :
    (answer
      (λ s. s)
      packages
      parse
      (serve_all
        (λ s. s)
        packages
        parse
        (create_engine (λ s. s) every_image)
        (checked "t" (codes "d") files ∷ forgotten "u" ∷ []))
      "t"
      (codes "d")
      files).0
    ≡ check_uncached packages every_image raw (some topology) (codes "d") files
answer-eq-uncached_example =
    answer-eq-uncached (λ s. s) packages parse every_image
      (checked "t" (codes "d") files ∷ forgotten "u" ∷ []) "t" (codes "d") files (ground arith)
      ((ground arith, λ e. e), (tt, tt))

abbrev harmless : NodeDefinition
harmless = record node { privileged = none; binds = codes "a:/a" ∷ [] }

nothing_found : check_node_definition packages every_image files "n" (some harmless) ≡ []
unfolding check_node_definition check_kind check_privileged check_optional_file check_image
    check_stages check_file_reference for_index normalized is_own_file clean is_local is_abs
    split_onto clean_part clean_parts join join_onto text_beq contains_func contains cut trim_space
    trim_left leading reverse_onto is_ascii lower_ascii to_lower has_prefix
nothing_found = refl

check_node_definition-contained_example :
    All (λ k. normalized packages harmless.kind ≢ k) reaching_kinds
    × (harmless.privileged ≢ some true)
    × All (λ b. IsOwnReference files (cut 58 b)) harmless.binds
    × (harmless.startup_config ≢ []
        → contains harmless.startup_config (10 ∷ []) ≡ false
        → IsOwnReference files harmless.startup_config)
    × (harmless.license ≢ [] → IsOwnReference files harmless.license)
    × (harmless.identity_file ≢ [] → IsOwnReference files harmless.identity_file)
check_node_definition-contained_example =
    check_node_definition-contained packages every_image files "n" harmless nothing_found
