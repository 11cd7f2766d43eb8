-- ===== src/Policy/Checker.antt =====
-- policy/engine.go, the checks of one topology. A check that the source runs for its effect on
-- `c.findings` is the list of the findings that it adds, in their order.
use antimony_backend.Base.{
  ◌==◌, nat_eq, string_eq, leb, nat_beq, if◌then◌else◌, length, lookup, ℕ, ◌+◌, String, Bool, false,
  not, ◌&&◌, ◌||◌, Option, none, some, List, [], ◌∷◌, ◌++◌,
}
use antimony_backend.Policy.Text.{
  Text, codes, text_eq, contains_func, has_prefix, contains, trim_space, to_lower, decimal,
}
use antimony_backend.Policy.Paths.{clean, is_local}
use antimony_backend.Policy.Rules.{
  Impact, RuleId, Finding, deploy, shell, unreviewed, netlab, unreviewed_field, go_template,
  env_expansion, mgmt, prefix, settings, image_not_allowed, host_exec, remote_file, foreign_file,
}
use antimony_backend.Policy.Fields.{allowed, denied, node_fields}
use antimony_backend.Policy.Definitions.{Any, as_map, sorted_entries, StageBase, Stages}
use Prim.Native.String as Native

-- What the source takes from other packages: `%q`, the lower case of a text that is not ASCII,
-- and the constants of containerlab.
pub record Packages : Type 0 where
  pub quote : String → String
  pub quote_text : Text → String
  pub lower_unicode : Text → Text
  pub link_type_dummy : Text
  pub link_type_veth : Text
  pub command_target_container : Text

infixl 60 ◌+++◌
abbrev pub ◌+++◌ : String → String → String
◌+++◌ = Native.◌++◌

unfoldable pub add : String → RuleId → Impact → String → List Finding
add path rule_id impact message =
    record { rule_id = rule_id; impact = impact; path = path; message = message } ∷ []

abbrev pub netlab_findings : List Finding
netlab_findings =
    record {
      rule_id = netlab;
      impact = deploy;
      path = "";
      message = "netlab topologies run code on the server while the lab is created and deployed";
    }
    ∷ []

-- The loops over a slice, and over its items with their index.
unfoldable pub for_each {ℓ} : {A : Type ℓ} → (A → List Finding) → List A → List Finding
for_each f [] = []
for_each f (x ∷ xs) = f x ++ for_each f xs

unfoldable pub for_index {ℓ} : {A : Type ℓ} → (ℕ → A → List Finding) → ℕ → List A → List Finding
for_index f i [] = []
for_index f i (x ∷ xs) = f i x ++ for_index f (i + 1) xs

-- `$` followed by `{`, a letter or `_`.
unfoldable pub expands : Text → Bool
expands [] = false
expands (a ∷ []) = false
expands (a ∷ b ∷ s) =
    (nat_beq a 36
      && (nat_beq b 123 || nat_beq b 95 || (leb 65 b && leb b 90) || (leb 97 b && leb b 122)))
    || expands (b ∷ s)

unfoldable pub check_raw_text : Text → List Finding
check_raw_text text =
    (if contains text (codes "{{")
      then add "" go_template deploy
          "containerlab renders the topology as a Go template, so templated topologies can't be checked"
      else [])
    ++ (if expands text
        then add "" env_expansion deploy
            "containerlab replaces $VAR and ${VAR} with environment variables of the deploying process"
        else [])

-- `hostReachingKinds` and `hostEndpointNodes`.
abbrev pub host_reaching_kinds : List Text
host_reaching_kinds =
    codes "host"
    ∷ codes "bridge"
    ∷ codes "ovs-bridge"
    ∷ codes "ext-container"
    ∷ codes "k8s-kind"
    ∷ codes "tailscale"
    ∷ []

abbrev pub host_endpoint_nodes : List Text
host_endpoint_nodes = codes "host" ∷ codes "macvlan" ∷ codes "mgmt-net" ∷ []

-- `isOwnFile`.
unfoldable pub is_own_file : List Text → Text → Bool
is_own_file bind_files reference =
    let cleaned = clean reference in
    if reference == [] || has_prefix reference (codes "~")
    then false
    else if not (is_local cleaned) || cleaned == codes "."
    then false
    else contains_func bind_files
        (λ bind_file. bind_file == cleaned || has_prefix bind_file (cleaned ++ codes "/"))

module _ (lib : Packages) where
  unfoldable pub unknown : String → List Finding
  unknown path =
      add path unreviewed_field unreviewed (lib.quote path +++ " is not a reviewed field")

  unfoldable pub check_node_key : String → String → List Finding
  check_node_key path key = elim (lookup key node_fields) [
    | none ↦ unknown (path +++ "." +++ key)
    | some allowed ↦ []
    | some (denied rule_id impact message) ↦ add (path +++ "." +++ key) rule_id impact message
  ]

  unfoldable pub check_node_keys : String → Any → List Finding
  check_node_keys path value =
      for_each (λ e. check_node_key path e.0) (sorted_entries (as_map value))

  -- One round of the loop of `checkTopologyKeys`, and of that of `checkRootKeys`.
  unfoldable pub check_section : String → Any → List Finding
  check_section section value =
      let path = "topology." +++ section in
      if section == "defaults"
      then check_node_keys path value
      else if section == "kinds" || section == "groups" || section == "nodes"
      then for_each (λ e. check_node_keys (path +++ "." +++ e.0) e.1)
          (sorted_entries (as_map value))
      else if section == "links"
      then []
      else unknown path

  unfoldable pub check_topology_keys : Any → List Finding
  check_topology_keys value = for_each (λ e. check_section e.0 e.1) (sorted_entries (as_map value))

  unfoldable pub check_root_key : String → Any → List Finding
  check_root_key key value =
      if key == "name" || key == "debug"
      then []
      else if key == "topology"
      then check_topology_keys value
      else if key == "mgmt"
      then add key mgmt shell "the management network is set by Antimony"
      else if key == "prefix"
      then add key prefix deploy "the container name prefix is set by Antimony"
      else if key == "settings"
      then add key settings deploy "lab settings can reference files on the server"
      else unknown key

  unfoldable pub check_root_keys : Any → List Finding
  check_root_keys generic = for_each (λ e. check_root_key e.0 e.1) (sorted_entries (as_map generic))

  -- `strings.ToLower(strings.TrimSpace(s))`.
  unfoldable pub normalized : Text → Text
  normalized s = to_lower lib.lower_unicode (trim_space s)

  unfoldable pub check_image : List Text → String → Text → List Finding
  check_image prefixes path image =
      let trimmed = trim_space image in
      let is_allowed = contains_func prefixes (λ image_prefix. has_prefix trimmed image_prefix) in
      if nat_beq (length prefixes) 0 || is_allowed
      then []
      else add path image_not_allowed shell
          ("image " +++ lib.quote_text trimmed +++ " is not on the allowlist")

  unfoldable pub check_exec : String → ℕ → Option Text → List Finding
  check_exec path i none = []
  check_exec path i (some target) =
      let target' = normalized target in
      if target' == [] || target' == lib.command_target_container
      then []
      else add (path +++ ".exec[" +++ decimal i +++ "].target") host_exec deploy
          "stage commands with this target run on the server"

  unfoldable pub check_stage : String → String → Option StageBase → List Finding
  check_stage path name none = []
  check_stage path name (some stage) = for_index (check_exec (path +++ "." +++ name)) 0 stage.execs

  -- The stages in the order of their sorted names.
  unfoldable pub check_stages : String → Option Stages → List Finding
  check_stages path none = []
  check_stages path (some stages) =
      check_stage path "configure" stages.configure
      ++ check_stage path "create" stages.create
      ++ check_stage path "create-links" stages.create_links
      ++ check_stage path "exit" stages.exit
      ++ check_stage path "healthy" stages.healthy

  unfoldable pub check_file_reference : List Text → String → Text → List Finding
  check_file_reference bind_files path reference =
      let trimmed = trim_space reference in
      if contains trimmed (codes "://")
      then add path remote_file deploy "remote files are downloaded by the server"
      else if is_own_file bind_files trimmed
      then []
      else add path foreign_file shell
          (lib.quote_text trimmed +++ " is not one of the topology's files")
