-- ===== src/Policy/Definitions.antt =====
-- What policy/engine.go reads: a YAML value as yaml.v3 decodes it into an `any`, and the fields of
-- containerlab's topology types.
use antimony_backend.Base.{nat_eq, string_eq, Map, String, Bool, true, false, Option, List, [], ◌∷◌}
use antimony_backend.Policy.Text.{Text, sorted}
use Prim.Native.String as Native
use Prim.Native.Nat.{Ordering}

-- `mapping` is a `map[string]any`; every other value is `other`, which no type assertion accepts.
mutual
  pub data Any : Type 0 where
    mapping : Fields → Any
    other : Any

  pub data Fields : Type 0 where
    no_fields : Fields
    field : String → Any → Fields → Fields

unfoldable pub entries : Fields → Map String Any
entries no_fields = []
entries (field k v fs) = (k, v) ∷ entries fs

-- `m, _ := value.(map[string]any)`: nil, which has no keys, for another value.
unfoldable pub as_map : Any → Map String Any
as_map (mapping fs) = entries fs
as_map other = []

unfoldable pub key_leb : String → String → Bool
key_leb s t = elim (Native.compare s t) [ Ordering.gt ↦ false | _ ↦ true ]

-- `sortedKeys`, with the value that the map holds for each key.
unfoldable pub sorted_entries {ℓ} : {V : Type ℓ} → Map String V → Map String V
sorted_entries = sorted (λ a b. key_leb a.0 b.0)

-- Of an `Exec` only the target is read; `none` is a nil pointer.
pub record StageBase : Type 0 where
  pub execs : List (Option Text)

pub record Stages : Type 0 where
  pub create : Option StageBase
  pub create_links : Option StageBase
  pub configure : Option StageBase
  pub healthy : Option StageBase
  pub exit : Option StageBase

pub record NodeDefinition : Type 0 where
  pub kind : Text
  pub image : Text
  pub privileged : Option Bool
  pub binds : List Text
  pub startup_config : Text
  pub license : Text
  pub identity_file : Text
  pub stages : Option Stages

-- A link with its type; `veth_endpoints` is given if the link is a `LinkVEthRaw`, with the node of
-- each endpoint.
pub record Link : Type 0 where
  pub type : Text
  pub veth_endpoints : Option (List (Option Text))

pub record Topology : Type 0 where
  pub defaults : Option NodeDefinition
  pub kinds : Map String (Option NodeDefinition)
  pub groups : Map String (Option NodeDefinition)
  pub nodes : Map String (Option NodeDefinition)
  pub links : List (Option Link)
