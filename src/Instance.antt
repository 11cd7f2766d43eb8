-- ===== src/Instance.antt =====
-- runtime/instance/instance.go, and the state of the service of runtime/instance/service.go with
-- the small functions that its operations share. The instances are objects that operations hold
-- while others run, so they live in a heap: the map of the service gives an address, and an
-- operation keeps the address it has read. Contexts are numbered, and `canceled` lists those that
-- were canceled. What the operations send to sockets, the event bus and the database, and the
-- goroutines they start, are listed as effects, the latest first. The mutex `OperationMutex` is
-- held from the second step of an operation to its end, `DataMutex` makes each change one step.
pub mod Deploy
pub mod Destroy
pub mod Commands
pub mod Lookup
pub mod Revive
pub mod Monitor
pub mod Startup
pub mod Frames
pub mod Outcomes
pub mod Destructions
pub mod Races
pub mod NodeGuards
pub mod StuckNodes
pub mod Access
pub mod ProviderEvents
pub mod Fixtures
pub mod Tests
pub mod System
use antimony_backend.Base.{
  Eq, ◌==◌, nat_eq, string_eq, ==_refl, ltb, leb, nat_beq, if◌then◌else◌, ltb→lt, leb→le, ltb-of_lt,
  ltb-of_le, nat_beq_iff, Bool-cases, Option-cases, some-injective, split_option, ◌>>=◌, length,
  get_elem?, take, drop, replicate, store, length-append, length-take, length-drop,
  length-replicate, take-append-drop, take_all, drop_all, drop-append, drop-drop, get_elem?-some,
  Stores, store-some, All, In, All-In, All-of_In, All-imp, All-append, In-append_left,
  In-append_right, lookup, put, delete, Map, lookup-put, lookup-delete, lookup-put_self,
  lookup-put_ne, lookup-delete_self, lookup-delete_ne, lookup-put-some, lookup-delete-some, ℕ, zero,
  suc, ◌+◌, ◌-◌, ◌*◌, ◌/◌, ◌%◌, ◌^◌, ◌≤◌, ◌<◌, min, String, ◌≡◌, refl, sym, ap, subst, ◌∙◌, ◌≢◌,
  ◌↔◌, ◌⊎◌, inl, inr, Bool, true, false, not, ◌&&◌, ◌||◌, Option, none, some, List, [], ◌∷◌, ◌++◌,
  map, append-nil, append_assoc, arith,
}
use antimony_backend.Entities.{Lab}
use antimony_backend.Deployment.{NodeState, InspectContainer, NodeInterface}
use antimony_backend.Errors.{Error}
use antimony_backend.Errors.Result.{Result}

pub data InstanceState : Type 0 where
  deploying running stopping failed scheduled inactive : InstanceState

-- `==` with `InstanceStates.Failed`.
unfoldable pub is_failed : InstanceState → Bool
is_failed failed = true
is_failed _ = false

pub record InstanceNode : Type 0 where
  pub name : String
  pub kind : String
  pub can_restart : Bool
  pub ipv4 : String
  pub ipv6 : String
  pub state : NodeState
  pub is_ready : Bool
  pub container_id : String
  pub container_name : String
  pub interfaces : List NodeInterface

pub record Instance : Type 0 where
  pub name : String
  pub topology_file : String
  pub nodes : Map String InstanceNode
  pub deployment_ctx : Option ℕ  -- with its cancel function
  pub deployed : ℕ
  pub latest_state_change : ℕ
  pub state : InstanceState
  pub recovered : Bool
  pub is_destroyed : Bool

pub record NodeKindConfig : Type 0 where
  pub ssh_username : Option String
  pub ssh_password : Option String
  pub can_restart : Option Bool

pub data Severity : Type 0 where
  info success warning error : Severity

pub data Effect : Type 0 where
  lab_update : Option String → Effect
  status_message : Severity → String → Effect
  server_log : Severity → String → Effect
  open_logs : String → Option String → Effect  -- of a lab, or of one of its nodes
  release_logs : String → Option String → Effect
  set_last_deploy_failed : String → Bool → Effect
  save_lab : Lab → Effect
  publish : String → Lab → Effect
  start_listener : String → ℕ → String → Bool → Effect  -- `go s.startNodeStartupListener`

pub record Service : Type 0 where
  pub instances : Map String ℕ
  pub heap : ℕ → Instance
  pub next_address : ℕ  -- addresses from here on are unused
  pub next_context : ℕ
  pub canceled : List ℕ
  pub node_kind_configs : Map String NodeKindConfig
  pub effects : List Effect

unfoldable pub reset : InstanceNode → InstanceNode
reset n = record n {
  ipv4 = "";
  ipv6 = "";
  is_ready = false;
  container_id = "";
  container_name = "";
  state = NodeState.stopping;
  interfaces = [];
}

unfoldable pub set_ready : List NodeInterface → InstanceNode → InstanceNode
set_ready interfaces n = record n { is_ready = true; interfaces = interfaces }

unfoldable pub set_state : NodeState → InstanceNode → InstanceNode
set_state state n = record n { state = state }

-- A stopped container clears the addresses and the names.
unfoldable pub update_node_with_container : InspectContainer → InstanceNode → InstanceNode
update_node_with_container c n = elim c.state [
  | NodeState.stopped ↦ record n {
    state = c.state;
    container_id = "";
    container_name = "";
    ipv4 = "";
    ipv6 = "";
  }
  | _ ↦ record n {
    state = c.state;
    container_id = c.container_id;
    container_name = c.container_name;
    ipv4 = c.ipv4_address;
    ipv6 = c.ipv6_address;
  }
]

-- A loop over the nodes of an instance that changes each of them.
unfoldable pub each_node : (InstanceNode → InstanceNode) → Instance → Instance
each_node f i = record i { nodes = map (λ (k, n). (k, f n)) i.nodes }

-- The same for the node under one key.
unfoldable pub one_node : String → (InstanceNode → InstanceNode) → Instance → Instance
one_node key f i = record i { nodes = map (λ (k, n). (k, if k == key then f n else n)) i.nodes }

unfoldable pub modify : ℕ → (Instance → Instance) → Service → Service
modify a f s = record s { heap = λ b. if b == a then f (s.heap a) else s.heap b }

unfoldable pub emit : Effect → Service → Service
emit e s = record s { effects = e ∷ s.effects }

unfoldable pub add_context : Option ℕ → List ℕ → List ℕ
add_context none canceled = canceled
add_context (some ctx) canceled = ctx ∷ canceled

-- `instance.DeploymentCancel()`, if there is one.
unfoldable pub cancel_deployment : ℕ → Service → Service
cancel_deployment a s = record s { canceled = add_context (s.heap a).deployment_ctx s.canceled }

-- `ctx.Err() != nil`
unfoldable pub is_canceled : ℕ → List ℕ → Bool
is_canceled ctx [] = false
is_canceled ctx (c ∷ cs) = c == ctx || is_canceled ctx cs

-- The namespace of the lab's log is given or nil.
unfoldable pub send_lab_update : Lab → Option Severity → Bool → Service → Service
send_lab_update lab none to_log s = emit (lab_update (some lab.uuid)) s
send_lab_update lab (some severity) to_log s =
    let s' = emit (status_message severity lab.uuid) (emit (lab_update (some lab.uuid)) s) in
    if to_log then emit (server_log severity lab.uuid) s' else s'

unfoldable pub update_lab_and_send_update :
    ℕ → Lab → ℕ → InstanceState → Severity → Service → Service
update_lab_and_send_update now lab a state severity s =
    let changed = modify a (λ i. record i { state = state; latest_state_change = now }) s in
    send_lab_update lab (some severity) true changed

unfoldable pub get_instance : Service → String → Option Instance
get_instance s id = elim (lookup id s.instances) [ none ↦ none | some a ↦ some (s.heap a) ]

unfoldable pub is_running : Service → String → Bool
is_running s id = elim (lookup id s.instances) [ none ↦ false | some _ ↦ true ]

unfoldable pub can_delete : Service → String → Bool
can_delete s id = elim (lookup id s.instances) [ none ↦ true | some a ↦ is_failed (s.heap a).state ]

-- The first node of the name, with its key.
unfoldable pub get_instance_node : String → Map String InstanceNode → Option (String × InstanceNode)
get_instance_node name [] = none
get_instance_node name ((k, n) ∷ nodes) =
    let rest = get_instance_node name nodes in if n.name == name then some (k, n) else rest

-- What the other parts answer to one operation. The topology definition is the list of its nodes
-- with their kinds, or none where it has no topology; `instance_order` gives the entries of a clone
-- of the instance map in the order in which Go iterates over it, which is a different one each time;
-- the three `canceled_in` fields tell whether the operation's context is canceled when the call
-- returns.
pub record World : Type 0 where
  pub now : ℕ
  pub error_address : ℕ  -- of the error that the operation makes, if it makes one
  pub operation_in_progress : Bool  -- `TryLock` fails
  pub get_by_uuid : String → Result Lab
  pub get_by_collection_and_name : String → String → Result Lab
  pub get_run_environment : String → Result (String × String)
  pub read_run_topology : String → Result String
  pub run_topology_file : String → String
  pub parse : String → Result (Option (Map String String))
  pub deploy : String → String → Option Error
  pub redeploy : String → String → Option Error
  pub destroy : String → String → Option Error
  pub start_node : String → String → Option Error
  pub stop_node : String → String → Option Error
  pub restart_node : String → String → Option Error
  pub inspect_node : String → String → String → Result InspectContainer
  pub inspect_lab : String → String → List InspectContainer × Option Error
  pub stream_container_logs : String → String → Option Error
  pub instance_order : Map String ℕ → Map String ℕ
  pub canceled_in_deploy : Bool
  pub canceled_in_inspect : Bool
  pub canceled_in_stream : String → Bool
