-- ===== src/Instance/System.antt =====
-- The operations of the instance service as goroutines run them: a deployment and a destruction
-- have begun before they get the mutex, and others run in between. A step names the operation and
-- the answers that it gets.
pub mod Keeping
pub mod Deployments
pub mod Nodes
pub mod Beginning
pub mod Removing
pub mod Reviving
pub mod Sound
pub mod Runs
pub mod Registry
pub mod Refinement
use antimony_backend.Base.{
  Eq, ◌==◌, nat_eq, string_eq, ==_refl, ltb, leb, nat_beq, if◌then◌else◌, ltb→lt, leb→le, ltb-of_lt,
  ltb-of_le, nat_beq_iff, Bool-cases, Option-cases, some-injective, split_option, ◌>>=◌, length,
  get_elem?, take, drop, replicate, store, length-append, length-take, length-drop,
  length-replicate, take-append-drop, take_all, drop_all, drop-append, drop-drop, get_elem?-some,
  Stores, store-some, All, In, All-In, All-of_In, All-imp, All-append, In-append_left,
  In-append_right, lookup, put, delete, Map, lookup-put, lookup-delete, lookup-put_self,
  lookup-put_ne, lookup-delete_self, lookup-delete_ne, lookup-put-some, lookup-delete-some, ℕ, zero,
  suc, ◌+◌, ◌-◌, ◌*◌, ◌/◌, ◌%◌, ◌^◌, ◌≤◌, ◌<◌, min, String, ◌≡◌, refl, sym, ap, subst, ◌∙◌, ◌≢◌,
  ◌↔◌, ◌⊎◌, inl, inr, Bool, true, false, not, ◌&&◌, ◌||◌, Option, none, some, List, [], ◌∷◌, ◌++◌,
  map, append-nil, append_assoc, arith,
}
use antimony_backend.Entities.{Lab}
use antimony_backend.Auth.{AuthenticatedUser}
use antimony_backend.Deployment.{NodeInterface, InspectContainer}
use antimony_backend.Instance.Revive.{on_provider_event, revive}
use antimony_backend.Errors.{Error}
use antimony_backend.Errors.Result.{Result, ok, failed}
use antimony_backend.Instance.{Effect, Service, World, NodeKindConfig, Instance, InstanceState}
use antimony_backend.Instance.Deploy.{Handle, begin_deploy, run_deploy}
use antimony_backend.Instance.Destroy.{begin_destroy, run_destroy}
use antimony_backend.Instance.Commands.{start_node_command, stop_node_command, restart_node_command}
use antimony_backend.Instance.Monitor.{Monitor}
use antimony_backend.Instance.Startup.{Listener, startup_listener}

-- The service with the deployments and destructions that wait for the mutex.
pub record System : Type 0 where
  pub service : Service
  pub deployments : List (Lab × Handle)
  pub destructions : List (Lab × ℕ)

pub record NodeCommand : Type 0 where
  pub lab_id : String
  pub node_name : Option String
  pub user : AuthenticatedUser

pub data Action : Type 0 where
  begin_deployment : World → Lab → Action
  run_deployment : World → ℕ → Action
  begin_destruction : Lab → Action
  run_destruction : World → ℕ → Action
  start_node stop_node restart_node : World → NodeCommand → Action
  provider_event : World → String → Action
  revival : World → Map String (List InspectContainer) → List Lab → Action
  node_started :
      (String → String → Bool)
      → List String
      → Result (List NodeInterface)
      → Listener
      → Option Error
      → Option Error
      → Monitor
      → Action

-- Before Go has made an object, its address holds nothing that is read.
abbrev blank : Instance
blank = record {
  name = "";
  topology_file = "";
  nodes = [];
  deployment_ctx = none;
  deployed = 0;
  latest_state_change = 0;
  state = InstanceState.deploying;
  recovered = false;
  is_destroyed = false;
}

-- `CreateService`.
unfoldable pub create_service : Map String NodeKindConfig → Service
create_service configs = record {
  instances = [];
  heap = λ _. blank;
  next_address = 0;
  next_context = 0;
  canceled = [];
  node_kind_configs = configs;
  effects = [];
}

unfoldable pub start_system : Map String NodeKindConfig → System
start_system configs = record {
  service = create_service configs;
  deployments = [];
  destructions = [];
}

-- The item at a place, and the others.
unfoldable pub take_out {ℓ} : {A : Type ℓ} → ℕ → List A → Option (A × List A)
take_out n [] = none
take_out zero (x ∷ xs) = some (x, xs)
take_out (suc n) (x ∷ xs) = do (y, ys) ← take_out n xs; some (y, x ∷ ys)

unfoldable pub queue_deployment : System → Lab → Result Handle × Service → System
queue_deployment y lab (failed _, s) = record y { service = s }
queue_deployment y lab (ok h, s) = record y { service = s; deployments = (lab, h) ∷ y.deployments }

unfoldable pub queue_destruction : System → Lab → Result ℕ × Service → System
queue_destruction y lab (failed _, s) = record y { service = s }
queue_destruction y lab (ok a, s) = record y {
  service = s;
  destructions = (lab, a) ∷ y.destructions;
}

unfoldable pub perform : Action → System → System
perform (begin_deployment w lab) y = queue_deployment y lab (begin_deploy w lab y.service)
perform (run_deployment w n) y = elim (take_out n y.deployments) [
  | none ↦ y
  | some ((lab, h), others) ↦ record y {
    service = (run_deploy w lab h y.service).1;
    deployments = others;
  }
]
perform (begin_destruction lab) y = queue_destruction y lab (begin_destroy lab y.service)
perform (run_destruction w n) y = elim (take_out n y.destructions) [
  | none ↦ y
  | some ((lab, a), others) ↦ record y {
    service = (run_destroy w lab a y.service).1;
    destructions = others;
  }
]
perform (start_node w c) y = record y {
  service = (start_node_command w c.lab_id c.node_name c.user y.service).1;
}
perform (stop_node w c) y = record y {
  service = (stop_node_command w c.lab_id c.node_name c.user y.service).1;
}
perform (restart_node w c) y = record y {
  service = (restart_node_command w c.lab_id c.node_name c.user y.service).1;
}
perform (provider_event w name) y = record y { service = on_provider_event w name y.service }
perform (revival w deployed labs) y = record y { service = revive w deployed labs y.service }
perform (node_started path_match excluded reported l stream_error waited m) y = record y {
  service = (startup_listener path_match excluded reported l stream_error waited (y.service, m)).0;
}

unfoldable pub perform_all : List Action → System → System
perform_all [] y = y
perform_all (a ∷ later) y = perform_all later (perform a y)
