-- ===== src/Instance/Fixtures.antt =====
-- A lab of one node, with a provider that answers for it.
use antimony_backend.Base.{
  nat_eq, string_eq, leb, nat_beq, ℕ, Bool, true, false, not, ◌&&◌, none, some, List, [], ◌∷◌,
}
use antimony_backend.Entities.{User, Collection, Topology, Lab}
use antimony_backend.Deployment.{NodeState, InspectContainer}
use antimony_backend.Policy.Text.{codes}
use antimony_backend.Auth.{AuthenticatedUser}
use antimony_backend.Errors.{err_provider, err_node_not_running}
use antimony_backend.Errors.Result.{ok, failed}
use antimony_backend.Instance.{InstanceState, InstanceNode, Instance, Service, World}
use antimony_backend.Instance.Deploy.{Handle, begin_deploy}
use antimony_backend.Instance.Commands.{Target, stop_node_command}
use antimony_backend.Instance.Lookup.{NodeQuery}
use antimony_backend.Instance.Monitor.{MonitoredNode, Monitor}
use antimony_backend.Instance.Startup.{Probing}
use antimony_backend.Instance.System.{
  Action, begin_deployment, run_deployment, begin_destruction, run_destruction, stop_node,
}

abbrev pub owner : User
owner = record { uuid = "u"; sub = "u"; name = "u" }

abbrev pub shelf : Collection
shelf = record {
  uuid = "c";
  name = "c";
  public_write = true;
  public_deploy = true;
  creator = owner;
}

abbrev pub plan : Topology
plan = record {
  uuid = "t";
  name = "t";
  sync_url = "";
  collection = shelf;
  creator = owner;
  last_deploy_failed = false;
}

abbrev pub lab : Lab
lab = record {
  uuid = "l";
  name = "l";
  start_time = 5;
  end_time = some 9;
  topology = plan;
  collection = shelf;
  creator = owner;
  instance_name = "l";
  topology_definition = none;
  topology_annotations = none;
}

abbrev pub container : InspectContainer
container = record {
  name = "a";
  lab_name = "l";
  state = NodeState.running;
  container_id = "id";
  container_name = "l-a";
  ipv4_address = "10.0.0.2";
  ipv6_address = "";
}

-- The provider stops no node.
abbrev pub world : World
world = record {
  now = 7;
  error_address = 100;
  operation_in_progress = false;
  get_by_uuid = λ id. ok (record lab { uuid = id });
  get_by_collection_and_name = λ c n. ok lab;
  get_run_environment = λ id. ok ("file", "definition");
  read_run_topology = λ id. ok "definition";
  run_topology_file = λ id. "file";
  parse = λ d. ok (some (("a", "linux") ∷ []));
  deploy = λ f n. none;
  redeploy = λ f n. none;
  destroy = λ f n. none;
  start_node = λ i n. none;
  stop_node = λ i n. some err_provider;
  restart_node = λ i n. none;
  inspect_node = λ f i n. ok container;
  inspect_lab = λ f n. (container ∷ [], none);
  stream_container_logs = λ i n. none;
  instance_order = λ m. m;
  canceled_in_deploy = false;
  canceled_in_inspect = false;
  canceled_in_stream = λ n. false;
}

abbrev pub node : InstanceNode
node = record {
  name = "a";
  kind = "linux";
  can_restart = true;
  ipv4 = "10.0.0.2";
  ipv6 = "";
  state = NodeState.running;
  is_ready = true;
  container_id = "id";
  container_name = "l-a";
  interfaces = [];
}

abbrev pub deployed_instance : Bool → Instance
deployed_instance gone = record {
  name = "l";
  topology_file = "file";
  nodes = ("a", node) ∷ [];
  deployment_ctx = none;
  deployed = 3;
  latest_state_change = 3;
  state = InstanceState.running;
  recovered = false;
  is_destroyed = gone;
}

-- The instance at the address 0 was destroyed; the lab has the one at the given address.
abbrev pub service_at : ℕ → Service
service_at a = record {
  instances = ("l", a) ∷ [];
  heap = λ b. deployed_instance (nat_beq b 0 && not (nat_beq a 0));
  next_address = 2;
  next_context = 0;
  canceled = [];
  node_kind_configs = [];
  effects = [];
}

abbrev pub service : Service
service = service_at 0

abbrev pub handle : Handle
handle = record { address = 0; ctx = 0; was_running = true }

abbrev pub member : AuthenticatedUser
member = record { user_id = codes "u"; collections = codes "c" ∷ []; is_admin = false }

abbrev pub target : Target
target = record { lab = lab; address = 0; key = "a"; node = node }

abbrev pub actions : List Action
actions =
    begin_deployment world lab
    ∷ begin_destruction lab
    ∷ run_deployment world 0
    ∷ stop_node world (record { lab_id = "l"; node_name = some "a"; user = member })
    ∷ run_destruction world 0
    ∷ []

abbrev pub begun : Service
begun = (begin_deploy world lab service).1

abbrev pub after_stop : Service
after_stop = (stop_node_command world "l" (some "a") member service).1

abbrev pub query : NodeQuery
query = record {
  lab_id = some "l";
  instance_name = none;
  collection_name = none;
  lab_name = none;
  node_name = some "a";
  container_id = none;
}

-- A node that never runs.
abbrev pub probing : Probing
probing = record {
  exec = λ i. failed err_node_not_running;
  unexpected = λ code out. err_provider;
  done = λ i. leb 299 i;
  ctx_err = err_provider;
}

abbrev pub monitored : MonitoredNode
monitored = record { name = "a"; instance_name = "l"; ctx = some 0 }

abbrev pub monitor : Monitor
monitor = record { monitored_nodes = ("id", monitored) ∷ []; released = [] }

-- Two labs whose node has the same name; both nodes run, and the provider has stopped them.
abbrev pub two_labs : Service
two_labs = record service { instances = ("l", 0) ∷ ("m", 1) ∷ [] }

abbrev pub stopped_world : World
stopped_world = record world {
  inspect_node = λ f i n. ok (record container { state = NodeState.stopped });
  instance_order = λ m. ("m", 1) ∷ ("l", 0) ∷ [];
}
