-- ===== src/Instance/Deploy.antt =====
-- `DeployLab` of runtime/instance/service.go in two steps: what it does
-- until it waits for `OperationMutex`, and what it does once it holds it. Other operations may run
-- between the two.
use antimony_backend.Base.{
  ◌==◌, nat_eq, string_eq, if◌then◌else◌, lookup, put, Map, ℕ, ◌+◌, String, Bool, true, false, ◌||◌,
  Option, none, some, List, [], ◌∷◌, map,
}
use antimony_backend.Entities.{Lab}
use antimony_backend.Deployment.{same_state, NodeState, InspectContainer}
use antimony_backend.Errors.{Error, err_antimony, err_provider}
use antimony_backend.Errors.Result.{Result, ok, failed}
use antimony_backend.Instance.{
  InstanceState, InstanceNode, Instance, NodeKindConfig, Severity, Effect, Service, World, reset,
  set_state, update_node_with_container, each_node, modify, emit, cancel_deployment, is_canceled,
  send_lab_update, update_lab_and_send_update,
}

-- What a deployment holds while it waits.
pub record Handle : Type 0 where
  pub address : ℕ
  pub ctx : ℕ
  pub was_running : Bool

unfoldable pub can_restart_kind : Map String NodeKindConfig → String → Bool
can_restart_kind configs kind = elim (lookup kind configs) [
  | none ↦ false
  | some config ↦ elim config.can_restart [ none ↦ false | some b ↦ b ]
]

unfoldable pub new_node : Map String NodeKindConfig → String → String → InstanceNode
new_node configs name kind = record {
  name = name;
  kind = kind;
  can_restart = can_restart_kind configs kind;
  ipv4 = "";
  ipv6 = "";
  state = NodeState.stopped;
  is_ready = false;
  container_id = "";
  container_name = "";
  interfaces = [];
}

-- The nodes of the definition with its kinds. The error is logged and not returned.
unfoldable pub create_nodes_from_topology :
    Map String NodeKindConfig → Option (Map String String) → Option (Map String InstanceNode)
create_nodes_from_topology configs none = none
create_nodes_from_topology configs (some []) = none
create_nodes_from_topology configs (some (n ∷ ns)) =
    some (map (λ (name, kind). (name, new_node configs name kind)) (n ∷ ns))

-- The namespaces of the nodes.
unfoldable pub open_node_logs : String → Map String InstanceNode → Service → Service
open_node_logs id [] s = s
open_node_logs id ((k, n) ∷ nodes) s =
    open_node_logs id nodes (emit (Effect.open_logs id (some k)) s)

unfoldable pub new_instance : ℕ → String → String → Map String InstanceNode → Instance
new_instance now name file nodes = record {
  name = name;
  topology_file = file;
  nodes = nodes;
  deployment_ctx = none;
  deployed = now;
  latest_state_change = now;
  state = InstanceState.deploying;
  recovered = false;
  is_destroyed = false;
}

unfoldable pub create_instance : World → Service → String → String → String → Result Instance
create_instance w s name file definition = elim (w.parse definition) [
  | failed _ ↦ failed err_antimony
  | ok topology ↦ elim (create_nodes_from_topology s.node_kind_configs topology) [
    | none ↦ failed err_antimony
    | some nodes ↦ ok (new_instance w.now name file nodes)
  ]
]

-- A new object of the heap, which the map of the service holds from now on.
unfoldable pub add_instance : String → Instance → Service → Service
add_instance id i s =
    let s' = modify s.next_address (λ _. i) s in
    record s' { next_address = s.next_address + 1; instances = put id s.next_address s.instances }

-- The deployment gets a context of its own, and the one before is canceled.
unfoldable pub open_context : ℕ → Bool → Service → Handle × Service
open_context a was_running s =
    let ctx = s.next_context in
    let s' = modify a (λ i. record i { deployment_ctx = some ctx }) (cancel_deployment a s) in
    (
      record { address = a; ctx = ctx; was_running = was_running },
      record s' { next_context = ctx + 1 },
    )

unfoldable pub begin_new : World → Lab → String → String → Service → Result Handle × Service
begin_new w lab file definition s =
    let s' = emit (Effect.open_logs lab.uuid none) s in
    elim (create_instance w s' lab.instance_name file definition) [
      | failed e ↦ (failed e, s')
      | ok i ↦
          let added =
            add_instance lab.uuid (each_node (set_state NodeState.starting) i)
              (open_node_logs lab.uuid i.nodes s') in
          let (h, opened) = open_context s'.next_address false added in (ok h, opened)
    ]

unfoldable pub begin_deploy : World → Lab → Service → Result Handle × Service
begin_deploy w lab s = elim (lookup lab.uuid s.instances) [
  | some a ↦ let (h, opened) = open_context a true s in (ok h, opened)
  | none ↦ elim (w.get_run_environment lab.uuid) [
    | failed _ ↦ (
      failed err_antimony,
      emit (Effect.set_last_deploy_failed lab.topology.uuid true)
          (send_lab_update lab (some Severity.error) false s),
    )
    | ok (file, definition) ↦ begin_new w lab file definition s
  ]
]

unfoldable pub find_container : String → List InspectContainer → Option InspectContainer
find_container name [] = none
find_container name (c ∷ cs) =
    let rest = find_container name cs in if c.name == name then some c else rest

unfoldable pub inspected : List InspectContainer → InstanceNode → InstanceNode
inspected containers n = elim (find_container n.name containers) [
  | none ↦ set_state NodeState.stopped n
  | some c ↦ update_node_with_container c (reset n)
]

unfoldable pub update_inspected :
    ℕ → List InspectContainer × Option Error → Service → Option Error × Service
update_inspected a (containers, some e) s =
    (some e, modify a (each_node (set_state NodeState.stopped)) s)
update_inspected a (containers, none) s = (none, modify a (each_node (inspected containers)) s)

unfoldable pub inspect_lab_and_update_nodes : World → String → ℕ → Service → Option Error × Service
inspect_lab_and_update_nodes w name a s =
    update_inspected a (w.inspect_lab (s.heap a).topology_file name) s

-- The log streams and startup listeners of the nodes; true if the deployment was aborted.
unfoldable pub stream_nodes :
    World → String → String → ℕ → Map String InstanceNode → Service → Bool × Service
stream_nodes w id name a [] s = (false, s)
stream_nodes w id name a ((k, n) ∷ nodes) s =
    let skipped = stream_nodes w id name a nodes s in
    let listening = stream_nodes w id name a nodes (emit (Effect.start_listener id a k false) s) in
    if same_state n.state NodeState.stopped
    then skipped
    else elim (w.stream_container_logs name n.name) [
      | none ↦ listening
      | some _ ↦ if w.canceled_in_stream n.name then (true, s) else listening
    ]

unfoldable pub deploy_failed : World → Lab → ℕ → Severity → Service → Service
deploy_failed w lab a severity s =
    emit (Effect.set_last_deploy_failed lab.topology.uuid true)
      (update_lab_and_send_update w.now lab a InstanceState.failed severity s)

unfoldable pub deploy_succeeded : World → Lab → ℕ → Service → Service
deploy_succeeded w lab a s =
    emit (Effect.set_last_deploy_failed lab.topology.uuid false)
      (update_lab_and_send_update w.now lab a InstanceState.running Severity.success s)

-- After the loop over the nodes.
unfoldable pub finish_deploy : World → Lab → ℕ → Bool × Service → Option Error × Service
finish_deploy w lab a (true, s) = (none, s)
finish_deploy w lab a (false, s) = (none, deploy_succeeded w lab a s)

-- After the lab was inspected.
unfoldable pub attach_nodes : World → Lab → ℕ → Option Error × Service → Option Error × Service
attach_nodes w lab a (some _, s) =
    if w.canceled_in_inspect
    then (none, s)
    else (some err_provider, deploy_failed w lab a Severity.warning s)
attach_nodes w lab a (none, s) =
    let s₁ = modify a (λ i. record i { recovered = false; deployed = w.now }) s in
    let i = s₁.heap a in finish_deploy w lab a (stream_nodes w lab.uuid i.name a i.nodes s₁)

-- After the provider has answered.
unfoldable pub after_deploy : World → Lab → ℕ → Service → Option Error → Option Error × Service
after_deploy w lab a s none =
    attach_nodes w lab a (inspect_lab_and_update_nodes w lab.instance_name a s)
after_deploy w lab a s (some _) = if w.canceled_in_deploy then (none, s) else (
  some err_provider,
  deploy_failed w lab a Severity.error (modify a (each_node (set_state NodeState.stopped)) s),
)

unfoldable pub reset_if_running : Handle → Service → Service
reset_if_running h s = if h.was_running then modify h.address (each_node reset) s else s

unfoldable pub call_provider : World → Lab → Handle → Service → Option Error
call_provider w lab h s =
    let file = (s.heap h.address).topology_file in
    if h.was_running then w.redeploy file lab.instance_name else w.deploy file lab.instance_name

unfoldable pub announced : World → Lab → Handle → Service → Service
announced w lab h s =
    update_lab_and_send_update w.now lab h.address InstanceState.deploying Severity.info
      (reset_if_running h s)

-- A deployment that was canceled, or whose instance was destroyed, in the meantime does nothing.
unfoldable pub run_deploy : World → Lab → Handle → Service → Option Error × Service
run_deploy w lab h s =
    if is_canceled h.ctx s.canceled || (s.heap h.address).is_destroyed
    then (none, s)
    else after_deploy w lab h.address (announced w lab h s) (call_provider w lab h s)

unfoldable pub then_deploy : World → Lab → Result Handle × Service → Option Error × Service
then_deploy w lab (failed e, s) = (some e, s)
then_deploy w lab (ok h, s) = run_deploy w lab h s

-- Both steps with nothing in between.
unfoldable pub deploy_lab : World → Lab → Service → Option Error × Service
deploy_lab w lab s = then_deploy w lab (begin_deploy w lab s)
