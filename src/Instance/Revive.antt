-- ===== src/Instance/Revive.antt =====
-- The changes of the instance service that no user asks for: the revival of the labs at the start,
-- and the events of the provider. An event names a node, and not its lab.
use antimony_backend.Base.{
  ◌==◌, nat_eq, string_eq, leb, if◌then◌else◌, lookup, Map, ℕ, ◌+◌, String, Bool, true, false, ◌||◌,
  Option, none, some, List, [], ◌∷◌,
}
use antimony_backend.Entities.{Lab}
use antimony_backend.Deployment.{NodeState, InspectContainer, same_state}
use antimony_backend.Errors.Result.{ok, failed}
use antimony_backend.Instance.{
  InstanceState, InstanceNode, Instance, Effect, Service, World, reset, update_node_with_container,
  each_node, emit,
}
use antimony_backend.Instance.Deploy.{
  create_nodes_from_topology, open_node_logs, new_instance, add_instance, find_container,
}
use antimony_backend.Instance.Commands.{fetch_node}

-- The first instance with a node of the name: its lab, its address and the node.
unfoldable pub find_by_node :
    (ℕ → Instance) → String → Map String ℕ → Option (String × ℕ × InstanceNode)
find_by_node heap name [] = none
find_by_node heap name ((id, a) ∷ instances) =
    let rest = find_by_node heap name instances in
    elim (lookup name (heap a).nodes) [ none ↦ rest | some n ↦ some (id, a, n) ]

unfoldable pub notify_change : String → Bool × Service → Service
notify_change id (true, s) = emit (Effect.lab_update (some id)) s
notify_change id (false, s) = s

-- The callback of `registerProviderEventListener`.
unfoldable pub on_provider_event : World → String → Service → Service
on_provider_event w name s = elim (find_by_node s.heap name (w.instance_order s.instances)) [
  | none ↦ s
  | some (id, a, n) ↦
      if id == "" then s else notify_change id (fetch_node w (s.heap a).name a name n s)
]

-- A node whose container is not in the list is left as it was made.
unfoldable pub attached : List InspectContainer → InstanceNode → InstanceNode
attached containers n = elim (find_container n.name containers) [
  | none ↦ n
  | some c ↦ update_node_with_container c (reset n)
]

-- The startup listeners of the nodes that are running or starting.
unfoldable pub listen_to_nodes : String → ℕ → Map String InstanceNode → Service → Service
listen_to_nodes id a [] s = s
listen_to_nodes id a ((k, n) ∷ nodes) s =
    let started = same_state n.state NodeState.running || same_state n.state NodeState.starting in
    listen_to_nodes id a nodes (if started then emit (Effect.start_listener id a k false) s else s)

unfoldable pub revived_instance :
    World → Lab → ℕ → List InspectContainer → Map String InstanceNode → Instance
revived_instance w lab ctx containers nodes =
    record (each_node (attached containers)
      (new_instance w.now lab.instance_name (w.run_topology_file lab.uuid) nodes)) {
        state = InstanceState.running;
        recovered = true;
        deployment_ctx = some ctx;
      }

unfoldable pub revive_nodes :
    World → Lab → List InspectContainer → Map String InstanceNode → Service → Service
revive_nodes w lab containers nodes s =
    let ctx = s.next_context in
    let i = revived_instance w lab ctx containers nodes in
    let added = add_instance lab.uuid i (open_node_logs lab.uuid nodes s) in
    let listening = listen_to_nodes lab.uuid s.next_address i.nodes added in
    emit (Effect.publish "lab.restored" lab) (record listening { next_context = ctx + 1 })

-- A lab that the provider runs; one whose topology cannot be read is skipped.
unfoldable pub revive_deployed : World → Lab → List InspectContainer → Service → Service
revive_deployed w lab containers s = elim (w.read_run_topology lab.uuid) [
  | failed _ ↦ s
  | ok definition ↦ elim (w.parse definition) [
    | failed _ ↦ s
    | ok topology ↦
        let s' = emit (Effect.open_logs lab.uuid none) s in
        elim (create_nodes_from_topology s.node_kind_configs topology) [
          | none ↦ s'
          | some nodes ↦ revive_nodes w lab containers nodes s'
        ]
  ]
]

-- A lab that is not deployed, and still to be started, is announced to the scheduler.
unfoldable pub revive_lab : World → Map String (List InspectContainer) → Lab → Service → Service
revive_lab w deployed lab s = elim (lookup lab.instance_name deployed) [
  | some containers ↦ revive_deployed w lab containers s
  | none ↦ if leb w.now lab.start_time then emit (Effect.publish "lab.created" lab) s else s
]

-- The loop of `reviveInstances` over the saved labs; an error of one of its two queries ends the
-- program.
unfoldable pub revive_instances :
    World → Map String (List InspectContainer) → List Lab → Service → Service
revive_instances w deployed [] s = s
revive_instances w deployed (lab ∷ labs) s =
    revive_instances w deployed labs (revive_lab w deployed lab s)

-- `Revive`.
unfoldable pub revive : World → Map String (List InspectContainer) → List Lab → Service → Service
revive w deployed labs s = emit (Effect.lab_update none) (revive_instances w deployed labs s)
