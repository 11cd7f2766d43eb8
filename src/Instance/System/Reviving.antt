-- ===== src/Instance/System/Reviving.antt =====
-- What the revival and the events of the provider do to the map and to the heap.
use antimony_backend.Base.{
  ◌==◌, nat_eq, string_eq, leb, Option-cases, split_option, lookup, Map, ℕ, String, ◌≡◌, refl, ◌⊎◌,
  inl, inr, Bool, true, false, ◌||◌, Option, none, some, List, [], ◌∷◌,
}
use antimony_backend.Entities.{Lab}
use antimony_backend.Deployment.{NodeState, InspectContainer, same_state}
use antimony_backend.Errors.Result.{Result-cases}
use antimony_backend.Instance.{
  InstanceNode, Effect, Service, World, NodeKindConfig, reset, each_node, emit,
}
use antimony_backend.Instance.Deploy.{
  create_nodes_from_topology, open_node_logs, new_instance, find_container,
}
use antimony_backend.Instance.Revive.{
  find_by_node, notify_change, on_provider_event, attached, listen_to_nodes, revived_instance,
  revive_nodes, revive_deployed, revive_lab,
}
use antimony_backend.Instance.Frames.{open_node_logs-Emits}
use antimony_backend.Instance.System.Keeping.{
  Keeps, Keeps-refl, Keeps-trans, Keeps-emit, choose-Keeps, map_nodes-labels,
  update_node_with_container_name,
}
use antimony_backend.Instance.System.Nodes.{fetch_node-Keeps}
use antimony_backend.Instance.System.Beginning.{
  HasOwnNames, Adds, Adds-before, Adds-after, IsFresh, add_instance-Adds,
  create_nodes_from_topology-names, emit-Emits,
}

notify_change-Keeps :
    (id : String) (r : Bool × Service) (s : Service) → Keeps s r.1 → Keeps s (notify_change id r)
unfolding notify_change
notify_change-Keeps id (true, t) s k = Keeps-emit _ k
notify_change-Keeps id (false, t) s k = k

pub on_provider_event-Keeps :
    (w : World) (name : String) (s : Service) → Keeps s (on_provider_event w name s)
unfolding on_provider_event
on_provider_event-Keeps w name s =
    split_option (Keeps s) (find_by_node s.heap name (w.instance_order s.instances)) _ _
      (Keeps-refl s)
      (λ (id, a, n) e.
        choose-Keeps (id == "") (Keeps-refl s)
          (notify_change-Keeps id _ s (fetch_node-Keeps w (s.heap a).name a name n s)))

attached_name : (cs : List InspectContainer) (n : InstanceNode) → (attached cs n).name ≡ n.name
unfolding attached reset
attached_name cs n =
    split_option (λ (m : InstanceNode). m.name ≡ n.name) (find_container n.name cs) _ _ refl
      (λ c e. update_node_with_container_name c (reset n))

listen_to_nodes-Keeps :
    (id : String) (a : ℕ) (nodes : Map String InstanceNode) (s : Service)
    → Keeps s (listen_to_nodes id a nodes s)
unfolding listen_to_nodes
listen_to_nodes-Keeps id a [] s = Keeps-refl s
listen_to_nodes-Keeps id a ((k, n) ∷ nodes) s =
    Keeps-trans
      (choose-Keeps (same_state n.state NodeState.running || same_state n.state NodeState.starting)
        (Keeps-emit _ (Keeps-refl s)) (Keeps-refl s))
      (listen_to_nodes-Keeps id a nodes _)

revived_instance-IsFresh :
    (w : World) (lab : Lab) (ctx : ℕ) (cs : List InspectContainer)
    (configs : Map String NodeKindConfig) (topology : Option (Map String String))
    (nodes : Map String InstanceNode)
    → create_nodes_from_topology configs topology ≡ some nodes
    → IsFresh (revived_instance w lab ctx cs nodes)
unfolding revived_instance new_instance each_node IsFresh HasOwnNames
revived_instance-IsFresh w lab ctx cs configs topology nodes e = (
  refl,
  rw (map_nodes-labels (λ k. attached cs) nodes (λ k. attached_name cs))
      (create_nodes_from_topology-names configs topology nodes e),
)

revive_nodes-Adds :
    (w : World) (lab : Lab) (cs : List InspectContainer) (nodes : Map String InstanceNode)
    (s : Service)
    → IsFresh (revived_instance w lab s.next_context cs nodes)
    → Adds lab s (revive_nodes w lab cs nodes s)
unfolding revive_nodes
revive_nodes-Adds w lab cs nodes s fresh =
    let i = revived_instance w lab s.next_context cs nodes in
    let added = add_instance-Adds lab i (open_node_logs lab.uuid nodes s) fresh in
    let k = listen_to_nodes-Keeps lab.uuid s.next_address i.nodes _ in
    Adds-after (Adds-before (open_node_logs-Emits lab.uuid nodes s) added) (
      Keeps-emit _ (record {
        instances = k.instances;
        next_address = k.next_address;
        marks = k.marks;
        names = k.names;
      }))

-- A revived lab adds an instance, or the instances are kept.
pub revive_lab-Adds :
    (w : World) (deployed : Map String (List InspectContainer)) (lab : Lab) (s : Service)
    → Adds lab s (revive_lab w deployed lab s) ⊎ Keeps s (revive_lab w deployed lab s)
unfolding revive_lab revive_deployed
revive_lab-Adds w deployed lab s = elim (Option-cases (lookup lab.instance_name deployed)) [
  | inl missing ↦ inr (
      rw (missing, revive_lab)
        (choose-Keeps (leb w.now lab.start_time) (Keeps-emit _ (Keeps-refl s)) (Keeps-refl s)))
  | inr (cs, found) ↦ elim (Result-cases (w.read_run_topology lab.uuid)) [
    | inr (e, r) ↦ inr (rw (found, revive_lab, revive_deployed, r) (Keeps-refl s))
    | inl (definition, r) ↦ elim (Result-cases (w.parse definition)) [
      | inr (e, p) ↦ inr (rw (found, revive_lab, revive_deployed, r, p) (Keeps-refl s))
      | inl (topology, p) ↦
          elim (Option-cases (create_nodes_from_topology s.node_kind_configs topology)) [
            | inl n ↦
                inr (rw (found, revive_lab, revive_deployed, r, p, n) (Keeps-emit _ (Keeps-refl s)))
            | inr (nodes, n) ↦
                let s' = emit (Effect.open_logs lab.uuid none) s in
                let fresh =
                  revived_instance-IsFresh w lab s'.next_context cs s.node_kind_configs topology
                    nodes n in
                inl (
                  rw (found, revive_lab, revive_deployed, r, p, n)
                    (Adds-before (emit-Emits _ s) (revive_nodes-Adds w lab cs nodes s' fresh)))
          ]
    ]
  ]
]
