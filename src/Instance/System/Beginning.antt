-- ===== src/Instance/System/Beginning.antt =====
-- What the first step of a deployment does to the map and to the heap.
use antimony_backend.Base.{
  nat_eq, string_eq, Option-cases, some-injective, All, lookup, put, Map, ℕ, ◌+◌, String, ◌≡◌, refl,
  ap, subst, ◌∙◌, ◌≢◌, ◌⊎◌, inl, inr, Bool, true, false, Option, none, some, [], ◌∷◌, map,
}
use antimony_backend.Entities.{Lab}
use antimony_backend.Deployment.{NodeState}
use antimony_backend.Errors.Result.{Result, ok, failed, Result-cases}
use antimony_backend.Instance.{
  Instance, InstanceNode, Effect, Service, World, NodeKindConfig, emit, each_node, set_state,
  cancel_deployment, send_lab_update,
}
use antimony_backend.Instance.Deploy.{
  new_node, create_nodes_from_topology, open_node_logs, new_instance, create_instance, add_instance,
  open_context, begin_new, begin_deploy,
}
use antimony_backend.Instance.Frames.{Emits, open_node_logs-Emits, modify_self, modify_ne}
use antimony_backend.Instance.System.Keeping.{
  labels, Keeps, Keeps-Emits, Keeps-emit, modify-Keeps, map_nodes-labels, set_state_name,
}

-- Every node is under its own name.
unfoldable pub HasOwnNames : Instance → Type 0
HasOwnNames i = All (λ (p : String × String). p.0 ≡ p.1) (labels i.nodes)

-- A new instance is under the lab's UUID, at the next address; it is not destroyed, and all others
-- are as before.
pub record Adds (lab : Lab) (s t : Service) : Type 0 where
  pub instances : t.instances ≡ put lab.uuid s.next_address s.instances
  pub next_address : t.next_address ≡ s.next_address + 1
  pub mark : (t.heap s.next_address).is_destroyed ≡ false
  pub names : HasOwnNames (t.heap s.next_address)
  pub other_marks : (a : ℕ) → a ≢ s.next_address → (t.heap a).is_destroyed ≡ (s.heap a).is_destroyed
  pub other_names : (a : ℕ) → a ≢ s.next_address → labels (t.heap a).nodes ≡ labels (s.heap a).nodes

pub Adds-before : {lab : Lab} {s t u : Service} → Emits s t → Adds lab t u → Adds lab s u
Adds-before {lab} {s} {t} {u} e d =
    let d' = subst (λ x. Adds lab x u) e d in
    record {
      instances = d'.instances;
      next_address = d'.next_address;
      mark = d'.mark;
      names = d'.names;
      other_marks = d'.other_marks;
      other_names = d'.other_names;
    }

pub Adds-after : {lab : Lab} {s t u : Service} → Adds lab s t → Keeps t u → Adds lab s u
unfolding HasOwnNames
Adds-after {lab} {s} {t} {u} d k = record {
  instances = k.instances ∙ d.instances;
  next_address = k.next_address ∙ d.next_address;
  mark = k.marks s.next_address ∙ d.mark;
  names = rw (k.names s.next_address) d.names;
  other_marks = λ a h. k.marks a ∙ d.other_marks a h;
  other_names = λ a h. k.names a ∙ d.other_names a h;
}

open_context-Keeps : (a : ℕ) (b : Bool) (s : Service) → Keeps s (open_context a b s).1
unfolding open_context cancel_deployment
open_context-Keeps a b s =
    let k =
      modify-Keeps a (λ i. record i { deployment_ctx = some s.next_context })
        (cancel_deployment a s) refl refl in
    record {
      instances = k.instances;
      next_address = k.next_address;
      marks = k.marks;
      names = k.names;
    }

new_nodes-names :
    (configs : Map String NodeKindConfig) (kinds : Map String String)
    → All
        (λ (p : String × String). p.0 ≡ p.1)
        (labels (map (λ (name, kind). (name, new_node configs name kind)) kinds))
unfolding labels new_node
new_nodes-names configs [] = tt
new_nodes-names configs ((name, kind) ∷ kinds) = (refl, new_nodes-names configs kinds)

pub create_nodes_from_topology-names :
    (configs : Map String NodeKindConfig) (topology : Option (Map String String))
    (nodes : Map String InstanceNode)
    → create_nodes_from_topology configs topology ≡ some nodes
    → All (λ (p : String × String). p.0 ≡ p.1) (labels nodes)
unfolding create_nodes_from_topology
create_nodes_from_topology-names configs none nodes h = absurd (cc h)
create_nodes_from_topology-names configs (some []) nodes h = absurd (cc h)
create_nodes_from_topology-names configs (some (n ∷ ns)) nodes h =
    subst (λ x. All (λ (p : String × String). p.0 ≡ p.1) (labels x)) (some-injective h)
      (new_nodes-names configs (n ∷ ns))

-- The two properties of an instance that the service has just made.
unfoldable pub IsFresh : Instance → Type 0
IsFresh i = (i.is_destroyed ≡ false) × HasOwnNames i

IsFreshResult : Result Instance → Type 0
IsFreshResult (ok i) = IsFresh i
IsFreshResult (failed e) = Unit

create_instance-IsFresh :
    (w : World) (s : Service) (name file definition : String)
    → IsFreshResult (create_instance w s name file definition)
unfolding create_instance new_instance IsFreshResult IsFresh HasOwnNames
create_instance-IsFresh w s name file definition = elim (Result-cases (w.parse definition)) [
  | inr (e, p) ↦ rw (p, create_instance) tt
  | inl (topology, p) ↦
      elim (Option-cases (create_nodes_from_topology s.node_kind_configs topology)) [
        | inl n ↦ rw (p, create_instance, n) tt
        | inr (nodes, n) ↦
            rw (p, create_instance, n)
              (refl, create_nodes_from_topology-names s.node_kind_configs topology nodes n)
      ]
]

started-IsFresh : (i : Instance) → IsFresh i → IsFresh (each_node (set_state NodeState.starting) i)
unfolding IsFresh each_node HasOwnNames
started-IsFresh i h = (
  h.0,
  rw
      (map_nodes-labels (λ k. set_state NodeState.starting) i.nodes
        (λ k. set_state_name NodeState.starting))
      h.1,
)

pub add_instance-Adds :
    (lab : Lab) (i : Instance) (s : Service) → IsFresh i → Adds lab s (add_instance lab.uuid i s)
unfolding add_instance IsFresh HasOwnNames
add_instance-Adds lab i s fresh =
    let n = s.next_address in
    let here = modify_self n (λ _. i) s in
    record {
      instances = refl;
      next_address = refl;
      mark = ap (λ x. x.is_destroyed) here ∙ fresh.0;
      names = rw (here) fresh.1;
      other_marks = λ a h. ap (λ x. x.is_destroyed) (modify_ne n a (λ _. i) s h);
      other_names = λ a h. ap (λ x. labels x.nodes) (modify_ne n a (λ _. i) s h);
    }

pub emit-Emits : (e : Effect) (s : Service) → Emits s (emit e s)
unfolding emit
emit-Emits e s = refl

begin_new-Adds :
    (w : World) (lab : Lab) (file definition : String) (s : Service)
    → Adds lab s (begin_new w lab file definition s).1
      ⊎ Keeps s (begin_new w lab file definition s).1
unfolding begin_new IsFreshResult
begin_new-Adds w lab file definition s =
    let s' = emit (Effect.open_logs lab.uuid none) s in
    elim (Result-cases (create_instance w s' lab.instance_name file definition)) [
      | inr (e, c) ↦ inr (rw (c, begin_new) (Keeps-Emits (emit-Emits _ s)))
      | inl (i, c) ↦
          let fresh : IsFresh i =
            subst IsFreshResult c
              (create_instance-IsFresh w s' lab.instance_name file definition) in
          let added =
            add_instance-Adds lab (each_node (set_state NodeState.starting) i)
              (open_node_logs lab.uuid i.nodes s') (started-IsFresh i fresh) in
          let from_start =
            Adds-before (emit-Emits (Effect.open_logs lab.uuid none) s)
              (Adds-before (open_node_logs-Emits lab.uuid i.nodes s') added) in
          inl (rw (c, begin_new) (Adds-after from_start (open_context-Keeps _ false _)))
    ]

-- A deployment that begins adds an instance, if the lab has none, or keeps those that there are.
pub begin_deploy-Adds :
    (w : World) (lab : Lab) (s : Service)
    → (Adds lab s (begin_deploy w lab s).1 × (lookup lab.uuid s.instances ≡ none))
      ⊎ Keeps s (begin_deploy w lab s).1
unfolding begin_deploy send_lab_update
begin_deploy-Adds w lab s = elim (Option-cases (lookup lab.uuid s.instances)) [
  | inr (a, found) ↦ inr (rw (found, begin_deploy) (open_context-Keeps a true s))
  | inl missing ↦ elim (Result-cases (w.get_run_environment lab.uuid)) [
    | inr (e, g) ↦
        inr (
          rw (missing, begin_deploy, g)
            (Keeps-emit _ (Keeps-emit _ (Keeps-Emits (emit-Emits _ s)))))
    | inl ((file, definition), g) ↦ elim (begin_new-Adds w lab file definition s) [
      | inl added ↦ inl (rw (missing, begin_deploy, g) added, missing)
      | inr kept ↦ inr (rw (missing, begin_deploy, g) kept)
    ]
  ]
]
