-- ===== src/Instance/System/Keeping.antt =====
-- The steps that neither add nor remove an instance keep the map, the marks of the destroyed
-- instances, and the names of the nodes.
use antimony_backend.Base.{
  ◌==◌, nat_eq, string_eq, if◌then◌else◌, nat_beq_iff, Bool-cases, Option-cases, Map, ℕ, String,
  ◌≡◌, refl, ap, ◌∙◌, inl, inr, Bool, true, false, List, [], ◌∷◌, map, arith,
}
use antimony_backend.Entities.{Lab}
use antimony_backend.Deployment.{NodeState, InspectContainer}
use antimony_backend.Instance.{
  Instance, InstanceNode, InstanceState, Severity, Service, Effect, reset, set_state,
  update_node_with_container, each_node, one_node, modify, emit, update_lab_and_send_update,
  send_lab_update,
}
use antimony_backend.Instance.Deploy.{inspected, find_container}
use antimony_backend.Instance.Frames.{Emits}

-- The keys and the names of the nodes.
unfoldable pub labels : Map String InstanceNode → List (String × String)
labels [] = []
labels ((k, n) ∷ nodes) = (k, n.name) ∷ labels nodes

pub record Keeps (s t : Service) : Type 0 where
  pub instances : t.instances ≡ s.instances
  pub next_address : t.next_address ≡ s.next_address
  pub marks : (a : ℕ) → (t.heap a).is_destroyed ≡ (s.heap a).is_destroyed
  pub names : (a : ℕ) → labels (t.heap a).nodes ≡ labels (s.heap a).nodes

pub Keeps-refl : (s : Service) → Keeps s s
Keeps-refl s = record {
  instances = refl;
  next_address = refl;
  marks = λ a. refl;
  names = λ a. refl;
}

pub Keeps-trans : {s t u : Service} → Keeps s t → Keeps t u → Keeps s u
Keeps-trans k l = record {
  instances = l.instances ∙ k.instances;
  next_address = l.next_address ∙ k.next_address;
  marks = λ a. l.marks a ∙ k.marks a;
  names = λ a. l.names a ∙ k.names a;
}

pub Keeps-Emits : {s t : Service} → Emits s t → Keeps s t
Keeps-Emits e = record {
  instances = ap (λ u. u.instances) e;
  next_address = ap (λ u. u.next_address) e;
  marks = λ a. ap (λ u. (u.heap a).is_destroyed) e;
  names = λ a. ap (λ u. labels (u.heap a).nodes) e;
}

pub modify-Keeps :
    (a : ℕ) (f : Instance → Instance) (s : Service)
    → (f (s.heap a)).is_destroyed ≡ (s.heap a).is_destroyed
    → labels (f (s.heap a)).nodes ≡ labels (s.heap a).nodes
    → Keeps s (modify a f s)
unfolding modify
modify-Keeps a f s mark names = record {
  instances = refl;
  next_address = refl;
  marks = λ b. elim (Bool-cases (b == a)) [
    | inr other ↦ rw (other) refl
    | inl same ↦ rw (same, (nat_beq_iff b a).0 same) mark
  ];
  names = λ b. elim (Bool-cases (b == a)) [
    | inr other ↦ rw (other) refl
    | inl same ↦ rw (same, (nat_beq_iff b a).0 same) names
  ];
}

pub map_nodes-labels :
    (f : String → InstanceNode → InstanceNode) (nodes : Map String InstanceNode)
    → ((k : String) (n : InstanceNode) → (f k n).name ≡ n.name)
    → labels (map (λ (k, n). (k, f k n)) nodes) ≡ labels nodes
unfolding labels
map_nodes-labels f [] h = refl
map_nodes-labels f ((k, n) ∷ nodes) h = rw (h k n, map_nodes-labels f nodes h) refl

pub each_node-Keeps :
    (a : ℕ) (f : InstanceNode → InstanceNode) (s : Service)
    → ((n : InstanceNode) → (f n).name ≡ n.name)
    → Keeps s (modify a (each_node f) s)
unfolding each_node
each_node-Keeps a f s h =
    modify-Keeps a (each_node f) s refl (map_nodes-labels (λ k. f) (s.heap a).nodes (λ k. h))

pub one_node-Keeps :
    (a : ℕ) (key : String) (f : InstanceNode → InstanceNode) (s : Service)
    → ((n : InstanceNode) → (f n).name ≡ n.name)
    → Keeps s (modify a (one_node key f) s)
unfolding one_node
one_node-Keeps a key f s h = modify-Keeps a (one_node key f) s refl (
    map_nodes-labels (λ k n. if k == key then f n else n) (s.heap a).nodes
      (λ k n. elim (Bool-cases (k == key)) [ inl e ↦ rw (e) (h n) | inr e ↦ rw (e) refl ]))

pub update_lab-Keeps :
    (now : ℕ) (lab : Lab) (a : ℕ) (state : InstanceState) (severity : Severity) (s : Service)
    → Keeps s (update_lab_and_send_update now lab a state severity s)
unfolding update_lab_and_send_update send_lab_update emit
update_lab-Keeps now lab a state severity s =
    let k =
      modify-Keeps a (λ i. record i { state = state; latest_state_change = now }) s refl refl in
    record {
      instances = k.instances;
      next_address = k.next_address;
      marks = k.marks;
      names = k.names;
    }

pub Keeps-emit : {s t : Service} (e : Effect) → Keeps s t → Keeps s (emit e t)
unfolding emit
Keeps-emit e k = record {
  instances = k.instances;
  next_address = k.next_address;
  marks = k.marks;
  names = k.names;
}

pub choose-Keeps :
    {s t u : Service} (b : Bool) → Keeps s t → Keeps s u → Keeps s (if b then t else u)
choose-Keeps true k l = k
choose-Keeps false k l = l

pub if-Keeps :
    {A : Type 0} {s : Service} (x y : A × Service) (b : Bool)
    → Keeps s x.1
    → Keeps s y.1
    → Keeps s (if b then x else y).1
if-Keeps x y true k l = k
if-Keeps x y false k l = l

pub reset_name : (n : InstanceNode) → (reset n).name ≡ n.name
unfolding reset
reset_name n = refl

pub set_state_name : (x : NodeState) (n : InstanceNode) → (set_state x n).name ≡ n.name
unfolding set_state
set_state_name x n = refl

pub update_node_with_container_name :
    (c : InspectContainer) (n : InstanceNode) → (update_node_with_container c n).name ≡ n.name
unfolding update_node_with_container
update_node_with_container_name c n = ground arith

pub inspected_name :
    (cs : List InspectContainer) (n : InstanceNode) → (inspected cs n).name ≡ n.name
unfolding inspected set_state reset
inspected_name cs n = elim (Option-cases (find_container n.name cs)) [
  | inl e ↦ rw (e, inspected) refl
  | inr (c, e) ↦ rw (e, inspected) (update_node_with_container_name c (reset n))
]

pub first-Keeps :
    {A : Type 0} {s : Service} (x y : Service × A) (b : Bool)
    → Keeps s x.0
    → Keeps s y.0
    → Keeps s (if b then x else y).0
first-Keeps x y true k l = k
first-Keeps x y false k l = l
