-- ===== src/Instance/ProviderEvents.antt =====
-- Which instance an event of the provider reaches.
use antimony_backend.Base.{
  ◌==◌, nat_eq, string_eq, if◌then◌else◌, Bool-cases, some-injective, All, lookup, Map, ℕ, String,
  ◌≡◌, refl, sym, ap, ◌∙◌, ◌≢◌, ◌⊎◌, inl, inr, Bool, true, false, none, some, [], ◌∷◌, ◌++◌, map,
}
use antimony_backend.Deployment.{InspectContainer, same_state}
use antimony_backend.Errors.Result.{Result, Result-cases, ok, failed}
use antimony_backend.Instance.{
  Instance, InstanceNode, Service, World, update_node_with_container, one_node, emit,
}
use antimony_backend.Instance.Commands.{current, fetch_node}
use antimony_backend.Instance.Revive.{find_by_node, notify_change, on_provider_event}
use antimony_backend.Instance.Frames.{modify_self, modify_ne}

-- A node after an inspection: it takes over the state and the addresses of its container, if the
-- provider answers and the state has changed.
abbrev pub inspected : Result InspectContainer → InstanceNode → InstanceNode
inspected (failed _) n = n
inspected (ok c) n = if same_state n.state c.state then n else update_node_with_container c n

-- The nodes after a change of the one under a key.
lookup-one_node_ne :
    (key k : String) (f : InstanceNode → InstanceNode) (nodes : Map String InstanceNode)
    → (key == k) ≡ false
    → lookup k (map (λ (j, m). (j, if j == key then f m else m)) nodes) ≡ lookup k nodes
unfolding lookup
lookup-one_node_ne key k f [] h = refl
lookup-one_node_ne key k f ((j, m) ∷ nodes) h =
    let ih = lookup-one_node_ne key k f nodes h in
    elim (Bool-cases (j == k)) [
      | inl here ↦
          let e : j ≡ k = (string_eq.equal_iff j k).0 here in
          elim (Bool-cases (j == key)) [
            | inl same ↦
                let again : (key == k) ≡ true =
                  ap (λ i. i == k) (sym ((string_eq.equal_iff j key).0 same)) ∙ here in
                absurd (cc (sym again ∙ h))
            | inr other ↦ rw (here, other, lookup) refl
          ]
      | inr there ↦ rw (there, lookup) ih
    ]

lookup-one_node :
    (key k : String) (f : InstanceNode → InstanceNode) (n : InstanceNode)
    (nodes : Map String InstanceNode)
    → lookup key nodes ≡ some n
    → lookup k (map (λ (j, m). (j, if j == key then f m else m)) nodes)
      ≡ (if key == k then some (f n) else lookup k nodes)
unfolding lookup
lookup-one_node key k f n [] h = absurd (cc h)
lookup-one_node key k f n ((j, m) ∷ nodes) h = elim (Bool-cases (j == key)) [
  | inl e ↦
      let same : j ≡ key = (string_eq.equal_iff j key).0 e in
      let eq : m ≡ n = some-injective (rw (e, lookup) at h) in
      elim (Bool-cases (key == k)) [
        | inl here ↦
            let e' : (j == k) ≡ true = ap (λ i. i == k) same ∙ here in
            rw (e, here, e', lookup) (ap (λ x. some (f x)) eq)
        | inr there ↦
            let e' : (j == k) ≡ false = ap (λ i. i == k) same ∙ there in
            rw (there, e', lookup) (lookup-one_node_ne key k f nodes there)
      ]
  | inr e ↦
      let ih = lookup-one_node key k f n nodes (rw (e, lookup) at h) in
      elim (Bool-cases (j == k)) [
        | inl here ↦
            let other : (key == k) ≡ false = elim (Bool-cases (key == k)) [
              | inl t ↦
                  let same : j ≡ key =
                    (string_eq.equal_iff j k).0 here ∙ sym ((string_eq.equal_iff key k).0 t) in
                  absurd (cc (sym ((string_eq.equal_iff j key).1 same) ∙ e))
              | inr o ↦ o
            ] in
            rw (here, e, other, lookup) refl
        | inr there ↦ rw (there, lookup) ih
      ]
]

-- Skips the instances that have no node of the name.
find_by_node-first :
    (heap : ℕ → Instance) (name id : String) (a : ℕ) (n : InstanceNode) (before rest : Map String ℕ)
    → All (λ e. lookup name (heap e.1).nodes ≡ none) before
    → lookup name (heap a).nodes ≡ some n
    → find_by_node heap name (before ++ (id, a) ∷ rest) ≡ some (id, a, n)
unfolding find_by_node
find_by_node-first heap name id a n [] rest none_here h = rw (find_by_node, h) refl
find_by_node-first heap name id a n ((j, b) ∷ before) rest none_here h =
    rw (find_by_node, none_here.0) (find_by_node-first heap name id a n before rest none_here.1 h)

notify_change-heap :
    (id : String) (r : Bool × Service) (b : ℕ) → (notify_change id r).heap b ≡ r.1.heap b
unfolding notify_change emit
notify_change-heap id (true, s) b = refl
notify_change-heap id (false, s) b = refl

-- The answer of an inspection reaches the node under the key, and nothing else.
fetch_node-inspected :
    (w : World) (instance_name : String) (a : ℕ) (key k : String) (n : InstanceNode) (s : Service)
    → lookup key (s.heap a).nodes ≡ some n
    → lookup k ((fetch_node w instance_name a key n s).1.heap a).nodes ≡ (
        if key == k
        then some (inspected (w.inspect_node (s.heap a).topology_file instance_name n.name) n)
        else lookup k (s.heap a).nodes)
unfolding one_node current fetch_node
fetch_node-inspected w instance_name a key k n s h =
    let at_key : current s a key n ≡ n = rw (current, h) refl in
    elim (Result-cases (w.inspect_node (s.heap a).topology_file instance_name n.name)) [
      | inr (e, x) ↦ rw (x, fetch_node) (unchanged (Bool-cases (key == k)))
      | inl (c, x) ↦ elim (Bool-cases (same_state n.state c.state)) [
        | inl same ↦ rw (x, fetch_node, at_key, same) (unchanged (Bool-cases (key == k)))
        | inr other ↦
            rw (x, fetch_node, at_key, other, modify_self)
              (lookup-one_node key k (update_node_with_container c) n (s.heap a).nodes h)
      ]
    ]
  where
    unchanged :
        ((key == k) ≡ true) ⊎ ((key == k) ≡ false)
        → lookup k (s.heap a).nodes ≡ (if key == k then some n else lookup k (s.heap a).nodes)
    unchanged (inl e) =
        rw (e) (ap (λ i. lookup i (s.heap a).nodes) (sym ((string_eq.equal_iff key k).0 e)) ∙ h)
    unchanged (inr e) = rw (e) refl

choose_heap :
    (c : Bool) (r r' : Bool × Service) (s : Service) (b : ℕ)
    → r.1.heap b ≡ s.heap b
    → r'.1.heap b ≡ s.heap b
    → (if c then r else r').1.heap b ≡ s.heap b
choose_heap true r r' s b h k = h
choose_heap false r r' s b h k = k

fetch_node-elsewhere :
    (w : World) (instance_name : String) (a : ℕ) (key : String) (n : InstanceNode) (s : Service)
    (b : ℕ)
    → b ≢ a
    → (fetch_node w instance_name a key n s).1.heap b ≡ s.heap b
unfolding fetch_node
fetch_node-elsewhere w instance_name a key n s b h =
    elim (Result-cases (w.inspect_node (s.heap a).topology_file instance_name n.name)) [
      | inr (e, x) ↦ rw (x, fetch_node) refl
      | inl (c, x) ↦
          rw (x, fetch_node)
            (choose_heap (same_state (current s a key n).state c.state) _ _ s b refl
              (modify_ne a b (one_node key (update_node_with_container c)) s h))
    ]

-- An event of the provider that names a node. If the iteration over the instances comes to an
-- instance with a node of this name, and none before it has one, then the node of this instance is
-- set to what the provider's inspection of this instance shows, if the provider answers and the
-- state has changed; the other nodes of the instance and all other instances stay as they are, also
-- those with a node of the same name. The ID of the instance's lab is assumed not to be empty.
pub on_provider_event-first :
    (w : World) (name id : String) (a : ℕ) (n : InstanceNode) (before rest : Map String ℕ)
    (s : Service) (k : String) (b : ℕ)
    → w.instance_order s.instances ≡ before ++ (id, a) ∷ rest
    → All (λ e. lookup name (s.heap e.1).nodes ≡ none) before
    → lookup name (s.heap a).nodes ≡ some n
    → id ≢ ""
    → b ≢ a
    → (lookup k ((on_provider_event w name s).heap a).nodes ≡ (
        if name == k
        then some (inspected (w.inspect_node (s.heap a).topology_file (s.heap a).name n.name) n)
        else lookup k (s.heap a).nodes))
      × ((on_provider_event w name s).heap b ≡ s.heap b)
unfolding on_provider_event
on_provider_event-first w name id a n before rest s k b order none_here here given other =
    let found : find_by_node s.heap name (w.instance_order s.instances) ≡ some (id, a, n) =
      rw (order) (find_by_node-first s.heap name id a n before rest none_here here) in
    let named : (id == "") ≡ false = elim (Bool-cases (id == "")) [
      | inl e ↦ absurd (given ((string_eq.equal_iff id "").0 e))
      | inr e ↦ e
    ] in
    let fetched = fetch_node w (s.heap a).name a name n s in
    let e : on_provider_event w name s ≡ notify_change id fetched =
      rw (found, on_provider_event, named) refl in
    let there = λ (c : ℕ). ap (λ t. t.heap c) e ∙ notify_change-heap id fetched c in
    (
      ap (λ i. lookup k i.nodes) (there a)
          ∙ fetch_node-inspected w (s.heap a).name a name k n s here,
      there b ∙ fetch_node-elsewhere w (s.heap a).name a name n s b other,
    )
