-- ===== src/Instance/StuckNodes.antt =====
-- A stop that the provider refuses leaves the node in the state stopping.
use antimony_backend.Base.{
  ◌==◌, nat_eq, string_eq, ==_refl, if◌then◌else◌, Bool-cases, some-injective, lookup, Map, ℕ,
  String, ◌≡◌, refl, sym, ap, subst, ◌∙◌, ◌≢◌, ◌⊎◌, inl, inr, true, none, some, [], ◌∷◌, map, arith,
}
use antimony_backend.Entities.{Lab}
use antimony_backend.Deployment.{NodeState}
use antimony_backend.Auth.{AuthenticatedUser}
use antimony_backend.Errors.{Error}
use antimony_backend.Errors.Result.{ok, failed}
use antimony_backend.Instance.{
  InstanceNode, Service, World, get_instance_node, reset, one_node, modify, emit,
}
use antimony_backend.Instance.Commands.{
  find_lab, Target, guarded, reset_node, stop_node_body, start_node_command, stop_node_command,
  restart_node_command,
}
use antimony_backend.Instance.Frames.{modify_self}
use antimony_backend.Instance.NodeGuards.{
  IsOpen, refuse_stop_iff, IsOpen-open_node, IsCarriedOut, node_command-none,
}

reset_under : String → Map String InstanceNode → Map String InstanceNode
reset_under k nodes = map (λ (j, x). (j, if j == k then reset x else x)) nodes

reset_head :
    (name j : String) (x : InstanceNode) (nodes : Map String InstanceNode)
    → (x.name == name) ≡ true
    → get_instance_node name (reset_under j ((j, x) ∷ nodes)) ≡ some (j, reset x)
unfolding get_instance_node reset reset_under
reset_head name j x nodes same = rw (==_refl j, same) refl

reset_found :
    (name k : String) (n : InstanceNode) (nodes : Map String InstanceNode)
    → get_instance_node name nodes ≡ some (k, n)
    → get_instance_node name (reset_under k nodes) ≡ some (k, reset n)
unfolding get_instance_node reset reset_under
reset_found name k n [] h = absurd (cc h)
reset_found name k n ((j, x) ∷ nodes) h = elim (Bool-cases (x.name == name)) [
  | inl same ↦
      let here : (j, x) ≡ (k, n) = some-injective (sym (rw (same) refl) ∙ h) in
      subst (λ p. get_instance_node name (reset_under p.0 ((j, x) ∷ nodes)) ≡ some (p.0, reset p.1))
        here (reset_head name j x nodes same)
  | inr other ↦
      let below = reset_found name k n nodes (sym (rw (other) refl) ∙ h) in
      elim (Bool-cases (j == k)) [ inl e ↦ rw (e, other) below | inr e ↦ rw (e, other) below ]
]

reset_node-instances :
    (id : String) (t : Target) (s : Service) → (reset_node id t s).instances ≡ s.instances
unfolding reset_node emit modify
reset_node-instances id t s = refl

reset_node-found :
    (id name : String) (t : Target) (s : Service)
    → get_instance_node name (s.heap t.address).nodes ≡ some (t.key, t.node)
    → get_instance_node name ((reset_node id t s).heap t.address).nodes ≡ some (t.key, reset t.node)
unfolding reset_node emit one_node reset_under
reset_node-found id name t s h =
    rw (modify_self t.address (one_node t.key reset) s)
      (reset_found name t.key t.node (s.heap t.address).nodes h)

lab-injective : {p q : Lab} → ok p ≡ ok q → p ≡ q
lab-injective {p} {q} h = ap (λ r. elim r [ failed e ↦ p | ok l ↦ l ]) h

IsStuck : String → ℕ → Service → Type 0
IsStuck name a s =
    (k : String) × (n : InstanceNode) × (get_instance_node name (s.heap a).nodes ≡ some (k, n))
    × (n.state ≡ NodeState.stopping)

stuck_state :
    (w : World) (id name : String) (user : AuthenticatedUser) (s : Service) (lab : Lab) (a : ℕ)
    (t : Target)
    → find_lab w id ≡ ok lab
    → lookup lab.uuid s.instances ≡ some a
    → IsStuck name a s
    → IsOpen w id name user s t
    → t.node.state ≡ NodeState.stopping
unfolding IsStuck
stuck_state w id name user s lab a t found running (k, n, node, stopping) opened =
    let same_lab : lab ≡ t.lab = lab-injective (sym found ∙ opened.lab_found) in
    let same_address : a ≡ t.address =
      some-injective
        (sym running ∙ ap (λ l. lookup l.uuid s.instances) same_lab ∙ opened.running) in
    let same_node : (k, n) ≡ (t.key, t.node) = some-injective (
      sym node
      ∙ ap (λ b. get_instance_node name (s.heap b).nodes) same_address
      ∙ opened.node_found) in
    sym (ap (λ p. p.1.state) same_node) ∙ stopping

stuck-refused :
    (w : World) (id name : String) (user : AuthenticatedUser) (s : Service) (lab : Lab) (a : ℕ)
    → find_lab w id ≡ ok lab
    → lookup lab.uuid s.instances ≡ some a
    → IsStuck name a s
    → ((start_node_command w id (some name) user s).0 ≢ none)
      × ((stop_node_command w id (some name) user s).0 ≢ none)
      × ((restart_node_command w id (some name) user s).0 ≢ none)
unfolding IsCarriedOut
stuck-refused w id name user s lab a found running stuck =
    let (start, stop, restart) = node_command-none w id name user s in
    (
      λ h.
          let (t, o, allowed, done) = start.0 h in
          absurd (cc (stuck_state w id name user s lab a t found running stuck o, allowed)),
      λ h.
          let (t, o, allowed, done) = stop.0 h in
          let state = stuck_state w id name user s lab a t found running stuck o in
          elim allowed [ inl x ↦ absurd (cc (state, x)) | inr x ↦ absurd (cc (state, x)) ],
      λ h.
          let (t, o, allowed, done) = restart.0 h in
          let state = stuck_state w id name user s lab a t found running stuck o in
          elim allowed [ inl x ↦ absurd (cc (state, x)) | inr x ↦ absurd (cc (state, x)) ],
    )

failed_stop :
    (w : World) (id name : String) (user : AuthenticatedUser) (s : Service) (t : Target) (e : Error)
    → IsOpen w id name user s t
    → (t.node.state ≡ NodeState.starting) ⊎ (t.node.state ≡ NodeState.running)
    → w.stop_node t.lab.instance_name t.node.name ≡ some e
    → stop_node_command w id (some name) user s ≡ (some e, reset_node id t s)
unfolding stop_node_command stop_node_body guarded
failed_stop w id name user s t e opened state refused =
    let o = IsOpen-open_node w id name user s t opened in
    let allowed = (refuse_stop_iff t.node.state).1 state in ground (arith, o, allowed, refused)

-- The provider refuses to stop a node that is starting or running: the command returns the
-- provider's error, and whoever starts, stops or restarts the node next, as long as nothing else has
-- changed the service, gets an error, because the node is left in the state stopping.
pub failed_stop-stuck :
    (w : World) (id name : String) (user : AuthenticatedUser) (s : Service) (t : Target) (e : Error)
    → IsOpen w id name user s t
    → (t.node.state ≡ NodeState.starting) ⊎ (t.node.state ≡ NodeState.running)
    → w.stop_node t.lab.instance_name t.node.name ≡ some e
    → ((stop_node_command w id (some name) user s).0 ≡ some e)
      × ((later : World) (other : AuthenticatedUser)
          → find_lab later id ≡ ok t.lab
          → ((start_node_command later id
                (some name)
                other
                (stop_node_command w id (some name) user s).1).0
              ≢ none)
            × ((stop_node_command later id
                  (some name)
                  other
                  (stop_node_command w id (some name) user s).1).0
                ≢ none)
            × ((restart_node_command later id
                  (some name)
                  other
                  (stop_node_command w id (some name) user s).1).0
                ≢ none))
unfolding stop_node_command IsStuck reset
failed_stop-stuck w id name user s t e opened state refused =
    let s' = reset_node id t s in
    let r : stop_node_command w id (some name) user s ≡ (some e, s') =
      failed_stop w id name user s t e opened state refused in
    let stuck : IsStuck name t.address s' =
      (t.key, reset t.node, reset_node-found id name t s opened.node_found, refl) in
    let running = ap (lookup t.lab.uuid) (reset_node-instances id t s) ∙ opened.running in
    (
      ap (λ p. p.0) r,
      λ later other found.
          rw (r) (stuck-refused later id name other s' t.lab t.address found running stuck),
    )
