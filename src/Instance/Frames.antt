-- ===== src/Instance/Frames.antt =====
-- What the shared functions of the instance service leave alone.
use antimony_backend.Base.{
  nat_eq, string_eq, ==_refl, nat_beq_iff, lookup, delete, Map, ℕ, String, ◌≡◌, refl, ap, ◌≢◌, true,
  false, none, some, List, [], ◌∷◌, map, arith,
}
use antimony_backend.Entities.{Lab}
use antimony_backend.Instance.{
  is_failed, is_running, can_delete, Instance, InstanceNode, Severity, InstanceState, Effect,
  Service, World, modify, emit, send_lab_update, update_lab_and_send_update,
}
use antimony_backend.Instance.Deploy.{stream_nodes, open_node_logs}
use antimony_backend.Instance.Destroy.{forget_instance, release_node_logs}

-- `t` is `s` with other effects.
abbrev pub Emits : Service → Service → Type 0
Emits s t = t ≡ record s { effects = t.effects }

pub stream_nodes-Emits :
    (w : World) (id name : String) (a : ℕ) (nodes : Map String InstanceNode) (s : Service)
    → Emits s (stream_nodes w id name a nodes s).1
unfolding stream_nodes emit
stream_nodes-Emits w id name a [] s = refl
stream_nodes-Emits w id name a ((k, n) ∷ nodes) s =
    let skipped = stream_nodes-Emits w id name a nodes s in
    let listening =
      stream_nodes-Emits w id name a nodes (emit (Effect.start_listener id a k false) s) in
    ground (arith, skipped, listening)

pub release_node_logs-Emits :
    (id : String) (ks : List String) (s : Service) → Emits s (release_node_logs id ks s)
unfolding release_node_logs emit
release_node_logs-Emits id [] s = refl
release_node_logs-Emits id (k ∷ ks) s = release_node_logs-Emits id ks _

pub open_node_logs-Emits :
    (id : String) (nodes : Map String InstanceNode) (s : Service)
    → Emits s (open_node_logs id nodes s)
unfolding open_node_logs emit
open_node_logs-Emits id [] s = refl
open_node_logs-Emits id ((k, n) ∷ nodes) s = open_node_logs-Emits id nodes _

pub stream_nodes-finishes :
    (w : World) (id name : String) (a : ℕ) (nodes : Map String InstanceNode) (s : Service)
    → ((n : String) → w.canceled_in_stream n ≡ false)
    → (stream_nodes w id name a nodes s).0 ≡ false
unfolding stream_nodes
stream_nodes-finishes w id name a [] s live = refl
stream_nodes-finishes w id name a ((k, n) ∷ nodes) s live =
    let skipped = stream_nodes-finishes w id name a nodes s live in
    let listening =
      stream_nodes-finishes w id name a nodes (emit (Effect.start_listener id a k false) s) live in
    ground (arith, skipped, listening, live n.name)

pub modify_self :
    (a : ℕ) (f : Instance → Instance) (s : Service) → (modify a f s).heap a ≡ f (s.heap a)
unfolding modify
modify_self a f s = rw (==_refl a) refl

pub modify_ne :
    (a b : ℕ) (f : Instance → Instance) (s : Service) → b ≢ a → (modify a f s).heap b ≡ s.heap b
unfolding modify
modify_ne a b f s h = ground (arith, h, nat_beq_iff b a)

pub update_lab_lem :
    (now : ℕ) (lab : Lab) (a : ℕ) (state : InstanceState) (severity : Severity) (s : Service)
    → Emits
        (modify a (λ i. record i { state = state; latest_state_change = now }) s)
        (update_lab_and_send_update now lab a state severity s)
unfolding update_lab_and_send_update send_lab_update emit
update_lab_lem now lab a state severity s = refl

pub record Forgets (lab : Lab) (a : ℕ) (s t : Service) : Type 0 where
  pub heap : t.heap ≡ (modify a (λ i. record i { is_destroyed = true }) s).heap
  pub instances : t.instances ≡ delete lab.uuid s.instances
  pub next_address : t.next_address ≡ s.next_address
  pub canceled : t.canceled ≡ s.canceled

pub forget_instance_lem :
    (lab : Lab) (a : ℕ) (s : Service) → Forgets lab a s (forget_instance lab a s)
unfolding forget_instance emit modify
forget_instance_lem lab a s =
    let released = release_node_logs-Emits lab.uuid (map (λ p. p.0) (s.heap a).nodes) (
      emit (Effect.release_logs lab.uuid none)
        (modify a (λ i. record i { is_destroyed = true }) s)) in
    record {
      heap = ap (λ t. t.heap) released;
      instances = ap (λ t. delete lab.uuid t.instances) released;
      next_address = ap (λ t. t.next_address) released;
      canceled = ap (λ t. t.canceled) released;
    }

pub not_running_lem :
    (s : Service) (id : String)
    → lookup id s.instances ≡ none
    → (is_running s id ≡ false) × (can_delete s id ≡ true)
unfolding is_running can_delete
not_running_lem s id h = (ground (arith, h), ground (arith, h))

pub running_lem :
    (s : Service) (id : String) (a : ℕ)
    → lookup id s.instances ≡ some a
    → (is_running s id ≡ true) × (can_delete s id ≡ is_failed (s.heap a).state)
unfolding is_running can_delete
running_lem s id a h = (ground (arith, h), rw (h, can_delete) refl)
