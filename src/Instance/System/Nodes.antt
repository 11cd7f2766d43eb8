-- ===== src/Instance/System/Nodes.antt =====
-- The node commands and the startup listeners change no entry of the map, no mark and no name.
use antimony_backend.Base.{
  nat_eq, string_eq, Option-cases, ℕ, String, ◌≡◌, refl, inl, inr, Bool, Option, none, some, List,
}
use antimony_backend.Auth.{AuthenticatedUser}
use antimony_backend.Instance.Monitor.{Monitor}
use antimony_backend.Instance.Startup.{
  Listener, startup_listener, on_node_started, kept_interfaces, ctx_canceled,
}
use antimony_backend.Deployment.{NodeInterface, same_state, NodeState, NodeInterface}
use antimony_backend.Errors.{Error}
use antimony_backend.Errors.Result.{Result-cases, Result, ok, failed}
use antimony_backend.Auth.{AuthenticatedUser}
use antimony_backend.Instance.{
  set_ready, InstanceNode, Service, World, reset, set_ready, set_state, update_node_with_container,
}
use antimony_backend.Instance.Commands.{
  refuse_start, refuse_stop, refuse_restart, start_node_command, stop_node_command,
  restart_node_command, current, Target, guarded, start_node_body, stop_node_body,
  restart_node_body, fetch_node, refetch, reset_node, listen, start_node_command, stop_node_command,
  restart_node_command,
}
use antimony_backend.Instance.Monitor.{Monitor}
use antimony_backend.Instance.Startup.{
  Listener, startup_listener, on_node_started, kept_interfaces, ctx_canceled,
}
use antimony_backend.Instance.System.Keeping.{
  Keeps, Keeps-refl, Keeps-trans, one_node-Keeps, Keeps-emit, if-Keeps, first-Keeps, reset_name,
  set_state_name, update_node_with_container_name,
}

reset_node-Keeps : (id : String) (t : Target) (s : Service) → Keeps s (reset_node id t s)
unfolding reset_node
reset_node-Keeps id t s = Keeps-emit _ (one_node-Keeps t.address t.key reset s reset_name)

pub fetch_node-Keeps :
    (w : World) (instance_name : String) (a : ℕ) (key : String) (n : InstanceNode) (s : Service)
    → Keeps s (fetch_node w instance_name a key n s).1
unfolding fetch_node
fetch_node-Keeps w instance_name a key n s =
    elim (Result-cases (w.inspect_node (s.heap a).topology_file instance_name n.name)) [
      | inr (e, x) ↦ rw (x, fetch_node) (Keeps-refl s)
      | inl (c, x) ↦
          rw (x, fetch_node)
            (if-Keeps _ _ (same_state (current s a key n).state c.state) (Keeps-refl s) (
              one_node-Keeps a key (update_node_with_container c) s
                (update_node_with_container_name c)))
    ]

refetch-Keeps : (w : World) (id : String) (t : Target) (s : Service) → Keeps s (refetch w id t s)
unfolding refetch
refetch-Keeps w id t s =
    Keeps-emit _ (fetch_node-Keeps w t.lab.instance_name t.address t.key t.node s)

listen-Keeps :
    {s : Service} (id : String) (t : Target) (u : Service) → Keeps s u → Keeps s (listen id t u)
unfolding listen
listen-Keeps id t u k = Keeps-emit _ k

-- A node command keeps what its body keeps.
guarded-Keeps :
    (w : World) (r : Result Target) (refuse : NodeState → Option String)
    (body : Target → Service → Option Error × Service) (s : Service)
    → ((t : Target) → Keeps s (body t s).1)
    → Keeps s (guarded w r refuse body s).1
unfolding guarded
guarded-Keeps w (failed e) refuse body s h = Keeps-refl s
guarded-Keeps w (ok t) refuse body s h = elim (Option-cases (refuse t.node.state)) [
  | inl e ↦ rw (e, guarded) (h t)
  | inr (reason, e) ↦ rw (e, guarded) (Keeps-refl s)
]

start_node_body-Keeps :
    (w : World) (id : String) (t : Target) (s : Service) → Keeps s (start_node_body w id t s).1
unfolding start_node_body
start_node_body-Keeps w id t s =
    elim (Option-cases (w.start_node t.lab.instance_name t.node.name)) [
      | inl e ↦ rw (e, start_node_body) (listen-Keeps id t _ (refetch-Keeps w id t s))
      | inr (x, e) ↦ rw (e, start_node_body) (Keeps-refl s)
    ]

stop_node_body-Keeps :
    (w : World) (id : String) (t : Target) (s : Service) → Keeps s (stop_node_body w id t s).1
unfolding stop_node_body
stop_node_body-Keeps w id t s = elim (Option-cases (w.stop_node t.lab.instance_name t.node.name)) [
  | inl e ↦ rw (e, stop_node_body) (Keeps-trans (reset_node-Keeps id t s) (refetch-Keeps w id t _))
  | inr (x, e) ↦ rw (e, stop_node_body) (reset_node-Keeps id t s)
]

restart_node_body-Keeps :
    (w : World) (id : String) (t : Target) (s : Service) → Keeps s (restart_node_body w id t s).1
unfolding restart_node_body
restart_node_body-Keeps w id t s =
    elim (Option-cases (w.restart_node t.lab.instance_name t.node.name)) [
      | inl e ↦
          rw (e, restart_node_body)
            (listen-Keeps id t _ (Keeps-trans (reset_node-Keeps id t s) (refetch-Keeps w id t _)))
      | inr (x, e) ↦ rw (e, restart_node_body) (reset_node-Keeps id t s)
    ]

pub start_node_command-Keeps :
    (w : World) (id : String) (name : Option String) (user : AuthenticatedUser) (s : Service)
    → Keeps s (start_node_command w id name user s).1
unfolding start_node_command
start_node_command-Keeps w id name user s =
    guarded-Keeps w _ refuse_start (start_node_body w id) s (λ t. start_node_body-Keeps w id t s)

pub stop_node_command-Keeps :
    (w : World) (id : String) (name : Option String) (user : AuthenticatedUser) (s : Service)
    → Keeps s (stop_node_command w id name user s).1
unfolding stop_node_command
stop_node_command-Keeps w id name user s =
    guarded-Keeps w _ refuse_stop (stop_node_body w id) s (λ t. stop_node_body-Keeps w id t s)

pub restart_node_command-Keeps :
    (w : World) (id : String) (name : Option String) (user : AuthenticatedUser) (s : Service)
    → Keeps s (restart_node_command w id name user s).1
unfolding restart_node_command
restart_node_command-Keeps w id name user s =
    guarded-Keeps w _ refuse_restart (restart_node_body w id) s
      (λ t. restart_node_body-Keeps w id t s)

set_ready_name : (is : List NodeInterface) (n : InstanceNode) → (set_ready is n).name ≡ n.name
unfolding set_ready
set_ready_name is n = refl

on_node_started-Keeps :
    (path_match : String → String → Bool) (excluded : List String)
    (reported : Result (List NodeInterface)) (l : Listener) (s : Service) (m : Monitor)
    → Keeps s (on_node_started path_match excluded reported l (s, m)).0
unfolding on_node_started
on_node_started-Keeps path_match excluded reported l s m =
    first-Keeps _ _ (ctx_canceled (s.heap l.address).deployment_ctx s) (Keeps-refl s) (
      Keeps-emit _ (
        one_node-Keeps l.address l.key (set_ready (kept_interfaces path_match excluded reported)) s
          (set_ready_name _)))

pub startup_listener-Keeps :
    (path_match : String → String → Bool) (excluded : List String)
    (reported : Result (List NodeInterface)) (l : Listener) (stream_error waited : Option Error)
    (s : Service) (m : Monitor)
    → Keeps s (startup_listener path_match excluded reported l stream_error waited (s, m)).0
unfolding startup_listener
startup_listener-Keeps path_match excluded reported l stream_error (some e) s m =
    first-Keeps _ _ (ctx_canceled l.ctx s) (Keeps-refl s) (
      Keeps-emit _ (
        one_node-Keeps l.address l.key (set_state NodeState.stopped) s
          (set_state_name NodeState.stopped)))
startup_listener-Keeps path_match excluded reported l none none s m =
    on_node_started-Keeps path_match excluded reported l s m
startup_listener-Keeps path_match excluded reported l (some e) none s m =
    first-Keeps _ _ (ctx_canceled l.ctx s) (Keeps-refl s)
      (on_node_started-Keeps path_match excluded reported l s m)
