-- ===== src/Instance/System/Deployments.antt =====
-- A deployment that runs changes no entry of the map, no mark and no name.
use antimony_backend.Base.{
  nat_eq, string_eq, ℕ, refl, Bool, true, false, ◌||◌, Option, none, some, List,
}
use antimony_backend.Entities.{Lab}
use antimony_backend.Deployment.{NodeState, InspectContainer}
use antimony_backend.Errors.{Error}
use antimony_backend.Instance.{
  InstanceState, Severity, Service, World, reset, set_state, each_node, modify, is_canceled,
}
use antimony_backend.Instance.Deploy.{
  Handle, run_deploy, after_deploy, attach_nodes, update_inspected, inspect_lab_and_update_nodes,
  finish_deploy, deploy_failed, deploy_succeeded, announced, reset_if_running, inspected,
  call_provider, stream_nodes,
}
use antimony_backend.Instance.Frames.{stream_nodes-Emits}
use antimony_backend.Instance.System.Keeping.{
  Keeps, Keeps-refl, Keeps-trans, Keeps-Emits, modify-Keeps, each_node-Keeps, update_lab-Keeps,
  Keeps-emit, choose-Keeps, if-Keeps, reset_name, set_state_name, inspected_name,
}

finish_deploy-Keeps :
    (w : World) (lab : Lab) (a : ℕ) (r : Bool × Service) → Keeps r.1 (finish_deploy w lab a r).1
unfolding finish_deploy deploy_succeeded
finish_deploy-Keeps w lab a (true, s) = Keeps-refl s
finish_deploy-Keeps w lab a (false, s) =
    Keeps-emit _ (update_lab-Keeps w.now lab a InstanceState.running Severity.success s)

deploy_failed-Keeps :
    (w : World) (lab : Lab) (a : ℕ) (severity : Severity) (s : Service)
    → Keeps s (deploy_failed w lab a severity s)
unfolding deploy_failed
deploy_failed-Keeps w lab a severity s =
    Keeps-emit _ (update_lab-Keeps w.now lab a InstanceState.failed severity s)

stop_all-Keeps :
    (a : ℕ) (s : Service) → Keeps s (modify a (each_node (set_state NodeState.stopped)) s)
stop_all-Keeps a s =
    each_node-Keeps a (set_state NodeState.stopped) s (set_state_name NodeState.stopped)

attach_nodes-Keeps :
    (w : World) (lab : Lab) (a : ℕ) (r : Option Error × Service)
    → Keeps r.1 (attach_nodes w lab a r).1
unfolding attach_nodes
attach_nodes-Keeps w lab a (some e, s) =
    if-Keeps _ _ w.canceled_in_inspect (Keeps-refl s)
      (deploy_failed-Keeps w lab a Severity.warning s)
attach_nodes-Keeps w lab a (none, s) =
    let s₁ = modify a (λ i. record i { recovered = false; deployed = w.now }) s in
    let i = s₁.heap a in
    let nodes_streamed = stream_nodes-Emits w lab.uuid i.name a i.nodes s₁ in
    Keeps-trans
      (Keeps-trans
        (modify-Keeps a (λ i. record i { recovered = false; deployed = w.now }) s refl refl)
        (Keeps-Emits nodes_streamed))
      (finish_deploy-Keeps w lab a (stream_nodes w lab.uuid i.name a i.nodes s₁))

update_inspected-Keeps :
    (a : ℕ) (x : List InspectContainer × Option Error) (s : Service)
    → Keeps s (update_inspected a x s).1
unfolding update_inspected
update_inspected-Keeps a (cs, some e) s = stop_all-Keeps a s
update_inspected-Keeps a (cs, none) s = each_node-Keeps a (inspected cs) s (inspected_name cs)

after_deploy-Keeps :
    (w : World) (lab : Lab) (a : ℕ) (s : Service) (r : Option Error)
    → Keeps s (after_deploy w lab a s r).1
unfolding after_deploy inspect_lab_and_update_nodes
after_deploy-Keeps w lab a s none =
    let x = w.inspect_lab (s.heap a).topology_file lab.instance_name in
    Keeps-trans (update_inspected-Keeps a x s) (attach_nodes-Keeps w lab a (update_inspected a x s))
after_deploy-Keeps w lab a s (some e) =
    if-Keeps _ _ w.canceled_in_deploy (Keeps-refl s)
      (Keeps-trans (stop_all-Keeps a s) (deploy_failed-Keeps w lab a Severity.error _))

announced-Keeps : (w : World) (lab : Lab) (h : Handle) (s : Service) → Keeps s (announced w lab h s)
unfolding announced reset_if_running
announced-Keeps w lab h s =
    Keeps-trans
      (choose-Keeps h.was_running (each_node-Keeps h.address reset s reset_name) (Keeps-refl s))
      (update_lab-Keeps w.now lab h.address InstanceState.deploying Severity.info _)

pub run_deploy-Keeps :
    (w : World) (lab : Lab) (h : Handle) (s : Service) → Keeps s (run_deploy w lab h s).1
unfolding run_deploy
run_deploy-Keeps w lab h s =
    if-Keeps _ _ (is_canceled h.ctx s.canceled || (s.heap h.address).is_destroyed) (Keeps-refl s) (
      Keeps-trans (announced-Keeps w lab h s)
        (after_deploy-Keeps w lab h.address (announced w lab h s) (call_provider w lab h s)))
