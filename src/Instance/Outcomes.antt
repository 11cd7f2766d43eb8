-- ===== src/Instance/Outcomes.antt =====
-- What a deployment has done when it returns.
use antimony_backend.Base.{
  nat_eq, string_eq, ==_refl, nat_beq, if◌then◌else◌, Bool-cases, Option-cases, All, In, Map, ℕ,
  String, ◌≡◌, refl, ap, ◌∙◌, ◌≢◌, ◌⊎◌, inl, inr, true, false, Option, none, some, List, [], ◌∷◌,
  map,
}
use antimony_backend.Entities.{Lab}
use antimony_backend.Deployment.{NodeState, InspectContainer}
use antimony_backend.Errors.{Error, err_provider}
use antimony_backend.Instance.{
  is_canceled, InstanceState, InstanceNode, Effect, Service, World, each_node, modify, emit,
  Severity, send_lab_update, update_lab_and_send_update, set_state,
}
use antimony_backend.Instance.Deploy.{
  reset_if_running, run_deploy, call_provider, Handle, inspected, inspect_lab_and_update_nodes,
  update_inspected, stream_nodes, deploy_failed, deploy_succeeded, attach_nodes, finish_deploy,
  announced, after_deploy,
}
use antimony_backend.Instance.Frames.{Emits, stream_nodes-Emits, stream_nodes-finishes}

-- What the provider answers: it redeploys a lab that was running, and deploys any other.
abbrev pub provider_answer : World → Lab → Handle → Service → Option Error
provider_answer w lab h s =
    if h.was_running
    then w.redeploy (s.heap h.address).topology_file lab.instance_name
    else w.deploy (s.heap h.address).topology_file lab.instance_name

-- The lab is deployed: the instance runs, and every node is as the provider has found it.
pub record Deployed (w : World) (lab : Lab) (h : Handle) (s t : Service) : Type 0 where
  pub state : (t.heap h.address).state ≡ InstanceState.running
  pub recovered : (t.heap h.address).recovered ≡ false
  pub deployed : (t.heap h.address).deployed ≡ w.now
  pub nodes :
      (t.heap h.address).nodes
      ≡ (each_node
          (inspected (w.inspect_lab (s.heap h.address).topology_file lab.instance_name).0)
          ((announced w lab h s).heap h.address)).nodes
  pub reported : In (Effect.set_last_deploy_failed lab.topology.uuid false) t.effects

-- The deployment has failed, and this was written to the topology.
pub record DeployFailed (lab : Lab) (a : ℕ) (t : Service) : Type 0 where
  pub state : (t.heap a).state ≡ InstanceState.failed
  pub nodes : All (λ (p : String × InstanceNode). p.1.state ≡ NodeState.stopped) (t.heap a).nodes
  pub reported : In (Effect.set_last_deploy_failed lab.topology.uuid true) t.effects

all_stopped :
    (f : InstanceNode → InstanceNode) (nodes : Map String InstanceNode)
    → ((n : InstanceNode) → (f n).state ≡ NodeState.stopped)
    → All
        (λ (p : String × InstanceNode). p.1.state ≡ NodeState.stopped)
        (map (λ (k, n). (k, f n)) nodes)
all_stopped f [] h = tt
all_stopped f ((k, n) ∷ nodes) h = (h n, all_stopped f nodes h)

module _ (w : World) (lab : Lab) (h : Handle) (s : Service) where
  deploy_failed_lem :
      (severity : Severity) (t : Service)
      → DeployFailed lab h.address (
          deploy_failed w lab h.address severity
            (modify h.address (each_node (set_state NodeState.stopped)) t))
  unfolding deploy_failed update_lab_and_send_update send_lab_update emit modify each_node set_state
  deploy_failed_lem severity t =
      let same : nat_beq h.address h.address ≡ true = ==_refl h.address in
      record {
        state = rw (same) refl;
        nodes =
            rw (same)
              (all_stopped (set_state NodeState.stopped) (t.heap h.address).nodes (λ n. refl));
        reported = inl refl;
      }

  deployed_lem :
      (containers : List InspectContainer) (t : Service)
      → w.inspect_lab (t.heap h.address).topology_file lab.instance_name ≡ (containers, none)
      → ((n : String) → w.canceled_in_stream n ≡ false)
      → (u : Service) × (after_deploy w lab h.address t none
          ≡ (none, deploy_succeeded w lab h.address u))
        × Emits
            (modify h.address
              (λ i. record i { recovered = false; deployed = w.now })
              (modify h.address (each_node (inspected containers)) t))
            u
  unfolding after_deploy attach_nodes update_inspected inspect_lab_and_update_nodes finish_deploy
  deployed_lem containers t e live =
      let a = h.address in
      let s₁ =
        modify a (λ i. record i { recovered = false; deployed = w.now })
          (modify a (each_node (inspected containers)) t) in
      let r = stream_nodes w lab.uuid (s₁.heap a).name a (s₁.heap a).nodes s₁ in
      let e₁ : after_deploy w lab a t none ≡ finish_deploy w lab a r =
        ap (λ x. attach_nodes w lab a (update_inspected a x t)) e in
      let e₂ : finish_deploy w lab a r ≡ (none, deploy_succeeded w lab a r.1) =
        ap (λ b. finish_deploy w lab a (b, r.1))
          (stream_nodes-finishes w lab.uuid (s₁.heap a).name a (s₁.heap a).nodes s₁ live) in
      (r.1, e₁ ∙ e₂, stream_nodes-Emits w lab.uuid (s₁.heap a).name a (s₁.heap a).nodes s₁)

  announced_file :
      ((announced w lab h s).heap h.address).topology_file ≡ (s.heap h.address).topology_file
  unfolding announced reset_if_running update_lab_and_send_update send_lab_update emit modify
      each_node
  announced_file =
      let same : nat_beq h.address h.address ≡ true = ==_refl h.address in
      elim (Bool-cases h.was_running) [
        | inl e ↦ rw (same, e) (rw (same) refl)
        | inr e ↦ rw (same, e) refl
      ]

  succeeded_lem :
      (containers : List InspectContainer) (u : Service)
      → w.inspect_lab (s.heap h.address).topology_file lab.instance_name ≡ (containers, none)
      → Emits
          (modify h.address
            (λ i. record i { recovered = false; deployed = w.now })
            (modify h.address (each_node (inspected containers)) (announced w lab h s)))
          u
      → Deployed w lab h s (deploy_succeeded w lab h.address u)
  unfolding deploy_succeeded update_lab_and_send_update send_lab_update emit modify each_node
  succeeded_lem containers u e made =
      let same : nat_beq h.address h.address ≡ true = ==_refl h.address in
      let heap = ap (λ t. t.heap h.address) made in
      record {
        state = rw (same) refl;
        recovered = rw (same) (rw (heap, same) refl);
        deployed = rw (same) (rw (heap, same) refl);
        nodes = rw (same) (rw (heap, same, e) refl);
        reported = inl refl;
      }

  inspection : List InspectContainer × Option Error
  inspection = w.inspect_lab (s.heap h.address).topology_file lab.instance_name

  inspection-announced :
      w.inspect_lab ((announced w lab h s).heap h.address).topology_file lab.instance_name
      ≡ inspection
  unfolding inspection
  inspection-announced = ap (λ f. w.inspect_lab f lab.instance_name) announced_file

  inspected_branch :
      inspection.1 ≡ none
      → ((n : String) → w.canceled_in_stream n ≡ false)
      → ((after_deploy w lab h.address (announced w lab h s) none).0 ≡ none)
        × Deployed w lab h s (after_deploy w lab h.address (announced w lab h s) none).1
  unfolding inspection
  inspected_branch none_err st =
      let found : inspection ≡ (inspection.0, none) = ap (λ e. (inspection.0, e)) none_err in
      let (u, e, made) =
        deployed_lem inspection.0 (announced w lab h s) (inspection-announced ∙ found) st in
      rw (e) (refl, succeeded_lem inspection.0 u found made)

  uninspected_branch :
      (e : Error)
      → inspection.1 ≡ some e
      → w.canceled_in_inspect ≡ false
      → ((after_deploy w lab h.address (announced w lab h s) none).0 ≡ some err_provider)
        × DeployFailed lab h.address (after_deploy w lab h.address (announced w lab h s) none).1
  unfolding after_deploy attach_nodes update_inspected inspect_lab_and_update_nodes announced
      deploy_failed
  uninspected_branch e err live =
      let found : inspection ≡ (inspection.0, some e) = ap (λ o. (inspection.0, o)) err in
      let t = announced w lab h s in
      let r : after_deploy w lab h.address t none
          ≡ attach_nodes w lab h.address
              (some e, modify h.address (each_node (set_state NodeState.stopped)) t) =
        ap (λ x. attach_nodes w lab h.address (update_inspected h.address x t))
          (inspection-announced ∙ found) in
      rw (r, live) (refl, deploy_failed_lem Severity.warning t)

-- Once a deployment holds the mutex, its context and instance are in order and no cancellation
-- comes, it either returns no error, because the provider has deployed and inspected the lab, and
-- then the instance runs with its nodes as inspected, or it returns `ErrProvider`, because one of the
-- two has failed; then the instance has failed with all nodes stopped. The topology is told which.
pub run_deploy-outcome :
    (w : World) (lab : Lab) (h : Handle) (s : Service)
    → is_canceled h.ctx s.canceled ≡ false
    → (s.heap h.address).is_destroyed ≡ false
    → w.canceled_in_deploy ≡ false
    → w.canceled_in_inspect ≡ false
    → ((n : String) → w.canceled_in_stream n ≡ false)
    → ((provider_answer w lab h s ≡ none)
        × ((w.inspect_lab (s.heap h.address).topology_file lab.instance_name).1 ≡ none)
        × ((run_deploy w lab h s).0 ≡ none)
        × Deployed w lab h s (run_deploy w lab h s).1)
      ⊎ (((provider_answer w lab h s ≢ none)
            ⊎ ((w.inspect_lab (s.heap h.address).topology_file lab.instance_name).1 ≢ none))
          × ((run_deploy w lab h s).0 ≡ some err_provider)
          × DeployFailed lab h.address (run_deploy w lab h s).1)
unfolding run_deploy after_deploy inspection call_provider
run_deploy-outcome w lab h s live kept d i st =
    let t = announced w lab h s in
    let started : run_deploy w lab h s ≡ after_deploy w lab h.address t (call_provider w lab h s) =
      rw (live, kept) refl in
    elim (Option-cases (call_provider w lab h s)) [
      | inr (e, c) ↦
          let r : run_deploy w lab h s ≡ (
            some err_provider,
            deploy_failed w lab h.address Severity.error
                (modify h.address (each_node (set_state NodeState.stopped)) t),
          ) =
            started ∙ ap (after_deploy w lab h.address t) c ∙ rw (d) refl in
          inr (
            inl (λ x. absurd (cc (x, c))),
            ap (λ p. p.0) r,
            rw (r) (deploy_failed_lem w lab h s Severity.error t),
          )
      | inl c ↦
          let r = started ∙ ap (after_deploy w lab h.address t) c in
          elim (Option-cases (inspection w lab h s).1) [
            | inl n ↦
                let (returned, deployed) = inspected_branch w lab h s n st in
                inl (c, n, ap (λ p. p.0) r ∙ returned, rw (r) deployed)
            | inr (e, n) ↦
                let (returned, refused) = uninspected_branch w lab h s e n i in
                inr (inr (λ x. absurd (cc (x, n))), ap (λ p. p.0) r ∙ returned, rw (r) refused)
          ]
    ]
