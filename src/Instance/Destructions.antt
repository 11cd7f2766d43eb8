-- ===== src/Instance/Destructions.antt =====
-- What a destruction has done when it returns.
use antimony_backend.Base.{
  nat_eq, string_eq, ==_refl, nat_beq, Option-cases, lookup, lookup-delete_self, ℕ, ◌≡◌, refl, ap,
  ◌∙◌, ◌⊎◌, inl, inr, true, false, none, some,
}
use antimony_backend.Entities.{Lab}
use antimony_backend.Errors.{Error, err_provider}
use antimony_backend.Instance.{
  InstanceState, Service, World, each_node, modify, emit, Severity, cancel_deployment,
  send_lab_update, update_lab_and_send_update, is_running, can_delete, is_failed,
}
use antimony_backend.Instance.Destroy.{
  begin_destroy, run_destroy, after_destroy, destroy_lab, then_destroy, forget_instance,
  mark_stopped,
}
use antimony_backend.Instance.Frames.{
  running_lem, modify_self, not_running_lem, forget_instance_lem,
}

-- The lab is gone: it has no instance, and may be deleted.
pub record Destroyed (lab : Lab) (a : ℕ) (t : Service) : Type 0 where
  pub marked : (t.heap a).is_destroyed ≡ true
  pub not_running : is_running t lab.uuid ≡ false
  pub deletable : can_delete t lab.uuid ≡ true

-- The lab still has its instance, which has failed; its nodes are stopped.
pub record DestroyFailed (lab : Lab) (a : ℕ) (s t : Service) : Type 0 where
  pub state : (t.heap a).state ≡ InstanceState.failed
  pub marked : (t.heap a).is_destroyed ≡ (s.heap a).is_destroyed
  pub nodes : (t.heap a).nodes ≡ (each_node mark_stopped (s.heap a)).nodes
  pub still_running : is_running t lab.uuid ≡ true
  pub deletable : can_delete t lab.uuid ≡ true

module _ (w : World) (lab : Lab) (a : ℕ) (s : Service) where
  announced_stop : Service
  announced_stop =
      update_lab_and_send_update w.now lab a InstanceState.stopping Severity.info
        (modify a (each_node mark_stopped) s)

  failed_stop : Service
  failed_stop =
      update_lab_and_send_update w.now lab a InstanceState.failed Severity.error announced_stop

  run_destroy-none :
      w.destroy (s.heap a).topology_file lab.instance_name ≡ none
      → ((run_destroy w lab a s).0 ≡ none) × Destroyed lab a (run_destroy w lab a s).1
  unfolding run_destroy after_destroy announced_stop
  run_destroy-none h =
      let e : run_destroy w lab a s ≡ (none, forget_instance lab a announced_stop) =
        ap (after_destroy w lab a announced_stop) h in
      let f = forget_instance_lem lab a announced_stop in
      let gone =
        not_running_lem (forget_instance lab a announced_stop) lab.uuid
          (rw (f.instances) (lookup-delete_self lab.uuid announced_stop.instances)) in
      rw (e) (
        refl,
        record { marked = rw (f.heap, modify_self) refl; not_running = gone.0; deletable = gone.1 },
      )

  run_destroy-some :
      (e : Error)
      → w.destroy (s.heap a).topology_file lab.instance_name ≡ some e
      → lookup lab.uuid s.instances ≡ some a
      → ((run_destroy w lab a s).0 ≡ some err_provider)
        × DestroyFailed lab a s (run_destroy w lab a s).1
  unfolding run_destroy after_destroy announced_stop failed_stop update_lab_and_send_update
      send_lab_update emit modify is_running can_delete is_failed each_node
  run_destroy-some e h found =
      let same : nat_beq a a ≡ true = ==_refl a in
      let r : run_destroy w lab a s ≡ (
        some err_provider,
        update_lab_and_send_update w.now lab a InstanceState.failed Severity.error announced_stop,
      ) =
        ap (after_destroy w lab a announced_stop) h in
      let failed_lem : is_failed (failed_stop.heap a).state ≡ true = rw (same) refl in
      rw (r) (
        refl,
        record {
          state = rw (same) refl;
          marked = rw (same) refl;
          nodes = rw (same) refl;
          still_running = (running_lem failed_stop lab.uuid a found).0;
          deletable = (running_lem failed_stop lab.uuid a found).1 ∙ failed_lem;
        },
      )

-- The destruction of a lab that has an instance: if the provider destroys it without an error, no
-- error is returned, the lab has no instance any more and may be deleted; if the provider returns
-- an error, `ErrProvider` is returned, and the lab still has its instance, in the state failed and
-- with stopped nodes, and may be deleted as well.
pub destroy_lab-outcome :
    (w : World) (lab : Lab) (a : ℕ) (s : Service)
    → lookup lab.uuid s.instances ≡ some a
    → ((w.destroy (s.heap a).topology_file lab.instance_name ≡ none)
        × ((destroy_lab w lab s).0 ≡ none)
        × Destroyed lab a (destroy_lab w lab s).1)
      ⊎ ((refusal : Error) × (w.destroy (s.heap a).topology_file lab.instance_name ≡ some refusal)
          × ((destroy_lab w lab s).0 ≡ some err_provider)
          × DestroyFailed lab a s (destroy_lab w lab s).1)
unfolding destroy_lab then_destroy begin_destroy cancel_deployment
destroy_lab-outcome w lab a s found =
    let s' = cancel_deployment a s in
    let e : destroy_lab w lab s ≡ run_destroy w lab a s' = rw (found, begin_destroy) refl in
    rw (e) (elim (Option-cases (w.destroy (s.heap a).topology_file lab.instance_name)) [
      | inl n ↦ let (r, f) = run_destroy-none w lab a s' n in inl (n, r, f)
      | inr (err, n) ↦
          let (r, f) = run_destroy-some w lab a s' err n found in
          inr (
            err,
            n,
            r,
            record {
              state = f.state;
              marked = f.marked;
              nodes = f.nodes;
              still_running = f.still_running;
              deletable = f.deletable;
            },
          )
    ])
