-- ===== src/Instance/Races.antt =====
-- Deployments and destructions of one lab that overlap.
use antimony_backend.Base.{
  nat_eq, string_eq, ==_refl, nat_beq, Option-cases, lookup, lookup-put_self, lookup-delete_self, ℕ,
  String, ◌≡◌, refl, ap, subst, ◌∙◌, ◌≢◌, inl, inr, Bool, true, false, none, some, List, ◌∷◌,
}
use antimony_backend.Entities.{Lab}
use antimony_backend.Deployment.{NodeState}
use antimony_backend.Errors.Result.{Result, ok, failed, Result-cases}
use antimony_backend.Instance.{
  Instance, InstanceState, Service, World, modify, add_context, cancel_deployment, is_canceled,
  Effect, Severity, emit, each_node, set_state, update_lab_and_send_update, send_lab_update,
  is_running,
}
use antimony_backend.Instance.Deploy.{
  Handle, open_context, begin_deploy, begin_new, create_instance, add_instance, open_node_logs,
  run_deploy,
}
use antimony_backend.Instance.Destroy.{
  begin_destroy, run_destroy, forget_instance, after_destroy, mark_stopped,
}
use antimony_backend.Instance.Frames.{
  Emits, open_node_logs-Emits, running_lem, modify_ne, not_running_lem, forget_instance_lem,
}

-- The deployment's context is that of the instance of the lab.
IsLatest : Lab → Handle → Service → Type 0
IsLatest lab h s =
    (lookup lab.uuid s.instances ≡ some h.address)
    × ((s.heap h.address).deployment_ctx ≡ some h.ctx)

IsLatestResult : Lab → Result Handle × Service → Type 0
IsLatestResult lab (failed e, s) = Unit
IsLatestResult lab (ok h, s) = IsLatest lab h s

canceled_here : (ctx : ℕ) (cs : List ℕ) → is_canceled ctx (ctx ∷ cs) ≡ true
unfolding is_canceled
canceled_here ctx cs = rw (==_refl ctx) refl

canceled-idle :
    (w : World) (lab : Lab) (h : Handle) (s : Service)
    → is_canceled h.ctx s.canceled ≡ true
    → run_deploy w lab h s ≡ (none, s)
unfolding run_deploy
canceled-idle w lab h s c = rw (c) refl

open_context-IsLatest :
    (lab : Lab) (a : ℕ) (b : Bool) (s : Service)
    → lookup lab.uuid s.instances ≡ some a
    → IsLatest lab (open_context a b s).0 (open_context a b s).1
unfolding open_context IsLatest modify cancel_deployment
open_context-IsLatest lab a b s found =
    let same : nat_beq a a ≡ true = ==_refl a in (found, rw (same) refl)

added_lookup :
    (lab : Lab) (i : Instance) (s t : Service)
    → Emits s t
    → lookup lab.uuid (add_instance lab.uuid i t).instances ≡ some s.next_address
unfolding add_instance
added_lookup lab i s t e =
    lookup-put_self lab.uuid t.next_address t.instances ∙ ap (λ x. some x.next_address) e

begin_new-IsLatest :
    (w : World) (lab : Lab) (file definition : String) (s : Service)
    → IsLatestResult lab (begin_new w lab file definition s)
unfolding begin_new IsLatestResult
begin_new-IsLatest w lab file definition s =
    let s' = emit (Effect.open_logs lab.uuid none) s in
    elim (Result-cases (create_instance w s' lab.instance_name file definition)) [
      | inr (e, c) ↦ rw (c, begin_new) tt
      | inl (i, c) ↦
          rw (c, begin_new)
            (open_context-IsLatest lab s'.next_address false _ (
              added_lookup lab (each_node (set_state NodeState.starting) i) s'
                (open_node_logs lab.uuid i.nodes s') (open_node_logs-Emits lab.uuid i.nodes s')))
    ]

begin_deploy-IsLatest :
    (w : World) (lab : Lab) (s : Service) → IsLatestResult lab (begin_deploy w lab s)
unfolding begin_deploy IsLatestResult
begin_deploy-IsLatest w lab s = elim (Option-cases (lookup lab.uuid s.instances)) [
  | inr (a, found) ↦ rw (found, begin_deploy) (open_context-IsLatest lab a true s found)
  | inl missing ↦ elim (Result-cases (w.get_run_environment lab.uuid)) [
    | inr (e, g) ↦ rw (missing, begin_deploy, g) tt
    | inl ((file, definition), g) ↦
        rw (missing, begin_deploy, g) (begin_new-IsLatest w lab file definition s)
  ]
]

latest_canceled :
    (lab : Lab) (h : Handle) (t : Service)
    → IsLatest lab h t
    → is_canceled h.ctx (add_context (t.heap h.address).deployment_ctx t.canceled) ≡ true
unfolding IsLatest add_context
latest_canceled lab h t latest = rw (latest.1, add_context) (canceled_here h.ctx t.canceled)

pub begin_deploy-superseded :
    (w₁ w₂ w₃ : World) (lab : Lab) (h : Handle) (s t : Service)
    → begin_deploy w₁ lab s ≡ (ok h, t)
    → (run_deploy w₃ lab h (begin_destroy lab t).1 ≡ (none, (begin_destroy lab t).1))
      × (run_deploy w₃ lab h (begin_deploy w₂ lab t).1 ≡ (none, (begin_deploy w₂ lab t).1))
unfolding begin_destroy begin_deploy cancel_deployment open_context IsLatestResult IsLatest modify
begin_deploy-superseded w₁ w₂ w₃ lab h s t e =
    let latest : IsLatest lab h t = subst (IsLatestResult lab) e (begin_deploy-IsLatest w₁ lab s) in
    let canceled = latest_canceled lab h t latest in
    (
      canceled-idle w₃ lab h _ (rw (latest.0, begin_destroy) canceled),
      canceled-idle w₃ lab h _ (rw (latest.0, begin_deploy) canceled),
    )

-- A destruction that gets the mutex of an instance that was destroyed while it waited, at a time
-- when the lab has a new instance, takes the new instance out of the map of the service if the
-- provider grants it; the new instance itself stays as it is, not marked as destroyed.
pub second_destroy-loses :
    (w : World) (lab : Lab) (old new : ℕ) (s : Service)
    → lookup lab.uuid s.instances ≡ some new
    → new ≢ old
    → (s.heap old).is_destroyed ≡ true
    → w.destroy (s.heap old).topology_file lab.instance_name ≡ none
    → (is_running s lab.uuid ≡ true)
      × (is_running (run_destroy w lab old s).1 lab.uuid ≡ false)
      × ((run_destroy w lab old s).1.heap new ≡ s.heap new)
unfolding run_destroy after_destroy update_lab_and_send_update send_lab_update emit
second_destroy-loses w lab old new s found other gone granted =
    let stopped = modify old (each_node mark_stopped) s in
    let t = update_lab_and_send_update w.now lab old InstanceState.stopping Severity.info stopped in
    let r : run_destroy w lab old s ≡ (none, forget_instance lab old t) =
      ap (after_destroy w lab old t) granted in
    let f = forget_instance_lem lab old t in
    let missing : lookup lab.uuid (forget_instance lab old t).instances ≡ none =
      rw (f.instances) (lookup-delete_self lab.uuid t.instances) in
    let kept : (forget_instance lab old t).heap new ≡ s.heap new =
      ap (λ x. x new) f.heap
      ∙ modify_ne old new _ t other
      ∙ modify_ne old new _ stopped other
      ∙ modify_ne old new _ s other in
    (
      (running_lem s lab.uuid new found).0,
      ap (λ p. is_running p.1 lab.uuid) r
          ∙ (not_running_lem (forget_instance lab old t) lab.uuid missing).0,
      ap (λ p. p.1.heap new) r ∙ kept,
    )
