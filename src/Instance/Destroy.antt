-- ===== src/Instance/Destroy.antt =====
-- `DestroyLab` of runtime/instance/service.go, in two steps like `DeployLab`.
use antimony_backend.Base.{
  nat_eq, string_eq, lookup, delete, ℕ, String, true, Option, none, some, List, [], ◌∷◌, map,
}
use antimony_backend.Entities.{Lab}
use antimony_backend.Deployment.{NodeState}
use antimony_backend.Errors.{Error, err_provider, err_lab_not_running}
use antimony_backend.Errors.Result.{Result, ok, failed}
use antimony_backend.Instance.{
  InstanceState, InstanceNode, Severity, Effect, Service, World, each_node, modify, emit,
  cancel_deployment, update_lab_and_send_update,
}

unfoldable pub begin_destroy : Lab → Service → Result ℕ × Service
begin_destroy lab s = elim (lookup lab.uuid s.instances) [
  | none ↦ (failed err_lab_not_running, s)
  | some a ↦ (ok a, cancel_deployment a s)
]

unfoldable pub mark_stopped : InstanceNode → InstanceNode
mark_stopped n = record n { state = NodeState.stopped; interfaces = [] }

unfoldable pub release_node_logs : String → List String → Service → Service
release_node_logs id [] s = s
release_node_logs id (k ∷ ks) s = release_node_logs id ks (emit (Effect.release_logs id (some k)) s)

-- The instance leaves the map of the service.
unfoldable pub forget_instance : Lab → ℕ → Service → Service
forget_instance lab a s =
    let s₁ = modify a (λ i. record i { is_destroyed = true }) s in
    let s₂ =
      release_node_logs lab.uuid (map (λ p. p.0) (s.heap a).nodes)
        (emit (Effect.release_logs lab.uuid none) s₁) in
    let s₃ : Service = record s₂ { instances = delete lab.uuid s₂.instances } in
    emit (Effect.status_message Severity.success lab.uuid)
      (emit (Effect.lab_update (some lab.uuid)) s₃)

-- After the provider has answered.
unfoldable pub after_destroy : World → Lab → ℕ → Service → Option Error → Option Error × Service
after_destroy w lab a s none = (none, forget_instance lab a s)
after_destroy w lab a s (some _) = (
  some err_provider,
  update_lab_and_send_update w.now lab a InstanceState.failed Severity.error s,
)

unfoldable pub run_destroy : World → Lab → ℕ → Service → Option Error × Service
run_destroy w lab a s =
    let s₁ =
      update_lab_and_send_update w.now lab a InstanceState.stopping Severity.info
        (modify a (each_node mark_stopped) s) in
    after_destroy w lab a s₁ (w.destroy (s.heap a).topology_file lab.instance_name)

unfoldable pub then_destroy : World → Lab → Result ℕ × Service → Option Error × Service
then_destroy w lab (failed e, s) = (some e, s)
then_destroy w lab (ok a, s) = run_destroy w lab a s

-- Both steps with nothing in between.
unfoldable pub destroy_lab : World → Lab → Service → Option Error × Service
destroy_lab w lab s = then_destroy w lab (begin_destroy lab s)
