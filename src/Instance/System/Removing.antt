-- ===== src/Instance/System/Removing.antt =====
-- What a destruction that runs does to the map and to the heap.
use antimony_backend.Base.{
  ◌==◌, nat_eq, string_eq, nat_beq_iff, Bool-cases, Option-cases, delete, ℕ, ◌≡◌, refl, ap, ◌∙◌,
  ◌≢◌, ◌⊎◌, inl, inr, true,
}
use antimony_backend.Entities.{Lab}
use antimony_backend.Instance.{
  InstanceState, Severity, Service, World, modify, each_node, update_lab_and_send_update,
}
use antimony_backend.Instance.Destroy.{mark_stopped, forget_instance, after_destroy, run_destroy}
use antimony_backend.Instance.Frames.{modify_ne, forget_instance_lem}
use antimony_backend.Instance.System.Keeping.{
  labels, Keeps, Keeps-trans, each_node-Keeps, update_lab-Keeps,
}

-- The lab leaves the map; its instance is marked, and all others are as before.
pub record Removes (lab : Lab) (a : ℕ) (s t : Service) : Type 0 where
  pub instances : t.instances ≡ delete lab.uuid s.instances
  pub next_address : t.next_address ≡ s.next_address
  pub marks : (b : ℕ) → b ≢ a → (t.heap b).is_destroyed ≡ (s.heap b).is_destroyed
  pub names : (b : ℕ) → labels (t.heap b).nodes ≡ labels (s.heap b).nodes

mark_stopped-Keeps :
    (now : ℕ) (lab : Lab) (a : ℕ) (s : Service)
    → Keeps s (
        update_lab_and_send_update now lab a InstanceState.stopping Severity.info
          (modify a (each_node mark_stopped) s))
unfolding mark_stopped
mark_stopped-Keeps now lab a s =
    Keeps-trans (each_node-Keeps a mark_stopped s (λ n. refl))
      (update_lab-Keeps now lab a InstanceState.stopping Severity.info _)

marked_names :
    (a b : ℕ) (t : Service)
    → labels ((modify a (λ i. record i { is_destroyed = true }) t).heap b).nodes
      ≡ labels (t.heap b).nodes
unfolding modify
marked_names a b t = elim (Bool-cases (b == a)) [
  | inr other ↦ rw (other) refl
  | inl same ↦ rw (same, (nat_beq_iff b a).0 same) refl
]

forget_instance-Removes :
    (lab : Lab) (a : ℕ) (s t : Service) → Keeps s t → Removes lab a s (forget_instance lab a t)
forget_instance-Removes lab a s t k =
    let f = forget_instance_lem lab a t in
    record {
      instances = f.instances ∙ ap (delete lab.uuid) k.instances;
      next_address = f.next_address ∙ k.next_address;
      marks = λ b h.
          ap (λ x. (x b).is_destroyed) f.heap
          ∙ ap (λ x. x.is_destroyed) (modify_ne a b (λ i. record i { is_destroyed = true }) t h)
          ∙ k.marks b;
      names = λ b. ap (λ x. labels (x b).nodes) f.heap ∙ marked_names a b t ∙ k.names b;
    }

pub run_destroy-Removes :
    (w : World) (lab : Lab) (a : ℕ) (s : Service)
    → Removes lab a s (run_destroy w lab a s).1 ⊎ Keeps s (run_destroy w lab a s).1
unfolding run_destroy after_destroy
run_destroy-Removes w lab a s =
    elim (Option-cases (w.destroy (s.heap a).topology_file lab.instance_name)) [
      | inl e ↦ inl (
          rw (e, run_destroy)
            (forget_instance-Removes lab a s _ (mark_stopped-Keeps w.now lab a s)))
      | inr (x, e) ↦ inr (
          rw (e, run_destroy)
            (Keeps-trans (mark_stopped-Keeps w.now lab a s)
              (update_lab-Keeps w.now lab a InstanceState.failed Severity.error _)))
    ]
