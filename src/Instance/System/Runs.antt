-- ===== src/Instance/System/Runs.antt =====
-- The invariant holds after every sequence of steps.
use antimony_backend.Base.{
  nat_eq, string_eq, Option-cases, All, lookup, Map, ℕ, zero, suc, String, ◌≡◌, refl, subst, ◌⊎◌,
  inl, inr, Option, none, some, List, [], ◌∷◌,
}
use antimony_backend.Entities.{Lab}
use antimony_backend.Errors.{err_lab_not_running}
use antimony_backend.Errors.Result.{Result, ok, failed}
use antimony_backend.Instance.{Effect, emit, Service, World, NodeKindConfig, cancel_deployment}
use antimony_backend.Instance.Deploy.{Handle, begin_deploy}
use antimony_backend.Instance.Destroy.{begin_destroy}
use antimony_backend.Instance.System.{
  provider_event, revival, System, Action, start_system, take_out, queue_deployment,
  queue_destruction, perform, perform_all, begin_deployment, run_deployment, begin_destruction,
  run_destruction, start_node, stop_node, restart_node, node_started,
}
use antimony_backend.Instance.System.Keeping.{Keeps-emit, Keeps, Keeps-refl}
use antimony_backend.Instance.System.Deployments.{run_deploy-Keeps}
use antimony_backend.Instance.System.Nodes.{
  start_node_command-Keeps, stop_node_command-Keeps, restart_node_command-Keeps,
  startup_listener-Keeps,
}
use antimony_backend.Instance.System.Beginning.{begin_deploy-Adds}
use antimony_backend.Deployment.{InspectContainer}
use antimony_backend.Instance.Revive.{revive, revive_instances, revive_lab}
use antimony_backend.Instance.System.Reviving.{revive_lab-Adds, on_provider_event-Keeps}
use antimony_backend.Instance.System.Removing.{run_destroy-Removes}
use antimony_backend.Instance.System.Sound.{
  Owns, IsSound, start_system-IsSound, Keeps-IsSound, Adds-IsSound, Removes-IsSound,
}

Taken : {A : Type 0} → (A → Type 0) → Option (A × List A) → Type 0
Taken P none = Unit
Taken P (some (x, rest)) = P x × All P rest

take_out-Taken :
    {A : Type 0} (P : A → Type 0) (n : ℕ) (xs : List A) → All P xs → Taken P (take_out n xs)
unfolding take_out Taken
take_out-Taken P n [] ps = tt
take_out-Taken P zero (y ∷ ys) ps = ps
take_out-Taken P (suc n) (y ∷ ys) ps = elim (Option-cases (take_out n ys)) [
  | inl e ↦ rw (take_out, e) tt
  | inr ((x, rest), e) ↦
      let below : P x × All P rest = subst (Taken P) e (take_out-Taken P n ys ps.1) in
      rw (take_out, e) (below.0, (ps.0, below.1))
]

take_out-All :
    {A : Type 0} (P : A → Type 0) (n : ℕ) (xs : List A) (x : A) (rest : List A)
    → take_out n xs ≡ some (x, rest)
    → All P xs
    → P x × All P rest
unfolding Taken
take_out-All P n xs x rest h ps = subst (Taken P) h (take_out-Taken P n xs ps)

begin_destroy-Keeps :
    (lab : Lab) (s : Service)
    → ((begin_destroy lab s ≡ (failed err_lab_not_running, s)))
      ⊎ ((a : ℕ) × (lookup lab.uuid s.instances ≡ some a)
          × (begin_destroy lab s ≡ (ok a, cancel_deployment a s)))
unfolding begin_destroy
begin_destroy-Keeps lab s = elim (Option-cases (lookup lab.uuid s.instances)) [
  | inl missing ↦ inl (rw (missing, begin_destroy) refl)
  | inr (a, found) ↦ inr (a, found, rw (found, begin_destroy) refl)
]

cancel-Keeps : (a : ℕ) (s : Service) → Keeps s (cancel_deployment a s)
unfolding cancel_deployment
cancel-Keeps a s = record {
  instances = refl;
  next_address = refl;
  marks = λ b. refl;
  names = λ b. refl;
}

-- Whether or not the deployment is queued, the service is the one that it has left.
queue_deployment-either :
    (lab : Lab) (y : System) (r : Result Handle × Service)
    → ((ds : List (Lab × Handle))
        → IsSound (record { service = r.1; deployments = ds; destructions = y.destructions }))
    → IsSound (queue_deployment y lab r)
unfolding queue_deployment
queue_deployment-either lab y (failed e, s) f = f y.deployments
queue_deployment-either lab y (ok h, s) f = f ((lab, h) ∷ y.deployments)

queue_deployment-IsSound :
    (w : World) (lab : Lab) (y : System)
    → IsSound y
    → IsSound (queue_deployment y lab (begin_deploy w lab y.service))
queue_deployment-IsSound w lab y h =
    queue_deployment-either lab y (begin_deploy w lab y.service) (λ ds.
      elim (begin_deploy-Adds w lab y.service) [
        | inl (added, missing) ↦ Adds-IsSound lab y _ ds added h
        | inr kept ↦ Keeps-IsSound y _ ds y.destructions kept h h.owned
      ])

emit-IsSound :
    (e : Effect) (y : System) → IsSound y → IsSound (record y { service = emit e y.service })
emit-IsSound e y h =
    Keeps-IsSound y _ y.deployments y.destructions (Keeps-emit e (Keeps-refl y.service)) h h.owned

revive_instances-IsSound :
    (w : World) (deployed : Map String (List InspectContainer)) (labs : List Lab) (y : System)
    → IsSound y
    → IsSound (record y { service = revive_instances w deployed labs y.service })
unfolding revive_instances
revive_instances-IsSound w deployed [] y h = h
revive_instances-IsSound w deployed (lab ∷ labs) y h =
    let t = revive_lab w deployed lab y.service in
    let revived : IsSound (record y { service = t }) =
      elim (revive_lab-Adds w deployed lab y.service) [
        | inl added ↦ Adds-IsSound lab y t y.deployments added h
        | inr kept ↦ Keeps-IsSound y t y.deployments y.destructions kept h h.owned
      ] in
    revive_instances-IsSound w deployed labs (record y { service = t }) revived

perform-IsSound : (a : Action) (y : System) → IsSound y → IsSound (perform a y)
unfolding perform queue_destruction Owns revive
perform-IsSound (begin_deployment w lab) y h = queue_deployment-IsSound w lab y h
perform-IsSound (run_deployment w n) y h = elim (Option-cases (take_out n y.deployments)) [
  | inl e ↦ rw (e, perform) h
  | inr (((lab, d), others), e) ↦
      rw (e, perform)
        (Keeps-IsSound y _ others y.destructions (run_deploy-Keeps w lab d y.service) h h.owned)
]
perform-IsSound (begin_destruction lab) y h = elim (begin_destroy-Keeps lab y.service) [
  | inl e ↦
      rw (e, perform)
        (Keeps-IsSound y y.service y.deployments y.destructions (Keeps-refl y.service) h h.owned)
  | inr (a, found, e) ↦
      rw (e, perform)
        (Keeps-IsSound y _ y.deployments ((lab, a) ∷ y.destructions) (cancel-Keeps a y.service) h
          (((h.allocated lab.uuid a found).0, λ id f. h.distinct id lab.uuid a f found), h.owned))
]
perform-IsSound (run_destruction w n) y h = elim (Option-cases (take_out n y.destructions)) [
  | inl e ↦ rw (e, perform) h
  | inr (((lab, a), others), e) ↦
      let (own, owns) = take_out-All (Owns y.service) n y.destructions (lab, a) others e h.owned in
      elim (run_destroy-Removes w lab a y.service) [
        | inl removed ↦ rw (e, perform) (Removes-IsSound lab a y _ others removed own h owns)
        | inr kept ↦ rw (e, perform) (Keeps-IsSound y _ y.deployments others kept h owns)
      ]
]
perform-IsSound (start_node w c) y h =
    Keeps-IsSound y _ y.deployments y.destructions
      (start_node_command-Keeps w c.lab_id c.node_name c.user y.service) h h.owned
perform-IsSound (stop_node w c) y h =
    Keeps-IsSound y _ y.deployments y.destructions
      (stop_node_command-Keeps w c.lab_id c.node_name c.user y.service) h h.owned
perform-IsSound (restart_node w c) y h =
    Keeps-IsSound y _ y.deployments y.destructions
      (restart_node_command-Keeps w c.lab_id c.node_name c.user y.service) h h.owned
perform-IsSound (provider_event w name) y h =
    Keeps-IsSound y _ y.deployments y.destructions (on_provider_event-Keeps w name y.service) h
      h.owned
perform-IsSound (revival w deployed labs) y h =
    emit-IsSound _ _ (revive_instances-IsSound w deployed labs y h)
perform-IsSound (node_started path_match excluded reported l stream_error waited m) y h =
    Keeps-IsSound y _ y.deployments y.destructions
      (startup_listener-Keeps path_match excluded reported l stream_error waited y.service m) h
      h.owned

perform_all-IsSound :
    (actions : List Action) (y : System) → IsSound y → IsSound (perform_all actions y)
unfolding perform_all
perform_all-IsSound [] y h = h
perform_all-IsSound (a ∷ later) y h =
    perform_all-IsSound later (perform a y) (perform-IsSound a y h)

-- Whatever deployments, destructions, node commands, startup listeners, events of the provider and
-- revivals run, in any order and
-- with any answers of the provider, the storage and the database, and also where several of them wait
-- for the mutex of the same lab: the map of the service holds only instances that exist and are not
-- destroyed, no two labs share an instance, and every node of an instance is under its own name.
pub perform_all-start_system :
    (configs : Map String NodeKindConfig) (actions : List Action)
    → IsSound (perform_all actions (start_system configs))
perform_all-start_system configs actions =
    perform_all-IsSound actions (start_system configs) (start_system-IsSound configs)
