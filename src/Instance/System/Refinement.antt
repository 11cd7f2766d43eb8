-- ===== src/Instance/System/Refinement.antt =====
-- Every step of the instance service is a step of the registry of running labs.
use antimony_backend.Base.{
  ◌==◌, nat_eq, string_eq, if◌then◌else◌, Option-cases, All-imp, lookup, Map, ℕ, String, ◌≡◌, refl,
  ap, ◌∙◌, inl, inr, Bool, true, false, List, [], ◌∷◌,
}
use antimony_backend.Entities.{Lab}
use antimony_backend.Deployment.{InspectContainer}
use antimony_backend.Errors.{err_lab_not_running}
use antimony_backend.Instance.Frames.{not_running_lem}
use antimony_backend.Errors.Result.{Result, ok, failed}
use antimony_backend.Instance.{Service, World, emit, is_running, cancel_deployment}
use antimony_backend.Instance.Deploy.{Handle, begin_deploy, run_deploy}
use antimony_backend.Instance.Destroy.{begin_destroy, run_destroy}
use antimony_backend.Instance.Revive.{revive, revive_instances, revive_lab}
use antimony_backend.Instance.System.{
  System, Action, take_out, queue_deployment, queue_destruction, perform, begin_deployment,
  run_deployment, begin_destruction, run_destruction, start_node, stop_node, restart_node,
  provider_event, revival, node_started,
}
use antimony_backend.Instance.System.Deployments.{run_deploy-Keeps}
use antimony_backend.Instance.System.Nodes.{
  start_node_command-Keeps, stop_node_command-Keeps, restart_node_command-Keeps,
  startup_listener-Keeps,
}
use antimony_backend.Instance.System.Beginning.{begin_deploy-Adds}
use antimony_backend.Instance.System.Removing.{run_destroy-Removes}
use antimony_backend.Instance.System.Reviving.{on_provider_event-Keeps, revive_lab-Adds}
use antimony_backend.Instance.System.Registry.{
  Change, starts, ends, apply, apply_all, Revives, Allows, Refines, Keeps-view, Adds-view,
  Removes-view,
}

queue_deployment-service :
    (y : System) (lab : Lab) (r : Result Handle × Service)
    → (queue_deployment y lab r).service ≡ r.1
unfolding queue_deployment
queue_deployment-service y lab (failed e, s) = refl
queue_deployment-service y lab (ok h, s) = refl

deployment-Refines :
    (w : World) (lab : Lab) (y : System)
    → Refines y (begin_deployment w lab) (perform (begin_deployment w lab) y)
unfolding Refines Allows perform apply_all
deployment-Refines w lab y =
    let r = begin_deploy w lab y.service in
    let same = queue_deployment-service y lab r in
    elim (begin_deploy-Adds w lab y.service) [
      | inl (added, missing) ↦ (
        starts lab.uuid ∷ [],
        inr (refl, (not_running_lem y.service lab.uuid missing).0),
        λ j. ap (λ s. is_running s j) same ∙ Adds-view added j,
      )
      | inr kept ↦ ([], inl refl, λ j. ap (λ s. is_running s j) same ∙ Keeps-view kept j)
    ]

destruction-Refines :
    (w : World) (n : ℕ) (y : System)
    → Refines y (run_destruction w n) (perform (run_destruction w n) y)
unfolding Refines Allows perform apply_all
destruction-Refines w n y = elim (Option-cases (take_out n y.destructions)) [
  | inl e ↦
      let same : perform (run_destruction w n) y ≡ y = rw (e, perform) refl in
      ([], inl refl, λ j. ap (λ z. is_running z.service j) same)
  | inr (((lab, a), others), e) ↦
      let t = (run_destroy w lab a y.service).1 in
      let after : perform (run_destruction w n) y
          ≡ record y { service = t; destructions = others } =
        rw (e, perform) refl in
      elim (run_destroy-Removes w lab a y.service) [
        | inl removed ↦ (
          ends lab.uuid ∷ [],
          inr (lab, a, others, e, refl),
          λ j. ap (λ z. is_running z.service j) after ∙ Removes-view removed j,
        )
        | inr kept ↦ ([], inl refl, λ j. ap (λ z. is_running z.service j) after ∙ Keeps-view kept j)
      ]
]

deployment_run-Refines :
    (w : World) (n : ℕ) (y : System)
    → Refines y (run_deployment w n) (perform (run_deployment w n) y)
unfolding Refines Allows perform apply_all
deployment_run-Refines w n y = elim (Option-cases (take_out n y.deployments)) [
  | inl e ↦
      let same : perform (run_deployment w n) y ≡ y = rw (e, perform) refl in
      ([], refl, λ j. ap (λ z. is_running z.service j) same)
  | inr (((lab, h), others), e) ↦
      let after : perform (run_deployment w n) y
          ≡ record y { service = (run_deploy w lab h y.service).1; deployments = others } =
        rw (e, perform) refl in
      (
        [],
        refl,
        λ j.
            ap (λ z. is_running z.service j) after
            ∙ Keeps-view (run_deploy-Keeps w lab h y.service) j,
      )
]

begin_destruction-Refines :
    (lab : Lab) (y : System) → Refines y (begin_destruction lab) (perform (begin_destruction lab) y)
unfolding Refines Allows perform apply_all queue_destruction cancel_deployment is_running
    begin_destroy
begin_destruction-Refines lab y = elim (Option-cases (lookup lab.uuid y.service.instances)) [
  | inl e ↦
      let refused : begin_destroy lab y.service ≡ (failed err_lab_not_running, y.service) =
        rw (e, begin_destroy) refl in
      ([], refl, λ j. ap (λ r. is_running (queue_destruction y lab r).service j) refused)
  | inr (a, e) ↦
      let begun : begin_destroy lab y.service ≡ (ok a, cancel_deployment a y.service) =
        rw (e, begin_destroy) refl in
      ([], refl, λ j. ap (λ r. is_running (queue_destruction y lab r).service j) begun)
]

apply-same :
    (c : Change) (r r' : String → Bool)
    → ((j : String) → r j ≡ r' j)
    → (j : String) → apply c r j ≡ apply c r' j
unfolding apply
apply-same (starts id) r r' h j = ap (λ b. if id == j then true else b) (h j)
apply-same (ends id) r r' h j = ap (λ b. if id == j then false else b) (h j)

same_changes :
    (cs : List Change) (r r' : String → Bool)
    → ((j : String) → r j ≡ r' j)
    → (j : String) → apply_all cs r j ≡ apply_all cs r' j
unfolding apply_all
same_changes [] r r' h j = h j
same_changes (c ∷ cs) r r' h j = same_changes cs (apply c r) (apply c r') (apply-same c r r' h) j

Revives-later :
    (lab : Lab) (labs : List Lab) (cs : List Change) → Revives labs cs → Revives (lab ∷ labs) cs
unfolding Revives
Revives-later lab labs cs h = All-imp _ _ cs (λ c (l, m, e). (l, inr m, e)) h

revive_instances-Revives :
    (w : World) (deployed : Map String (List InspectContainer)) (labs : List Lab) (s : Service)
    → (cs : List Change) × Revives labs cs
      × ((j : String)
          → is_running (revive_instances w deployed labs s) j ≡ apply_all cs (is_running s) j)
unfolding revive_instances Revives apply_all
revive_instances-Revives w deployed [] s = ([], tt, λ j. refl)
revive_instances-Revives w deployed (lab ∷ labs) s =
    let t = revive_lab w deployed lab s in
    let (cs, allowed, view) = revive_instances-Revives w deployed labs t in
    elim (revive_lab-Adds w deployed lab s) [
      | inl added ↦ (
        starts lab.uuid ∷ cs,
        ((lab, inl refl, refl), Revives-later lab labs cs allowed),
        λ j. view j ∙ same_changes cs _ _ (Adds-view added) j,
      )
      | inr kept ↦ (
        cs,
        Revives-later lab labs cs allowed,
        λ j. view j ∙ same_changes cs _ _ (Keeps-view kept) j,
      )
    ]

-- Every step of the service, whatever the other parts answer, is a step of the registry of running
-- labs: the begin of a deployment may start the lab, if it was not running; a destruction that runs
-- may end its lab; a revival may start labs of the list; all other steps change nothing.
pub perform-Refines : (a : Action) (y : System) → Refines y a (perform a y)
unfolding Refines Allows apply_all perform revive emit is_running
perform-Refines (begin_deployment w lab) y = deployment-Refines w lab y
perform-Refines (run_deployment w n) y = deployment_run-Refines w n y
perform-Refines (begin_destruction lab) y = begin_destruction-Refines lab y
perform-Refines (run_destruction w n) y = destruction-Refines w n y
perform-Refines (start_node w c) y =
    ([], refl, Keeps-view (start_node_command-Keeps w c.lab_id c.node_name c.user y.service))
perform-Refines (stop_node w c) y =
    ([], refl, Keeps-view (stop_node_command-Keeps w c.lab_id c.node_name c.user y.service))
perform-Refines (restart_node w c) y =
    ([], refl, Keeps-view (restart_node_command-Keeps w c.lab_id c.node_name c.user y.service))
perform-Refines (provider_event w name) y =
    ([], refl, Keeps-view (on_provider_event-Keeps w name y.service))
perform-Refines (revival w deployed labs) y = revive_instances-Revives w deployed labs y.service
perform-Refines (node_started path_match excluded reported l stream_error waited m) y = (
  [],
  refl,
  Keeps-view
      (startup_listener-Keeps path_match excluded reported l stream_error waited y.service m),
)
