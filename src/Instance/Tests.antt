-- ===== src/Instance/Tests.antt =====
-- The lab of Instance.Fixtures is deployed, commanded and destroyed.
use antimony_backend.Base.{
  nat_eq, string_eq, lookup, suc, ◌*◌, ◌≡◌, refl, sym, ap, ◌≢◌, ◌↔◌, ◌⊎◌, inr, true, false, none,
  some, [], ◌∷◌, arith,
}
use antimony_backend.Deployment.{NodeState}
use antimony_backend.Policy.Text.{text_beq, contains_func}
use antimony_backend.Auth.{AuthenticatedUser}
use antimony_backend.Errors.{Error, err_provider}
use antimony_backend.Errors.Result.{ok, failed}
use antimony_backend.Instance.{World, is_canceled, is_running, get_instance_node}
use antimony_backend.Instance.Deploy.{run_deploy, begin_deploy, open_context}
use antimony_backend.Instance.Destroy.{begin_destroy, destroy_lab, run_destroy}
use antimony_backend.Instance.Commands.{
  may_command, find_lab, start_node_command, stop_node_command, restart_node_command,
}
use antimony_backend.Instance.Lookup.{
  select, with_lab, instance_of, is_denied, in_collections, read_node, get_instance_node_of,
}
use antimony_backend.Instance.Revive.{on_provider_event}
use antimony_backend.Instance.ProviderEvents.{inspected, on_provider_event-first}
use antimony_backend.Instance.Monitor.{poll}
use antimony_backend.Instance.Monitor.Polling.{HasDistinctKeys, lookup-poll}
use antimony_backend.Instance.Startup.{wait_for_node_started}
use antimony_backend.Instance.Startup.Waiting.{StopsAt, wait_for_node_started-StopsAt}
use antimony_backend.Instance.Outcomes.{provider_answer, Deployed, DeployFailed, run_deploy-outcome}
use antimony_backend.Instance.Destructions.{Destroyed, DestroyFailed, destroy_lab-outcome}
use antimony_backend.Instance.Races.{begin_deploy-superseded, second_destroy-loses}
use antimony_backend.Instance.NodeGuards.{IsOpen, IsCarriedOut, node_command-none}
use antimony_backend.Instance.StuckNodes.{failed_stop-stuck}
use antimony_backend.Instance.Access.{AnswersById, IsVisible, get_instance_node_of-IsVisible}
use antimony_backend.Instance.System.{perform, start_system, perform_all, begin_deployment}
use antimony_backend.Instance.System.Sound.{IsSound}
use antimony_backend.Instance.System.Registry.{Refines}
use antimony_backend.Instance.System.Refinement.{perform-Refines}
use antimony_backend.Instance.System.Runs.{perform_all-start_system}
use antimony_backend.Instance.Fixtures.{
  lab, world, node, service_at, service, handle, member, target, actions, begun, after_stop, query,
  probing, monitored, monitor, two_labs, stopped_world,
}

perform_all-start_system_example : IsSound (perform_all actions (start_system []))
perform_all-start_system_example = perform_all-start_system [] actions

perform-Refines_example :
    Refines
      (start_system [])
      (begin_deployment world lab)
      (perform (begin_deployment world lab) (start_system []))
perform-Refines_example = perform-Refines (begin_deployment world lab) (start_system [])

run_deploy-outcome_example :
    ((provider_answer world lab handle service ≡ none)
      × ((world.inspect_lab "file" "l").1 ≡ none)
      × ((run_deploy world lab handle service).0 ≡ none)
      × Deployed world lab handle service (run_deploy world lab handle service).1)
    ⊎ (((provider_answer world lab handle service ≢ none)
          ⊎ ((world.inspect_lab "file" "l").1 ≢ none))
        × ((run_deploy world lab handle service).0 ≡ some err_provider)
        × DeployFailed lab 0 (run_deploy world lab handle service).1)
unfolding is_canceled
run_deploy-outcome_example =
    run_deploy-outcome world lab handle service refl refl refl refl (λ n. refl)

destroy_lab-outcome_example :
    ((world.destroy (service.heap 0).topology_file lab.instance_name ≡ none)
      × ((destroy_lab world lab service).0 ≡ none)
      × Destroyed lab 0 (destroy_lab world lab service).1)
    ⊎ ((refusal : Error) × (world.destroy (service.heap 0).topology_file lab.instance_name
          ≡ some refusal)
        × ((destroy_lab world lab service).0 ≡ some err_provider)
        × DestroyFailed lab 0 service (destroy_lab world lab service).1)
unfolding lookup
destroy_lab-outcome_example = destroy_lab-outcome world lab 0 service refl

begin_deploy-superseded_example :
    (run_deploy world lab handle (begin_destroy lab begun).1 ≡ (none, (begin_destroy lab begun).1))
    × (run_deploy world lab handle (begin_deploy world lab begun).1
        ≡ (none, (begin_deploy world lab begun).1))
unfolding begin_deploy open_context lookup
begin_deploy-superseded_example =
    begin_deploy-superseded world world world lab handle service begun refl

second_destroy-loses_example :
    (is_running (service_at 1) "l" ≡ true)
    × (is_running (run_destroy world lab 0 (service_at 1)).1 "l" ≡ false)
    × ((run_destroy world lab 0 (service_at 1)).1.heap 1 ≡ (service_at 1).heap 1)
unfolding lookup
second_destroy-loses_example =
    second_destroy-loses world lab 0 1 (service_at 1) refl (λ e. absurd (omega (arith, e))) refl
      refl

node_command-none_example :
    (((start_node_command world "l" (some "a") member service).0 ≡ none)
      ↔ IsCarriedOut world "l" "a" member service (λ x. x ≡ NodeState.stopped) world.start_node)
    × (((stop_node_command world "l" (some "a") member service).0 ≡ none)
        ↔ IsCarriedOut world "l" "a" member service
            (λ x. (x ≡ NodeState.starting) ⊎ (x ≡ NodeState.running))
            world.stop_node)
    × (((restart_node_command world "l" (some "a") member service).0 ≡ none)
        ↔ IsCarriedOut world "l" "a" member service
            (λ x. (x ≡ NodeState.stopped) ⊎ (x ≡ NodeState.running))
            world.restart_node)
node_command-none_example = node_command-none world "l" "a" member service

target-IsOpen : IsOpen world "l" "a" member service target
unfolding find_lab may_command lookup get_instance_node text_beq
target-IsOpen = record {
  lab_found = refl;
  allowed = inr refl;
  running = refl;
  idle = refl;
  node_found = refl;
  restartable = refl;
}

failed_stop-stuck_example :
    ((stop_node_command world "l" (some "a") member service).0 ≡ some err_provider)
    × ((later : World) (other : AuthenticatedUser)
        → find_lab later "l" ≡ ok lab
        → ((start_node_command later "l" (some "a") other after_stop).0 ≢ none)
          × ((stop_node_command later "l" (some "a") other after_stop).0 ≢ none)
          × ((restart_node_command later "l" (some "a") other after_stop).0 ≢ none))
failed_stop-stuck_example =
    failed_stop-stuck world "l" "a" member service target err_provider target-IsOpen (inr refl) refl

world-AnswersById : AnswersById world
unfolding AnswersById
world-AnswersById id found e = ap (λ r. elim r [ failed _ ↦ id | ok l ↦ l.uuid ]) (sym e)

get_instance_node_of-IsVisible_example : IsVisible service member node
unfolding get_instance_node_of select with_lab instance_of is_denied in_collections contains_func
    text_beq read_node lookup
get_instance_node_of-IsVisible_example =
    get_instance_node_of-IsVisible world service query member node "l" world-AnswersById refl

wait_for_node_started-StopsAt_example : StopsAt probing 0 (wait_for_node_started probing 300 0)
wait_for_node_started-StopsAt_example =
    wait_for_node_started-StopsAt probing (λ i. 2 * suc i) (λ i. omega arith)
      (λ i h. ground (arith, h))

lookup-poll_example :
    (lookup "id" (poll (λ n. false) monitor).monitored_nodes ≡ some monitored)
    ↔ ((lookup "id" monitor.monitored_nodes ≡ some monitored) × (false ≡ true))
unfolding HasDistinctKeys lookup
lookup-poll_example = lookup-poll (λ n. false) monitor "id" (refl, tt) monitored

on_provider_event-first_example :
    (lookup "a" ((on_provider_event stopped_world "a" two_labs).heap 1).nodes
      ≡ some (inspected (stopped_world.inspect_node "file" "l" "a") node))
    × ((on_provider_event stopped_world "a" two_labs).heap 0 ≡ two_labs.heap 0)
unfolding lookup
on_provider_event-first_example =
    on_provider_event-first stopped_world "a" "m" 1 node [] (("l", 0) ∷ []) two_labs "a" 0 refl tt
      refl (λ e. absurd (cc e)) (λ e. absurd (omega (arith, e)))
