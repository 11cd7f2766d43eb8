-- ===== src/Scheduler/Tests.antt =====
-- A lab that is created, deployed on time and deleted.
use antimony_backend.Base.{
  nat_eq, string_eq, All, In, lookup, put, ◌≡◌, refl, subst, true, false, none, some, [], ◌∷◌,
  arith,
}
use antimony_backend.Entities.{User, Collection, Topology, Lab}
use antimony_backend.Schedule.{create_schedule, schedule_item, search_index, is_scheduled}
use antimony_backend.Scheduler.Safety.{IsSafe, Keeps, create_scheduler-IsSafe}
use antimony_backend.Scheduler.Events.{step-Keeps, run-create_scheduler-Keeps}
use antimony_backend.Scheduler.Due.{StartsDue, tick-StartsDue}
use antimony_backend.Scheduler.Drain.{IsServed, run-serves}
use antimony_backend.Scheduler.Doubles.{deleted_lab_stays_queued}
use antimony_backend.Scheduler.{
  Scheduler, created, deleted, ticked, lab_key, destruction_time, schedule_deployment,
  schedule_destruction, create_scheduler, on_lab_created, tick, step, run,
}

abbrev owner : User
owner = record { uuid = "u"; sub = "u"; name = "u" }

abbrev shelf : Collection
shelf = record {
  uuid = "c";
  name = "c";
  public_write = true;
  public_deploy = true;
  creator = owner;
}

abbrev plan : Topology
plan = record {
  uuid = "t";
  name = "t";
  sync_url = "";
  collection = shelf;
  creator = owner;
  last_deploy_failed = false;
}

abbrev lab : Lab
lab = record {
  uuid = "l";
  name = "l";
  start_time = 5;
  end_time = some 9;
  topology = plan;
  collection = shelf;
  creator = owner;
  instance_name = "l";
  topology_definition = none;
  topology_annotations = none;
}

abbrev planned : Scheduler
planned = record {
  deployment_schedule = record {
    schedule = (record { address = 0; value = lab }) ∷ [];
    schedule_map = ("l", record { address = 0; value = lab }) ∷ [];
  };
  destruction_schedule = record {
    schedule = (record { address = 1; value = lab }) ∷ [];
    schedule_map = ("l", record { address = 1; value = lab }) ∷ [];
  };
  next_address = 2;
  started = [];
  ticks = 0;
}

created_is_planned : step create_scheduler (created lab) ≡ some planned
unfolding step on_lab_created schedule_deployment schedule_destruction create_scheduler
    create_schedule schedule_item search_index put
created_is_planned = refl

planned-IsSafe : IsSafe planned
planned-IsSafe =
    let (s, returns, safe) = step-Keeps create_scheduler (created lab) create_scheduler-IsSafe in
    subst IsSafe (ground (arith, returns, created_is_planned)) safe

run-create_scheduler-Keeps_example :
    Keeps (run create_scheduler (created lab ∷ ticked 5 ∷ deleted lab ∷ []))
run-create_scheduler-Keeps_example =
    run-create_scheduler-Keeps (created lab ∷ ticked 5 ∷ deleted lab ∷ [])

tick-StartsDue_example : StartsDue 5 planned (tick planned 5)
tick-StartsDue_example = tick-StartsDue planned 5 planned-IsSafe

run-serves_example :
    (s : Scheduler) × (run planned (ticked 6 ∷ []) ≡ some s)
    × All (IsServed 6 s) planned.deployment_schedule.schedule
run-serves_example = run-serves 1 6 planned planned-IsSafe (omega arith)

deleted_lab_stays_queued_example :
    (s : Scheduler) × (run planned (ticked 5 ∷ deleted lab ∷ []) ≡ some s)
    × In (record { address = 1; value = lab }) s.destruction_schedule.schedule
    × (is_scheduled lab_key destruction_time s.destruction_schedule "l" ≡ false)
unfolding lookup
deleted_lab_stays_queued_example =
    deleted_lab_stays_queued planned 5 9 (record { address = 0; value = lab })
      (record { address = 1; value = lab }) [] planned-IsSafe refl (omega arith) refl (omega arith)
      (omega arith) refl
