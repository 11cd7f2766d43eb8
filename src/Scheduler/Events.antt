-- ===== src/Scheduler/Events.antt =====
-- No event makes the scheduler panic, whatever came before.
use antimony_backend.Base.{nat_eq, string_eq, ◌>>=◌, ℕ, refl, Option, none, some, List, [], ◌∷◌}
use antimony_backend.Entities.{Lab}
use antimony_backend.Schedule.{Pointer, try_pop_at}
use antimony_backend.Scheduler.Safety.{
  IsSafe, Keeps, create_scheduler-IsSafe, schedule_deployment-IsSafe, schedule_destruction-IsSafe,
  reschedule_deployment-Keeps, reschedule_destruction-Keeps, remove_deployment-Keeps,
  remove_destruction-Keeps, IsOwned-try_pop_at,
}
use antimony_backend.Scheduler.{
  Scheduler, Event, created, deleted, moved, manually_deployed, restored, ticked, lab_key,
  deployment_time, destruction_time, create_scheduler, on_lab_created, on_lab_deleted, on_lab_moved,
  on_lab_manually_deployed, on_lab_restored, deploy_due, destroy_due, tick, step, run,
}

-- Two steps, one after the other.
Keeps-bind :
    (r : Option Scheduler) (f : Scheduler → Option Scheduler)
    → Keeps r
    → ((s : Scheduler) → IsSafe s → Keeps (f s))
    → Keeps (r >>= f)
Keeps-bind r f (s, returns, safe) k = rw returns (k s safe)

-- What a pop took, and the queue that it left.
popped_cases :
    (o : Option (Pointer Lab)) (s : Scheduler) (f : Lab → Scheduler)
    → IsSafe s
    → ((lab : Lab) → IsSafe (f lab))
    → IsSafe (elim o [ none ↦ s | some due ↦ f due.value ])
popped_cases none s f h k = h
popped_cases (some due) s f h k = k due.value

pub deploy_due-IsSafe : (s : Scheduler) (now : ℕ) → IsSafe s → IsSafe (deploy_due s now)
unfolding deploy_due
deploy_due-IsSafe s now h =
    popped_cases (try_pop_at lab_key deployment_time s.deployment_schedule now).0 _ _ popped (λ lab.
      schedule_destruction-IsSafe _ lab
        (record { deployments = popped.deployments; destructions = popped.destructions }))
  where
    popped : IsSafe (record s {
      deployment_schedule = (try_pop_at lab_key deployment_time s.deployment_schedule now).1;
    })
    popped = record {
      deployments =
          IsOwned-try_pop_at deployment_time s.next_address s.deployment_schedule now h.deployments;
      destructions = h.destructions;
    }

pub destroy_due-IsSafe : (s : Scheduler) (now : ℕ) → IsSafe s → IsSafe (destroy_due s now)
unfolding destroy_due
destroy_due-IsSafe s now h =
    popped_cases (try_pop_at lab_key destruction_time s.destruction_schedule now).0 _ _ popped
      (λ lab. record { deployments = popped.deployments; destructions = popped.destructions })
  where
    popped : IsSafe (record s {
      destruction_schedule = (try_pop_at lab_key destruction_time s.destruction_schedule now).1;
    })
    popped = record {
      deployments = h.deployments;
      destructions =
          IsOwned-try_pop_at destruction_time s.next_address s.destruction_schedule now
            h.destructions;
    }

pub tick-IsSafe : (s : Scheduler) (now : ℕ) → IsSafe s → IsSafe (tick s now)
unfolding tick
tick-IsSafe s now h =
    let safe = destroy_due-IsSafe (deploy_due s now) now (deploy_due-IsSafe s now h) in
    record { deployments = safe.deployments; destructions = safe.destructions }

-- Every event, handled by a safe scheduler, returns a safe scheduler.
pub step-Keeps : (s : Scheduler) (e : Event) → IsSafe s → Keeps (step s e)
unfolding step on_lab_created on_lab_deleted on_lab_moved on_lab_manually_deployed on_lab_restored
step-Keeps s (created lab) h =
    (_, refl, schedule_destruction-IsSafe _ lab (schedule_deployment-IsSafe s lab h))
step-Keeps s (deleted lab) h =
    Keeps-bind _ _ (remove_deployment-Keeps s lab h) (λ t k. remove_destruction-Keeps t lab k)
step-Keeps s (moved lab) h =
    Keeps-bind _ _ (reschedule_deployment-Keeps s lab h)
      (λ t k. reschedule_destruction-Keeps t lab k)
step-Keeps s (manually_deployed lab) h =
    Keeps-bind _ _ (remove_deployment-Keeps s lab h)
      (λ t k. (_, refl, schedule_destruction-IsSafe t lab k))
step-Keeps s (restored lab) h = (_, refl, schedule_destruction-IsSafe s lab h)
step-Keeps s (ticked now) h = (_, refl, tick-IsSafe s now h)

run-Keeps : (s : Scheduler) (es : List Event) → IsSafe s → Keeps (run s es)
unfolding run
run-Keeps s [] h = (s, refl, h)
run-Keeps s (e ∷ es) h = Keeps-bind _ _ (step-Keeps s e h) (λ t k. run-Keeps t es k)

-- A new scheduler handles any events in any order without a panic; then both queues are sorted by
-- time, hold no item without a time and no pointer twice, and their maps lead to queued pointers.
pub run-create_scheduler-Keeps : (es : List Event) → Keeps (run create_scheduler es)
run-create_scheduler-Keeps es = run-Keeps create_scheduler es create_scheduler-IsSafe
