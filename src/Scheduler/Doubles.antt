-- ===== src/Scheduler/Doubles.antt =====
-- A lab with an end time is queued for destruction when it is created and again when it is
-- deployed, so that one of the two entries outlives the lab's removal.
use antimony_backend.Base.{
  nat_eq, string_eq, All, In, lookup, ℕ, ◌≤◌, ◌<◌, ◌≡◌, ap, ◌∙◌, false, some, List, [], ◌∷◌, arith,
}
use antimony_backend.Entities.{Lab}
use antimony_backend.Schedule.{Pointer, schedule_item, is_scheduled, try_pop_at}
use antimony_backend.Schedule.Order.{seconds}
use antimony_backend.Schedule.Exact.{try_pop_at_due, try_pop_at_later}
use antimony_backend.Schedule.Members.{All-schedule_item}
use antimony_backend.Scheduler.Due.{seconds_of}
use antimony_backend.Scheduler.Events.{tick-IsSafe}
use antimony_backend.Schedule.Ghosts.{ghost}
use antimony_backend.Scheduler.Safety.{IsSafe, IsOwned-remove, fresh}
use antimony_backend.Scheduler.{
  Scheduler, deleted, ticked, lab_key, deployment_time, destruction_time, schedule_destruction,
  deploy_due, destroy_due, remove_deployment, remove_destruction, on_lab_deleted, tick, step, run,
}

module _ (s : Scheduler) (now : ℕ) (q : Pointer Lab) (rest : List (Pointer Lab)) where
  abbrev copied : Pointer Lab
  copied = record { address = s.next_address; value = q.value }

  destruction_schedule-deploy_due :
      s.deployment_schedule.schedule ≡ q ∷ rest
      → q.value.start_time ≤ now
      → (deploy_due s now).destruction_schedule
        ≡ schedule_item lab_key destruction_time s.destruction_schedule copied
  unfolding deploy_due schedule_destruction
  destruction_schedule-deploy_due e due =
      rw (try_pop_at_due lab_key deployment_time s.deployment_schedule now q rest e due, deploy_due)

  destruction_schedule-destroy_due :
      (u : Scheduler)
      → (destroy_due u now).destruction_schedule
        ≡ (try_pop_at lab_key destruction_time u.destruction_schedule now).1
  unfolding destroy_due
  destruction_schedule-destroy_due u = ground arith

  destruction_schedule-tick :
      (t : ℕ)
      → IsSafe s
      → s.deployment_schedule.schedule ≡ q ∷ rest
      → q.value.start_time ≤ now
      → q.value.end_time ≡ some t
      → now < t
      → All (λ r. now < seconds lab_key destruction_time r) s.destruction_schedule.schedule
      → (tick s now).destruction_schedule
        ≡ schedule_item lab_key destruction_time s.destruction_schedule copied
  unfolding tick
  destruction_schedule-tick t h e due end early later =
      destruction_schedule-destroy_due (deploy_due s now)
      ∙ ap (λ r. r.1)
          (try_pop_at_later lab_key destruction_time (deploy_due s now).destruction_schedule now
            none_due)
      ∙ queued
    where
      queued :
          (deploy_due s now).destruction_schedule
          ≡ schedule_item lab_key destruction_time s.destruction_schedule copied
      queued = destruction_schedule-deploy_due e due

      none_due :
          All
            (λ r. now < seconds lab_key destruction_time r)
            (deploy_due s now).destruction_schedule.schedule
      none_due = rw queued (
          All-schedule_item lab_key destruction_time _ s.destruction_schedule copied
            h.destructions.valid (omega (arith, ap seconds_of end)) later)

-- In a safe scheduler, let a lab that is queued for destruction be the next to deploy, and be
-- deployed by a round of the loop before its own end and that of every lab queued for
-- destruction. If the lab is deleted then, neither event panics, the pointer that was queued
-- first stays in the destruction queue, and `IsScheduled` of the lab's key is false there.
pub deleted_lab_stays_queued :
    (s : Scheduler) (now t : ℕ) (q p : Pointer Lab) (rest : List (Pointer Lab))
    → IsSafe s
    → s.deployment_schedule.schedule ≡ q ∷ rest
    → q.value.start_time ≤ now
    → q.value.end_time ≡ some t
    → now < t
    → All (λ r. now < seconds lab_key destruction_time r) s.destruction_schedule.schedule
    → lookup q.value.uuid s.destruction_schedule.schedule_map ≡ some p
    → (s' : Scheduler) × (run s (ticked now ∷ deleted q.value ∷ []) ≡ some s')
      × In p s'.destruction_schedule.schedule
      × (is_scheduled lab_key destruction_time s'.destruction_schedule q.value.uuid ≡ false)
deleted_lab_stays_queued s now t q p rest h e due end early later held =
    let safe = tick-IsSafe s now h in
    let (d, removed_d, _) =
      IsOwned-remove deployment_time _ (tick s now).deployment_schedule q.value.uuid
        safe.deployments in
    let (r, removed_r, stays, unknown) =
      ghost lab_key destruction_time s.destruction_schedule p (copied s now q rest) t
        h.destructions.valid held end
        (fresh destruction_time s.next_address s.destruction_schedule h.destructions) in
    let twice = destruction_schedule-tick s now q rest t h e due end early later in
    (
      record (tick s now) { deployment_schedule = d; destruction_schedule = r },
      unfold run step on_lab_deleted remove_deployment remove_destruction in
          rw (removed_d, twice, removed_r),
      stays,
      unknown,
    )
