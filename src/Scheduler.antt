-- ===== src/Scheduler.antt =====
-- runtime/scheduler/scheduler.go: two queues of labs, filled by the lab events and emptied by the
-- loop of `Run`. `DeployLab` and `DestroyLab` run in goroutines of their own, so the model
-- records that they were started. `none` as a result is a Go panic.
pub mod Safety
pub mod Events
pub mod Due
pub mod Drain
pub mod Doubles
pub mod Tests
use antimony_backend.Base.{
  Eq, ◌==◌, nat_eq, string_eq, ==_refl, ltb, leb, nat_beq, if◌then◌else◌, ltb→lt, leb→le, ltb-of_lt,
  ltb-of_le, nat_beq_iff, Bool-cases, Option-cases, ◌>>=◌, length, get_elem?, take, drop, replicate,
  store, length-append, length-take, length-drop, length-replicate, take-append-drop, take_all,
  drop_all, drop-append, drop-drop, get_elem?-some, Stores, store-some, All, In, All-In, All-of_In,
  All-imp, lookup, put, delete, Map, lookup-put, lookup-delete, lookup-put_self, lookup-put_ne,
  lookup-delete_self, lookup-delete_ne, lookup-put-some, lookup-delete-some, ℕ, zero, suc, ◌+◌, ◌-◌,
  ◌*◌, ◌/◌, ◌%◌, ◌^◌, ◌≤◌, ◌<◌, min, String, ◌≡◌, refl, sym, ap, subst, ◌∙◌, ◌≢◌, ◌↔◌, ◌⊎◌, inl,
  inr, Bool, true, false, not, ◌&&◌, ◌||◌, Option, none, some, List, [], ◌∷◌, ◌++◌, map, append-nil,
  append_assoc, arith,
}
use antimony_backend.Entities.{Lab}
use antimony_backend.Schedule
use antimony_backend.Schedule.{
  Schedule, Pointer, create_schedule, schedule_item, reschedule, remove, try_pop_at,
}

pub data Command : Type 0 where
  deploy : Lab → Command
  destroy : Lab → Command

pub record Scheduler : Type 0 where
  pub deployment_schedule : Schedule Lab
  pub destruction_schedule : Schedule Lab
  pub next_address : ℕ  -- the heap: addresses from here on are unused
  pub started : List Command
  pub ticks : ℕ  -- uint64

-- The key and time getters of `CreateScheduler`.
abbrev pub lab_key : Lab → String
lab_key lab = lab.uuid

abbrev pub deployment_time : Lab → Option ℕ
deployment_time lab = some lab.start_time

abbrev pub destruction_time : Lab → Option ℕ
destruction_time lab = lab.end_time

unfoldable pub create_scheduler : Scheduler
create_scheduler = record {
  deployment_schedule = create_schedule;
  destruction_schedule = create_schedule;
  next_address = 0;
  started = [];
  ticks = 0;
}

-- `copyLab`: a new address with the same value.
abbrev pub copy_lab : Scheduler → Lab → Scheduler × Pointer Lab
copy_lab s lab = (
  record s { next_address = s.next_address + 1 },
  record { address = s.next_address; value = lab },
)

-- The four ways in which the handlers and the loop use a queue with a copy of the lab.
unfoldable pub schedule_deployment : Scheduler → Lab → Scheduler
schedule_deployment s lab =
    let (s', copied) = copy_lab s lab in
    record s' {
      deployment_schedule = schedule_item lab_key deployment_time s.deployment_schedule copied;
    }

unfoldable pub schedule_destruction : Scheduler → Lab → Scheduler
schedule_destruction s lab =
    let (s', copied) = copy_lab s lab in
    record s' {
      destruction_schedule = schedule_item lab_key destruction_time s.destruction_schedule copied;
    }

unfoldable pub reschedule_deployment : Scheduler → Lab → Option Scheduler
reschedule_deployment s lab =
    let (s', copied) = copy_lab s lab in
    do
      queue ← reschedule lab_key deployment_time s.deployment_schedule copied
      some (record s' { deployment_schedule = queue })

unfoldable pub reschedule_destruction : Scheduler → Lab → Option Scheduler
reschedule_destruction s lab =
    let (s', copied) = copy_lab s lab in
    do
      queue ← reschedule lab_key destruction_time s.destruction_schedule copied
      some (record s' { destruction_schedule = queue })

unfoldable pub remove_deployment : Scheduler → Lab → Option Scheduler
remove_deployment s lab = do
  queue ← remove lab_key deployment_time s.deployment_schedule lab.uuid
  some (record s { deployment_schedule = queue })

unfoldable pub remove_destruction : Scheduler → Lab → Option Scheduler
remove_destruction s lab = do
  queue ← remove lab_key destruction_time s.destruction_schedule lab.uuid
  some (record s { destruction_schedule = queue })

unfoldable pub on_lab_created : Scheduler → Lab → Scheduler
on_lab_created s lab = schedule_destruction (schedule_deployment s lab) lab

unfoldable pub on_lab_deleted : Scheduler → Lab → Option Scheduler
on_lab_deleted s lab = do s' ← remove_deployment s lab; remove_destruction s' lab

unfoldable pub on_lab_moved : Scheduler → Lab → Option Scheduler
on_lab_moved s lab = do s' ← reschedule_deployment s lab; reschedule_destruction s' lab

unfoldable pub on_lab_manually_deployed : Scheduler → Lab → Option Scheduler
on_lab_manually_deployed s lab = do s' ← remove_deployment s lab; some (schedule_destruction s' lab)

unfoldable pub on_lab_restored : Scheduler → Lab → Scheduler
on_lab_restored s lab = schedule_destruction s lab

start_command : Scheduler → Command → Scheduler
start_command s c = record s { started = s.started ++ c ∷ [] }

-- The first half of a round of `Run`: a due lab is deployed, and queued for its destruction.
unfoldable pub deploy_due : Scheduler → ℕ → Scheduler
unfolding start_command
deploy_due s now =
    let (popped, queue) = try_pop_at lab_key deployment_time s.deployment_schedule now in
    let s' : Scheduler = record s { deployment_schedule = queue } in
    elim popped [
      | none ↦ s'
      | some due ↦ schedule_destruction (start_command s' (deploy due.value)) due.value
    ]

-- The second half: a lab whose end has come is destroyed.
unfoldable pub destroy_due : Scheduler → ℕ → Scheduler
unfolding start_command
destroy_due s now =
    let (popped, queue) = try_pop_at lab_key destruction_time s.destruction_schedule now in
    let s' : Scheduler = record s { destruction_schedule = queue } in
    elim popped [ none ↦ s' | some due ↦ start_command s' (destroy due.value) ]

-- One round of the loop of `Run`.
unfoldable pub tick : Scheduler → ℕ → Scheduler
tick s now =
    let s' = destroy_due (deploy_due s now) now in record s' { ticks = (s'.ticks + 1) % 2 ^ 64 }

pub data Event : Type 0 where
  created deleted moved manually_deployed restored : Lab → Event
  ticked : ℕ → Event

unfoldable pub step : Scheduler → Event → Option Scheduler
step s (created lab) = some (on_lab_created s lab)
step s (deleted lab) = on_lab_deleted s lab
step s (moved lab) = on_lab_moved s lab
step s (manually_deployed lab) = on_lab_manually_deployed s lab
step s (restored lab) = some (on_lab_restored s lab)
step s (ticked now) = some (tick s now)

unfoldable pub run : Scheduler → List Event → Option Scheduler
run s [] = some s
run s (e ∷ es) = do s' ← step s e; run s' es
