-- ===== src/Scheduler/Safety.antt =====
-- No event makes the scheduler panic, whatever came before.
use antimony_backend.Base.{
  nat_eq, string_eq, All, All-imp, ℕ, ◌+◌, ◌<◌, String, ◌≡◌, Option, some, arith,
}
use antimony_backend.Entities.{Lab}
use antimony_backend.Schedule.{
  Schedule, Pointer, create_schedule, schedule_item, reschedule, remove, try_pop_at,
}
use antimony_backend.Schedule.Invariant.{IsValid, IsFresh}
use antimony_backend.Schedule.Operations.{
  create_schedule-IsValid, schedule_item-IsValid, remove_key-IsValid, reschedule-IsValid,
  try_pop_at-IsValid,
}
use antimony_backend.Schedule.Members.{
  All-schedule_item, All-remove_key, All-reschedule, All-try_pop_at,
}
use antimony_backend.Scheduler.{
  Scheduler, lab_key, deployment_time, destruction_time, create_scheduler, schedule_deployment,
  schedule_destruction, reschedule_deployment, reschedule_destruction, remove_deployment,
  remove_destruction,
}

-- Addresses in use lie below the next unused one.
abbrev pub Below : ℕ → Pointer Lab → Type 0
Below n p = p.address < n

-- A queue that is valid and whose pointers lie below the unused addresses.
pub record IsOwned (time_getter : Lab → Option ℕ) (n : ℕ) (q : Schedule Lab) : Type 0 where
  pub valid : IsValid lab_key time_getter q
  pub below : All (Below n) q.schedule

pub record IsSafe (s : Scheduler) : Type 0 where
  pub deployments : IsOwned deployment_time s.next_address s.deployment_schedule
  pub destructions : IsOwned destruction_time s.next_address s.destruction_schedule

module _ (time_getter : Lab → Option ℕ) where
  IsOwned-mono :
      (n : ℕ) (q : Schedule Lab) → IsOwned time_getter n q → IsOwned time_getter (n + 1) q
  IsOwned-mono n q o = record {
    valid = o.valid;
    below = All-imp _ _ q.schedule (λ p (h : p.address < n). omega arith) o.below;
  }

  pub fresh : (n : ℕ) (q : Schedule Lab) → IsOwned time_getter n q → IsFresh n q.schedule
  fresh n q o =
      All-imp (Below n) _ q.schedule (λ p (h : p.address < n) e. absurd (omega arith)) o.below

  IsOwned-schedule_item :
      (n : ℕ) (q : Schedule Lab) (lab : Lab)
      → IsOwned time_getter n q
      → IsOwned time_getter
          (n + 1)
          (schedule_item lab_key time_getter q (record { address = n; value = lab }))
  IsOwned-schedule_item n q lab o = record {
    valid = schedule_item-IsValid lab_key time_getter q _ o.valid (fresh n q o);
    below =
        All-schedule_item lab_key time_getter (Below (n + 1)) q _ o.valid (omega arith)
          (IsOwned-mono n q o).below;
  }

  IsOwned-reschedule :
      (n : ℕ) (q : Schedule Lab) (lab : Lab)
      → IsOwned time_getter n q
      → (q' : Schedule Lab) × (reschedule lab_key time_getter q
            (record { address = n; value = lab })
          ≡ some q')
        × IsOwned time_getter (n + 1) q'
  IsOwned-reschedule n q lab o =
      let (q', returns, valid) =
        reschedule-IsValid lab_key time_getter q (record { address = n; value = lab }) o.valid
          (fresh n q o) in
      (
        q',
        returns,
        record {
          valid = valid;
          below =
              All-reschedule lab_key time_getter (Below (n + 1)) q q'
                (record { address = n; value = lab }) o.valid returns (omega arith)
                (IsOwned-mono n q o).below;
        },
      )

  pub IsOwned-remove :
      (n : ℕ) (q : Schedule Lab) (key : String)
      → IsOwned time_getter n q
      → (q' : Schedule Lab) × (remove lab_key time_getter q key ≡ some q')
        × IsOwned time_getter n q'
  unfolding remove
  IsOwned-remove n q key o =
      let (q', returns, valid, _) = remove_key-IsValid lab_key time_getter q key o.valid in
      (
        q',
        returns,
        record {
          valid = valid;
          below = All-remove_key lab_key time_getter (Below n) q q' key o.valid returns o.below;
        },
      )

  pub IsOwned-try_pop_at :
      (n : ℕ) (q : Schedule Lab) (now : ℕ)
      → IsOwned time_getter n q
      → IsOwned time_getter n (try_pop_at lab_key time_getter q now).1
  IsOwned-try_pop_at n q now o = record {
    valid = try_pop_at-IsValid lab_key time_getter q now o.valid;
    below = All-try_pop_at lab_key time_getter (Below n) q now o.below;
  }

pub create_scheduler-IsSafe : IsSafe create_scheduler
unfolding create_scheduler
create_scheduler-IsSafe = record {
  deployments = record {
    valid = create_schedule-IsValid _ _;
    below = unfold create_schedule in tt;
  };
  destructions = record {
    valid = create_schedule-IsValid _ _;
    below = unfold create_schedule in tt;
  };
}

-- A step that returns a safe scheduler.
abbrev pub Keeps : Option Scheduler → Type 0
Keeps r = (s' : Scheduler) × (r ≡ some s') × IsSafe s'

pub schedule_deployment-IsSafe :
    (s : Scheduler) (lab : Lab) → IsSafe s → IsSafe (schedule_deployment s lab)
unfolding schedule_deployment
schedule_deployment-IsSafe s lab h = record {
  deployments =
      IsOwned-schedule_item deployment_time s.next_address s.deployment_schedule lab h.deployments;
  destructions = IsOwned-mono destruction_time s.next_address s.destruction_schedule h.destructions;
}

pub schedule_destruction-IsSafe :
    (s : Scheduler) (lab : Lab) → IsSafe s → IsSafe (schedule_destruction s lab)
unfolding schedule_destruction
schedule_destruction-IsSafe s lab h = record {
  deployments = IsOwned-mono deployment_time s.next_address s.deployment_schedule h.deployments;
  destructions =
      IsOwned-schedule_item destruction_time s.next_address s.destruction_schedule lab
        h.destructions;
}

pub reschedule_deployment-Keeps :
    (s : Scheduler) (lab : Lab) → IsSafe s → Keeps (reschedule_deployment s lab)
unfolding reschedule_deployment
reschedule_deployment-Keeps s lab h =
    let (q, returns, owned) =
      IsOwned-reschedule deployment_time s.next_address s.deployment_schedule lab h.deployments in
    (
      record s { deployment_schedule = q; next_address = s.next_address + 1 },
      rw returns,
      record {
        deployments = owned;
        destructions =
            IsOwned-mono destruction_time s.next_address s.destruction_schedule h.destructions;
      },
    )

pub reschedule_destruction-Keeps :
    (s : Scheduler) (lab : Lab) → IsSafe s → Keeps (reschedule_destruction s lab)
unfolding reschedule_destruction
reschedule_destruction-Keeps s lab h =
    let (q, returns, owned) =
      IsOwned-reschedule destruction_time s.next_address s.destruction_schedule lab
        h.destructions in
    (
      record s { destruction_schedule = q; next_address = s.next_address + 1 },
      rw returns,
      record {
        deployments =
            IsOwned-mono deployment_time s.next_address s.deployment_schedule h.deployments;
        destructions = owned;
      },
    )

pub remove_deployment-Keeps :
    (s : Scheduler) (lab : Lab) → IsSafe s → Keeps (remove_deployment s lab)
unfolding remove_deployment
remove_deployment-Keeps s lab h =
    let (q, returns, owned) =
      IsOwned-remove deployment_time s.next_address s.deployment_schedule lab.uuid h.deployments in
    (
      record s { deployment_schedule = q },
      rw returns,
      record { deployments = owned; destructions = h.destructions },
    )

pub remove_destruction-Keeps :
    (s : Scheduler) (lab : Lab) → IsSafe s → Keeps (remove_destruction s lab)
unfolding remove_destruction
remove_destruction-Keeps s lab h =
    let (q, returns, owned) =
      IsOwned-remove destruction_time s.next_address s.destruction_schedule lab.uuid
        h.destructions in
    (
      record s { destruction_schedule = q },
      rw returns,
      record { deployments = h.deployments; destructions = owned },
    )
