-- ===== src/Scheduler/Due.antt =====
-- What a round of the loop starts.
use antimony_backend.Base.{
  nat_eq, string_eq, All, All-append, ℕ, ◌≤◌, ◌≡◌, refl, sym, ap, subst, ◌∙◌, inl, inr, Option,
  none, some, List, [], ◌∷◌, ◌++◌, append-nil, append_assoc, arith,
}
use antimony_backend.Entities.{Lab}
use antimony_backend.Schedule.Invariant.{IsTimed}
use antimony_backend.Schedule.Exact.{try_pop_at_lem}
use antimony_backend.Scheduler.Safety.{IsSafe}
use antimony_backend.Scheduler.Events.{deploy_due-IsSafe}
use antimony_backend.Scheduler.{
  Scheduler, Command, deploy, destroy, lab_key, deployment_time, destruction_time,
  schedule_destruction, deploy_due, destroy_due, tick,
}

abbrev pub seconds_of : Option ℕ → ℕ
seconds_of none = 0
seconds_of (some t) = t

-- The lab's time has come.
abbrev pub IsDue : ℕ → Command → Type 0
IsDue now (deploy lab) = lab.start_time ≤ now
IsDue now (destroy lab) = (t : ℕ) × (lab.end_time ≡ some t) × (t ≤ now)

pub started-schedule_destruction :
    (s : Scheduler) (lab : Lab) → (schedule_destruction s lab).started ≡ s.started
unfolding schedule_destruction
started-schedule_destruction s lab = refl

-- The commands that a step added, each of them due.
abbrev pub StartsDue : ℕ → Scheduler → Scheduler → Type 0
StartsDue now s s' = (cs : List Command) × (s'.started ≡ s.started ++ cs) × All (IsDue now) cs

pub deploy_due-StartsDue : (s : Scheduler) (now : ℕ) → IsSafe s → StartsDue now s (deploy_due s now)
unfolding deploy_due
deploy_due-StartsDue s now h =
    elim (try_pop_at_lem lab_key deployment_time s.deployment_schedule now h.deployments.valid) [
      | inl (p, rest, e, due, least, popped) ↦ (
        deploy p.value ∷ [],
        rw (popped, deploy_due) (started-schedule_destruction _ p.value),
        ((due, tt)),
      )
      | inr (later, none_due) ↦ ([], rw (none_due, deploy_due) (sym (append-nil s.started)), tt)
    ]

pub destroy_due-StartsDue :
    (s : Scheduler) (now : ℕ) → IsSafe s → StartsDue now s (destroy_due s now)
unfolding destroy_due
destroy_due-StartsDue s now h =
    elim (try_pop_at_lem lab_key destruction_time s.destruction_schedule now h.destructions.valid) [
      | inl (p, rest, e, due, least, popped) ↦
          let timed : All (IsTimed lab_key destruction_time) (p ∷ rest) =
            subst (All (IsTimed lab_key destruction_time)) e h.destructions.valid.timed in
          let (t, has) = timed.0 in
          (
            destroy p.value ∷ [],
            rw (popped, destroy_due),
            ((t, has, omega (arith, ap seconds_of has)), tt),
          )
      | inr (later, none_due) ↦ ([], rw (none_due, destroy_due) (sym (append-nil s.started)), tt)
    ]

-- In a safe scheduler a round of the loop at `now` starts only deployments of labs whose start
-- time has come and destructions of labs that have an end time which has come; what was started
-- before stays.
pub tick-StartsDue : (s : Scheduler) (now : ℕ) → IsSafe s → StartsDue now s (tick s now)
unfolding tick
tick-StartsDue s now h =
    let (cs, first, due) = deploy_due-StartsDue s now h in
    let (ds, second, due') =
      destroy_due-StartsDue (deploy_due s now) now (deploy_due-IsSafe s now h) in
    (
      cs ++ ds,
      second ∙ ap (λ l. l ++ ds) first ∙ append_assoc s.started cs ds,
      All-append (IsDue now) cs ds due due',
    )
