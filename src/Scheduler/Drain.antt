-- ===== src/Scheduler/Drain.antt =====
-- Enough rounds of the loop deploy every lab that is due.
use antimony_backend.Base.{
  nat_eq, string_eq, length, replicate, All, In, All-imp, In-append_left, In-append_right, ℕ, zero,
  suc, ◌≤◌, ◌<◌, ◌≡◌, refl, sym, ap, subst, ◌∙◌, ◌⊎◌, inl, inr, some, List, [], ◌∷◌, ◌++◌, arith,
}
use antimony_backend.Entities.{Lab}
use antimony_backend.Schedule.{Pointer, Schedule, try_pop_at}
use antimony_backend.Schedule.Exact.{try_pop_at_lem}
use antimony_backend.Scheduler.Safety.{IsSafe}
use antimony_backend.Scheduler.Events.{tick-IsSafe, deploy_due-IsSafe}
use antimony_backend.Scheduler.Due.{
  tick-StartsDue, destroy_due-StartsDue, started-schedule_destruction,
}
use antimony_backend.Scheduler.{
  Scheduler, Command, deploy, ticked, lab_key, deployment_time, schedule_destruction, deploy_due,
  destroy_due, tick, step, run,
}

-- Rounds of the loop in which the clock reads `now`.
unfoldable pub ticks_at : ℕ → ℕ → Scheduler → Scheduler
ticks_at zero now s = s
ticks_at (suc n) now s = ticks_at n now (tick s now)

pub run-ticks_at :
    (n now : ℕ) (s : Scheduler) → run s (replicate n (ticked now)) ≡ some (ticks_at n now s)
unfolding run step ticks_at
run-ticks_at zero now s = refl
run-ticks_at (suc n) now s = run-ticks_at n now (tick s now)

started-ticks_at :
    (n now : ℕ) (s : Scheduler) (c : Command)
    → IsSafe s
    → In c s.started
    → In c (ticks_at n now s).started
unfolding ticks_at
started-ticks_at zero now s c h m = m
started-ticks_at (suc n) now s c h m =
    let (cs, e, _) = tick-StartsDue s now h in
    started-ticks_at n now (tick s now) c (tick-IsSafe s now h)
      (subst (In c) (sym e) (In-append_left c s.started cs m))

deployment_schedule-tick :
    (s : Scheduler) (now : ℕ)
    → (tick s now).deployment_schedule
      ≡ (try_pop_at lab_key deployment_time s.deployment_schedule now).1
unfolding tick deploy_due destroy_due schedule_destruction
deployment_schedule-tick s now = ground arith

started-tick :
    (s : Scheduler) (now : ℕ) (p : Pointer Lab) (q : Schedule Lab)
    → IsSafe s
    → try_pop_at lab_key deployment_time s.deployment_schedule now ≡ (some p, q)
    → In (deploy p.value) (tick s now).started
unfolding tick
started-tick s now p q h e =
    let (ds, second, _) =
      destroy_due-StartsDue (deploy_due s now) now (deploy_due-IsSafe s now h) in
    let first : (deploy_due s now).started ≡ s.started ++ deploy p.value ∷ [] =
      unfold deploy_due in rw (e, deploy_due) (started-schedule_destruction _ p.value) in
    subst (In (deploy p.value)) (sym second) (
      In-append_left _ (deploy_due s now).started ds (
        subst (In (deploy p.value)) (sym first)
          (In-append_right _ s.started (deploy p.value ∷ []) (inl refl))))

-- What becomes of a queued deployment.
abbrev pub IsServed : ℕ → Scheduler → Pointer Lab → Type 0
IsServed now s p = (now < p.value.start_time) ⊎ In (deploy p.value) s.started

served :
    (n now : ℕ) (s : Scheduler) (ps : List (Pointer Lab))
    → IsSafe s
    → s.deployment_schedule.schedule ≡ ps
    → length ps ≤ n
    → All (IsServed now (ticks_at n now s)) ps
unfolding ticks_at
served n now s [] h e l = tt
served zero now s (p ∷ ps) h e l = absurd (omega arith)
served (suc n) now s (p ∷ ps) h e l =
    elim (try_pop_at_lem lab_key deployment_time s.deployment_schedule now h.deployments.valid) [
      | inl (q, rest, e', due, least, popped) ↦
          let same : q ≡ p = cc (e, e') in
          let others : rest ≡ ps = cc (e, e') in
          let left : (tick s now).deployment_schedule.schedule ≡ ps =
            ap (λ u. u.schedule) (deployment_schedule-tick s now ∙ ap (λ r. r.1) popped) ∙ others in
          (
            inr (
                started-ticks_at n now (tick s now) (deploy p.value) (tick-IsSafe s now h) (
                  subst (λ r. In (deploy r.value) (tick s now).started) same
                    (started-tick s now q _ h popped))),
            served n now (tick s now) ps (tick-IsSafe s now h) left (omega arith),
          )
      | inr (later, _) ↦ subst (All (IsServed now (ticks_at n now (tick s now)))) e (
          All-imp _ _ s.deployment_schedule.schedule (λ r (k : now < r.value.start_time). inl k)
            later)
    ]

-- A safe scheduler with at most `n` queued deployments runs `n` rounds of the loop at `now`
-- without a panic, and each lab that was queued for deployment either starts later than `now` or
-- has had its deployment started.
pub run-serves :
    (n now : ℕ) (s : Scheduler)
    → IsSafe s
    → length s.deployment_schedule.schedule ≤ n
    → (s' : Scheduler) × (run s (replicate n (ticked now)) ≡ some s')
      × All (IsServed now s') s.deployment_schedule.schedule
run-serves n now s h l =
    (ticks_at n now s, run-ticks_at n now s, served n now s s.deployment_schedule.schedule h refl l)
