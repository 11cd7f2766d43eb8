-- ===== src/Schedule/Tests.antt =====
-- Runs of the queue, over pairs of a key and a time.
use antimony_backend.Base.{
  nat_eq, string_eq, All, In, lookup, put, delete, ℕ, ◌≤◌, ◌<◌, String, ◌≡◌, refl, ◌≢◌, ◌↔◌, ◌⊎◌,
  true, Option, none, some, List, [], ◌∷◌, arith,
}
use text.Mathlib.TextEquality.{eq_iff}
use antimony_backend.Schedule.{
  Pointer, Schedule, search_index, create_schedule, schedule_item, reschedule, remove, is_scheduled,
  try_pop_at,
}
use antimony_backend.Schedule.Order.{seconds}
use antimony_backend.Schedule.Invariant.{IsValid}
use antimony_backend.Schedule.Removal.{IsExact}
use antimony_backend.Schedule.Exact.{try_pop_at_lem, is_scheduled_iff, remove_lem, reschedule_lem}

abbrev Job : Type 0
Job = String × Option ℕ

abbrev key_of : Job → String
key_of j = j.0

abbrev time_of : Job → Option ℕ
time_of j = j.1

abbrev early : Pointer Job
early = record { address = 1; value = ("a", some 5) }

abbrev late : Pointer Job
late = record { address = 2; value = ("b", some 9) }

abbrev moved : Pointer Job
moved = record { address = 3; value = ("a", some 20) }

abbrev both : Schedule Job
both = record { schedule = early ∷ late ∷ []; schedule_map = ("b", late) ∷ ("a", early) ∷ [] }

built :
    schedule_item key_of time_of (schedule_item key_of time_of create_schedule late) early ≡ both
unfolding schedule_item create_schedule put search_index
built = refl

both-IsValid : IsValid key_of time_of both
unfolding lookup
both-IsValid = record {
  sorted = omega arith;
  timed = ((5, refl), ((9, refl), tt));
  distinct = omega arith;
  mapped = λ k p e. ground (arith, eq_iff "a" k, eq_iff "b" k);
}

both-IsExact : IsExact key_of time_of both
unfolding lookup
both-IsExact = record { entries = (refl, (refl, tt)) }

try_pop_at_lem_example :
    ((p : Pointer Job) × (rest : List (Pointer Job)) × (both.schedule ≡ p ∷ rest)
      × (seconds key_of time_of p ≤ 7)
      × All (λ q. seconds key_of time_of p ≤ seconds key_of time_of q) rest
      × (try_pop_at key_of time_of both 7 ≡ (
        some p,
        record { schedule = rest; schedule_map = delete (key_of p.value) both.schedule_map },
      )))
    ⊎ (All (λ q. 7 < seconds key_of time_of q) both.schedule
        × (try_pop_at key_of time_of both 7 ≡ (none, both)))
try_pop_at_lem_example = try_pop_at_lem key_of time_of both 7 both-IsValid

is_scheduled_iff_example :
    (is_scheduled key_of time_of both "a" ≡ true)
    ↔ ((p : Pointer Job) × In p both.schedule × (key_of p.value ≡ "a"))
is_scheduled_iff_example = is_scheduled_iff key_of time_of both "a" both-IsValid both-IsExact

remove_lem_example :
    (s' : Schedule Job) × (remove key_of time_of both "a" ≡ some s')
    × IsValid key_of time_of s'
    × IsExact key_of time_of s'
    × ((q : Pointer Job) → In q s'.schedule ↔ (In q both.schedule × (key_of q.value ≢ "a")))
remove_lem_example = remove_lem key_of time_of both "a" both-IsValid both-IsExact

reschedule_lem_example :
    (s' : Schedule Job) × (reschedule key_of time_of both moved ≡ some s')
    × IsValid key_of time_of s'
    × IsExact key_of time_of s'
    × ((q : Pointer Job)
        → In q s'.schedule ↔ (
            ((q ≡ moved) × (time_of moved.value ≢ none))
            ⊎ (In q both.schedule × (key_of q.value ≢ "a"))))
reschedule_lem_example =
    reschedule_lem key_of time_of both moved both-IsValid both-IsExact (omega arith)
