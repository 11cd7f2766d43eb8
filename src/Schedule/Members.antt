-- ===== src/Schedule/Members.antt =====
-- A property of all queued items, and of the item that comes in, outlasts every operation.
use antimony_backend.Base.{
  nat_eq, string_eq, leb, Bool-cases, Option-cases, All, lookup, Map, ℕ, String, ◌≡◌, subst, inl,
  inr, Option, some, List, [], ◌∷◌, arith,
}
use antimony_backend.Schedule.{
  Pointer, Schedule, schedule_item, reschedule, remove_key, try_pop_at, pop_first,
}
use antimony_backend.Schedule.Order.{seconds}
use antimony_backend.Schedule.Invariant.{IsValid, All-ordered_insert, All-erase_address}
use antimony_backend.Schedule.Operations.{
  schedule_item-none, schedule_item-inserted, remove_key-none, remove_key-removed,
  remove_key-IsValid, reschedule-remove_key, removed,
}

module _ {T : Type 0} (key_getter : T → String) (time_getter : T → Option ℕ)
    (P : Pointer T → Type 0) where
  pub All-schedule_item :
      (s : Schedule T) (item : Pointer T)
      → IsValid key_getter time_getter s
      → P item
      → All P s.schedule
      → All P (schedule_item key_getter time_getter s item).schedule
  All-schedule_item s item v h a = elim (Option-cases (time_getter item.value)) [
    | inl e ↦ rw (schedule_item-none key_getter time_getter s item e) a
    | inr (t, e) ↦
        rw (schedule_item-inserted key_getter time_getter s item t v e)
          (All-ordered_insert key_getter time_getter P item s.schedule h a)
  ]

  pub All-remove_key :
      (s s' : Schedule T) (key : String)
      → IsValid key_getter time_getter s
      → remove_key key_getter time_getter s key ≡ some s'
      → All P s.schedule
      → All P s'.schedule
  All-remove_key s s' key v r a = elim (Option-cases (lookup key s.schedule_map)) [
    | inl e ↦
        let same : s ≡ s' = ground (arith, remove_key-none key_getter time_getter s key e, r) in
        subst (λ u. All P u.schedule) same a
    | inr (p, e) ↦
        let same : removed key_getter time_getter s key p ≡ s' =
          ground (arith, remove_key-removed key_getter time_getter s key p v e, r) in
        subst (λ u. All P u.schedule) same
          (All-erase_address key_getter time_getter P p.address s.schedule a)
  ]

  pub All-reschedule :
      (s s' : Schedule T) (item : Pointer T)
      → IsValid key_getter time_getter s
      → reschedule key_getter time_getter s item ≡ some s'
      → P item
      → All P s.schedule
      → All P s'.schedule
  All-reschedule s s' item v r h a =
      let (t, returns, valid, _) =
        remove_key-IsValid key_getter time_getter s (key_getter item.value) v in
      let same : schedule_item key_getter time_getter t item ≡ s' =
        ground (arith, reschedule-remove_key key_getter time_getter s t item returns, r) in
      subst (λ u. All P u.schedule) same
        (All-schedule_item t item valid h (All-remove_key s t (key_getter item.value) v returns a))

  pop_first-All :
      (ps : List (Pointer T)) (m : Map String (Pointer T)) (now : ℕ)
      → All P ps
      → All P (pop_first key_getter time_getter ps m now).1.schedule
  unfolding pop_first
  pop_first-All [] m now a = tt
  pop_first-All (p ∷ ps) m now a = elim (Bool-cases (leb (seconds key_getter time_getter p) now)) [
    | inl e ↦ rw e a.1
    | inr e ↦ rw e a
  ]

  pub All-try_pop_at :
      (s : Schedule T) (now : ℕ)
      → All P s.schedule
      → All P (try_pop_at key_getter time_getter s now).1.schedule
  unfolding try_pop_at
  All-try_pop_at s now a = pop_first-All s.schedule s.schedule_map now a
