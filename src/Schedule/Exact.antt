-- ===== src/Schedule/Exact.antt =====
-- What a pop, a removal and a rescheduling do to a queue whose map speaks for all of it.
use antimony_backend.Base.{
  nat_eq, string_eq, leb, leb→le, Bool-cases, All, In, All-In, All-imp, lookup, delete, Map, ℕ, ◌≤◌,
  ◌<◌, String, ◌≡◌, refl, sym, ap, ◌∙◌, ◌≢◌, ◌↔◌, ◌⊎◌, inl, inr, true, false, Option, none, some,
  List, [], ◌∷◌, arith,
}
use antimony_backend.Schedule.{
  Pointer, Schedule, schedule_item, reschedule, remove, is_scheduled, try_pop_at, pop_first,
}
use antimony_backend.Schedule.Order.{Sorted, seconds}
use antimony_backend.Schedule.Invariant.{IsFresh, IsValid}
use antimony_backend.Schedule.Operations.{schedule_item-IsValid, reschedule-remove_key}
use antimony_backend.Schedule.Removal.{
  IsExact, remove_key-Removes, schedule_item-IsExact, In-schedule_item,
}

module _ {T : Type 0} (key_getter : T → String) (time_getter : T → Option ℕ) where
  abbrev Valid : Schedule T → Type 0
  Valid s = IsValid key_getter time_getter s

  abbrev Exact : Schedule T → Type 0
  Exact s = IsExact key_getter time_getter s

  -- `TryPopAt` on a valid queue: if the first item is due, the pop returns it, no queued item is
  -- earlier, the rest stays and the key leaves the map; otherwise every item is later than `now`,
  -- and the queue is unchanged.
  pub try_pop_at_lem :
      (s : Schedule T) (now : ℕ)
      → Valid s
      → ((p : Pointer T) × (rest : List (Pointer T)) × (s.schedule ≡ p ∷ rest)
          × (seconds key_getter time_getter p ≤ now)
          × All (λ q. seconds key_getter time_getter p ≤ seconds key_getter time_getter q) rest
          × (try_pop_at key_getter time_getter s now ≡ (
            some p,
            record { schedule = rest; schedule_map = delete (key_getter p.value) s.schedule_map },
          )))
        ⊎ (All (λ q. now < seconds key_getter time_getter q) s.schedule
            × (try_pop_at key_getter time_getter s now ≡ (none, s)))
  unfolding try_pop_at
  try_pop_at_lem s now v = go s.schedule v.sorted refl
    where
      go :
          (ps : List (Pointer T))
          → Sorted key_getter time_getter ps
          → s.schedule ≡ ps
          → ((p : Pointer T) × (rest : List (Pointer T)) × (s.schedule ≡ p ∷ rest)
              × (seconds key_getter time_getter p ≤ now)
              × All (λ q. seconds key_getter time_getter p ≤ seconds key_getter time_getter q) rest
              × (pop_first key_getter time_getter s.schedule s.schedule_map now ≡ (
                some p,
                record {
                  schedule = rest;
                  schedule_map = delete (key_getter p.value) s.schedule_map;
                },
              )))
            ⊎ (All (λ q. now < seconds key_getter time_getter q) s.schedule
                × (pop_first key_getter time_getter s.schedule s.schedule_map now ≡ (none, s)))
      go [] o e = inr (rw e tt, rw (e, pop_first))
      go (p ∷ rest) o e = elim (Bool-cases (leb (seconds key_getter time_getter p) now)) [
        | inl due ↦ inl (p, rest, e, leb→le _ _ due, o.0, rw (e, pop_first, due))
        | inr later ↦
            let l : now < seconds key_getter time_getter p = ground arith in
            inr (
              rw e (
                l,
                All-imp _ _ rest
                    (λ q (h : seconds key_getter time_getter p ≤ seconds key_getter time_getter q).
                      omega arith)
                    o.0,
              ),
              rw (e, pop_first, later),
            )
      ]

  pub try_pop_at_due :
      (s : Schedule T) (now : ℕ) (p : Pointer T) (rest : List (Pointer T))
      → s.schedule ≡ p ∷ rest
      → seconds key_getter time_getter p ≤ now
      → try_pop_at key_getter time_getter s now ≡ (
        some p,
        record { schedule = rest; schedule_map = delete (key_getter p.value) s.schedule_map },
      )
  unfolding try_pop_at
  try_pop_at_due s now p rest e d =
      let due : leb (seconds key_getter time_getter p) now ≡ true = ground arith in
      rw (e, pop_first, due)

  pub try_pop_at_later :
      (s : Schedule T) (now : ℕ)
      → All (λ q. now < seconds key_getter time_getter q) s.schedule
      → try_pop_at key_getter time_getter s now ≡ (none, s)
  unfolding try_pop_at
  try_pop_at_later s now a = go s.schedule s.schedule_map a
    where
      go :
          (ps : List (Pointer T)) (m : Map String (Pointer T))
          → All (λ q. now < seconds key_getter time_getter q) ps
          → pop_first key_getter time_getter ps m now
            ≡ (none, record { schedule = ps; schedule_map = m })
      go [] m a = refl
      go (p ∷ rest) m a =
          let later : leb (seconds key_getter time_getter p) now ≡ false = ground arith in
          rw (pop_first, later)

  -- In a valid and exact queue `IsScheduled` of a key holds exactly when an item of that key is
  -- queued.
  pub is_scheduled_iff :
      (s : Schedule T) (key : String)
      → Valid s
      → Exact s
      → (is_scheduled key_getter time_getter s key ≡ true)
        ↔ ((p : Pointer T) × In p s.schedule × (key_getter p.value ≡ key))
  unfolding is_scheduled
  is_scheduled_iff s key v x = (found (lookup key s.schedule_map) refl, listed)
    where
      found :
          (o : Option (Pointer T))
          → lookup key s.schedule_map ≡ o
          → is_scheduled key_getter time_getter s key ≡ true
          → (p : Pointer T) × In p s.schedule × (key_getter p.value ≡ key)
      found none e h = absurd (cc (rw (e, is_scheduled) at h))
      found (some p) e h = let (m, w) = v.mapped key p e in (p, m, w)

      listed :
          ((p : Pointer T) × In p s.schedule × (key_getter p.value ≡ key))
          → is_scheduled key_getter time_getter s key ≡ true
      listed (p, m, w) =
          let e : lookup key s.schedule_map ≡ some p =
            ap (λ k. lookup k s.schedule_map) (sym w) ∙ All-In _ s.schedule p x.entries m in
          rw (e, is_scheduled)

  -- On a valid and exact queue `Remove` returns a valid and exact queue, which holds the items that
  -- the queue held under other keys than the removed one, and nothing else.
  pub remove_lem :
      (s : Schedule T) (key : String)
      → Valid s
      → Exact s
      → (s' : Schedule T) × (remove key_getter time_getter s key ≡ some s')
        × Valid s'
        × Exact s'
        × ((q : Pointer T) → In q s'.schedule ↔ (In q s.schedule × (key_getter q.value ≢ key)))
  unfolding remove
  remove_lem s key v x =
      let r = remove_key-Removes key_getter time_getter s key v x in
      (
        r.after,
        r.returns,
        r.valid,
        r.exact,
        λ q. ((λ m. (r.rest q m, All-In _ r.after.schedule q r.absent m)), (λ m. r.kept q m.0 m.1)),
      )

  -- `Reschedule` of a new pointer returns: the queue stays valid and exact, and afterwards it holds
  -- the pointer, if its item has a time, all items of other keys that it held before, and nothing
  -- else.
  pub reschedule_lem :
      (s : Schedule T) (item : Pointer T)
      → Valid s
      → Exact s
      → IsFresh item.address s.schedule
      → (s' : Schedule T) × (reschedule key_getter time_getter s item ≡ some s')
        × Valid s'
        × Exact s'
        × ((q : Pointer T)
            → In q s'.schedule ↔ (
                ((q ≡ item) × (time_getter item.value ≢ none))
                ⊎ (In q s.schedule × (key_getter q.value ≢ key_getter item.value))))
  reschedule_lem s item v x f =
      let r = remove_key-Removes key_getter time_getter s (key_getter item.value) v x in
      let members =
        λ (q : Pointer T). In-schedule_item key_getter time_getter r.after item q r.valid in
      (
        schedule_item key_getter time_getter r.after item,
        reschedule-remove_key key_getter time_getter s r.after item r.returns,
        schedule_item-IsValid key_getter time_getter r.after item r.valid (r.fresh item.address f),
        schedule_item-IsExact key_getter time_getter r.after item r.valid r.exact r.absent,
        λ q. (
          (λ m. elim ((members q).0 m) [
            | inl new ↦ inl new
            | inr old ↦ inr (r.rest q old, All-In _ r.after.schedule q r.absent old)
          ]),
          (λ m.
              (members q).1
                (elim m [ inl new ↦ inl new | inr (old, other) ↦ inr (r.kept q old other) ])),
        ),
      )
