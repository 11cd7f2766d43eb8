-- ===== src/Schedule/Operations.antt =====
-- Every operation of the queue keeps its invariant, and none of them panics.
use antimony_backend.Base.{
  nat_eq, string_eq, leb, Bool-cases, Option-cases, In, All-In, lookup, put, delete, Map,
  lookup-put-some, lookup-delete-some, ℕ, String, ◌≡◌, refl, sym, ap, ◌∙◌, inl, inr, Option, none,
  some, List, [], ◌∷◌, arith,
}
use native.Mathlib.Numerals.{add-one}
use antimony_backend.Schedule.{
  Pointer, Schedule, create_schedule, remove_key, schedule_item, reschedule, try_pop_at, pop_first,
}
use antimony_backend.Schedule.Order.{
  seconds, ordered_insert, erase_address, index_of-erase_address, insert_item-ordered_insert,
}
use antimony_backend.Schedule.Invariant.{
  IsFresh, Distinct, IsTimed, IsValid, All-ordered_insert, All-erase_address, Sorted-ordered_insert,
  Sorted-erase_address, Distinct-ordered_insert, Distinct-erase_address, In-ordered_insert,
  In-erase_address,
}

pub In-same_address :
    {T : Type 0} (ps : List (Pointer T)) (p q : Pointer T)
    → Distinct ps
    → In p ps
    → In q ps
    → p.address ≡ q.address
    → p ≡ q
In-same_address [] p q d m n e = absurd m
In-same_address (x ∷ ps) p q d (inl u) (inl v) e = sym u ∙ v
In-same_address (x ∷ ps) p q d (inl u) (inr n) e =
    absurd (All-In _ ps q d.0 n (sym e ∙ ap (λ y. y.address) (sym u)))
In-same_address (x ∷ ps) p q d (inr m) (inl v) e =
    absurd (All-In _ ps p d.0 m (e ∙ ap (λ y. y.address) (sym v)))
In-same_address (x ∷ ps) p q d (inr m) (inr n) e = In-same_address ps p q d.1 m n e

module _ {T : Type 0} (key_getter : T → String) (time_getter : T → Option ℕ) where
  abbrev Valid : Schedule T → Type 0
  Valid s = IsValid key_getter time_getter s

  pub create_schedule-IsValid : Valid create_schedule
  unfolding create_schedule lookup
  create_schedule-IsValid = record { sorted = tt; timed = tt; distinct = tt; mapped = λ k p e. cc }

  -- The queue after an item with a time came in.
  abbrev pub inserted : Schedule T → Pointer T → Schedule T
  inserted s item = record {
    schedule = ordered_insert key_getter time_getter item s.schedule;
    schedule_map = put (key_getter item.value) item s.schedule_map;
  }

  inserted-IsValid :
      (s : Schedule T) (item : Pointer T)
      → Valid s
      → IsTimed key_getter time_getter item
      → IsFresh item.address s.schedule
      → Valid (inserted s item)
  inserted-IsValid s item v t f = record {
    sorted = Sorted-ordered_insert key_getter time_getter item s.schedule v.sorted;
    timed = All-ordered_insert key_getter time_getter _ item s.schedule t v.timed;
    distinct = Distinct-ordered_insert key_getter time_getter item s.schedule f v.distinct;
    mapped = λ k p h. elim (lookup-put-some (key_getter item.value) k item p s.schedule_map h) [
      | inl (same, here) ↦ (
        In-ordered_insert key_getter time_getter item p s.schedule (inl here),
        ap (λ q. key_getter q.value) (sym here) ∙ same,
      )
      | inr (other, there) ↦
          let (m, w) = v.mapped k p there in
          (In-ordered_insert key_getter time_getter item p s.schedule (inr m), w)
    ];
  }

  -- The queue without the entry of a key.
  abbrev pub removed : Schedule T → String → Pointer T → Schedule T
  removed s key p = record {
    schedule = erase_address p.address s.schedule;
    schedule_map = delete key s.schedule_map;
  }

  pub remove_key-removed :
      (s : Schedule T) (key : String) (p : Pointer T)
      → Valid s
      → lookup key s.schedule_map ≡ some p
      → remove_key key_getter time_getter s key ≡ some (removed s key p)
  unfolding remove_key
  remove_key-removed s key p v e =
      let (i, found, split) =
        index_of-erase_address p.address s.schedule p (v.mapped key p e).0 refl in
      rw (e, remove_key, found, add-one)
        (λ j. some (record { schedule = split j; schedule_map = delete key s.schedule_map }))

  pub removed-IsValid :
      (s : Schedule T) (key : String) (p : Pointer T)
      → Valid s
      → lookup key s.schedule_map ≡ some p
      → Valid (removed s key p)
  removed-IsValid s key p v e = record {
    sorted = Sorted-erase_address key_getter time_getter p.address s.schedule v.sorted;
    timed = All-erase_address key_getter time_getter _ p.address s.schedule v.timed;
    distinct = Distinct-erase_address key_getter time_getter p.address s.schedule v.distinct;
    mapped = λ k q h.
        let (other, there) = lookup-delete-some key k q s.schedule_map h in
        let (m, w) = v.mapped k q there in
        (
          In-erase_address key_getter time_getter p.address q s.schedule m (λ same.
              let eq = In-same_address s.schedule q p v.distinct m (v.mapped key p e).0 same in
              other (sym (v.mapped key p e).1 ∙ ap (λ x. key_getter x.value) (sym eq) ∙ w)),
          w,
        );
  }

  pub schedule_item-inserted :
      (s : Schedule T) (item : Pointer T) (t : ℕ)
      → Valid s
      → time_getter item.value ≡ some t
      → schedule_item key_getter time_getter s item ≡ inserted s item
  unfolding schedule_item
  schedule_item-inserted s item t v e =
      rw (e, schedule_item)
        (insert_item-ordered_insert key_getter time_getter s (key_getter item.value) item v.sorted)

  pub schedule_item-none :
      (s : Schedule T) (item : Pointer T)
      → time_getter item.value ≡ none
      → schedule_item key_getter time_getter s item ≡ s
  unfolding schedule_item
  schedule_item-none s item e = rw (e, schedule_item)

  pub remove_key-none :
      (s : Schedule T) (key : String)
      → lookup key s.schedule_map ≡ none
      → remove_key key_getter time_getter s key ≡ some s
  unfolding remove_key
  remove_key-none s key e = rw (e, remove_key)

  -- `Reschedule` is a removal, also of a key that is not there, and a scheduling.
  pub reschedule-remove_key :
      (s s' : Schedule T) (item : Pointer T)
      → remove_key key_getter time_getter s (key_getter item.value) ≡ some s'
      → reschedule key_getter time_getter s item
        ≡ some (schedule_item key_getter time_getter s' item)
  unfolding reschedule
  reschedule-remove_key s s' item r =
      elim (Option-cases (lookup (key_getter item.value) s.schedule_map)) [
        | inl e ↦
            let same : s ≡ s' = ground (arith, remove_key-none s (key_getter item.value) e, r) in
            rw (e, reschedule) (ap (λ u. some (schedule_item key_getter time_getter u item)) same)
        | inr (p, e) ↦ rw (e, reschedule, r)
      ]

  pub schedule_item-IsValid :
      (s : Schedule T) (item : Pointer T)
      → Valid s
      → IsFresh item.address s.schedule
      → Valid (schedule_item key_getter time_getter s item)
  unfolding schedule_item
  schedule_item-IsValid s item v f = elim (Option-cases (time_getter item.value)) [
    | inl e ↦ rw (schedule_item-none s item e) v
    | inr (t, e) ↦ rw (schedule_item-inserted s item t v e) (inserted-IsValid s item v (t, e) f)
  ]

  -- A removal returns, and what it returns is valid.
  pub remove_key-IsValid :
      (s : Schedule T) (key : String)
      → Valid s
      → (s' : Schedule T) × (remove_key key_getter time_getter s key ≡ some s')
        × Valid s'
        × ((a : ℕ) → IsFresh a s.schedule → IsFresh a s'.schedule)
  unfolding remove_key
  remove_key-IsValid s key v = elim (Option-cases (lookup key s.schedule_map)) [
    | inl e ↦ (s, remove_key-none s key e, v, λ a f. f)
    | inr (p, e) ↦ (
      removed s key p,
      remove_key-removed s key p v e,
      removed-IsValid s key p v e,
      λ a f. All-erase_address key_getter time_getter _ p.address s.schedule f,
    )
  ]

  pub reschedule-IsValid :
      (s : Schedule T) (item : Pointer T)
      → Valid s
      → IsFresh item.address s.schedule
      → (s' : Schedule T) × (reschedule key_getter time_getter s item ≡ some s') × Valid s'
  unfolding reschedule
  reschedule-IsValid s item v f =
      let (s', returns, valid, fresh) = remove_key-IsValid s (key_getter item.value) v in
      (
        schedule_item key_getter time_getter s' item,
        reschedule-remove_key s s' item returns,
        schedule_item-IsValid s' item valid (fresh item.address f),
      )

  popped-IsValid :
      (p : Pointer T) (ps : List (Pointer T)) (m : Map String (Pointer T))
      → Valid (record { schedule = p ∷ ps; schedule_map = m })
      → Valid (record { schedule = ps; schedule_map = delete (key_getter p.value) m })
  popped-IsValid p ps m v = record {
    sorted = v.sorted.1;
    timed = v.timed.1;
    distinct = v.distinct.1;
    mapped = λ k q h.
        let (other, there) = lookup-delete-some (key_getter p.value) k q m h in
        let (held, w) = v.mapped k q there in
        elim held [
          | inl e ↦ absurd (other (ap (λ x. key_getter x.value) e ∙ w))
          | inr later ↦ (later, w)
        ];
  }

  pop_first-IsValid :
      (ps : List (Pointer T)) (m : Map String (Pointer T)) (now : ℕ)
      → Valid (record { schedule = ps; schedule_map = m })
      → Valid (pop_first key_getter time_getter ps m now).1
  unfolding pop_first
  pop_first-IsValid [] m now v = v
  pop_first-IsValid (p ∷ ps) m now v =
      elim (Bool-cases (leb (seconds key_getter time_getter p) now)) [
        | inl e ↦ rw e (popped-IsValid p ps m v)
        | inr e ↦ rw e v
      ]

  pub try_pop_at-IsValid :
      (s : Schedule T) (now : ℕ) → Valid s → Valid (try_pop_at key_getter time_getter s now).1
  unfolding try_pop_at
  try_pop_at-IsValid s now v = pop_first-IsValid s.schedule s.schedule_map now v
