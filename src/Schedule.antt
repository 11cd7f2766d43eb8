-- ===== src/Schedule.antt =====
-- utils/schedule.go: a queue of items sorted by time, beside a map from keys to queued items.
-- The slice holds pointers: an item stands here with its address, and two pointers are equal when
-- their addresses are. The callers queue copies that nobody writes to later (`copyLab` of
-- runtime/scheduler/scheduler.go), so an address always reads the same value. Times are the
-- seconds of `Unix`, counted from Go's zero time so that they are not negative. `none` as a
-- result is a Go panic.
pub mod Search
pub mod Order
pub mod Invariant
pub mod Operations
pub mod Members
pub mod Removal
pub mod Exact
pub mod Ghosts
pub mod Tests
use antimony_backend.Base.{
  Eq, ◌==◌, nat_eq, string_eq, ==_refl, ltb, leb, nat_beq, if◌then◌else◌, ltb→lt, leb→le, ltb-of_lt,
  ltb-of_le, nat_beq_iff, Bool-cases, Option-cases, ◌>>=◌, length, get_elem?, take, drop, replicate,
  store, length-append, length-take, length-drop, length-replicate, take-append-drop, take_all,
  drop_all, drop-append, drop-drop, get_elem?-some, Stores, store-some, All, In, All-In, All-of_In,
  All-imp, lookup, put, delete, Map, lookup-put, lookup-delete, lookup-put_self, lookup-put_ne,
  lookup-delete_self, lookup-delete_ne, lookup-put-some, lookup-delete-some, ℕ, zero, suc, ◌+◌, ◌-◌,
  ◌*◌, ◌/◌, ◌%◌, ◌^◌, ◌≤◌, ◌<◌, min, String, ◌≡◌, refl, sym, ap, subst, ◌∙◌, ◌≢◌, ◌↔◌, ◌⊎◌, inl,
  inr, Bool, true, false, not, ◌&&◌, ◌||◌, Option, none, some, List, [], ◌∷◌, ◌++◌, map, append-nil,
  append_assoc, arith,
}

pub record Pointer {ℓ} (T : Type ℓ) : Type ℓ where
  pub address : ℕ
  pub value : T

pub record Schedule {ℓ} (T : Type ℓ) : Type ℓ where
  pub schedule : List (Pointer T)
  pub schedule_map : Map String (Pointer T)

-- `sort.Search` on `[i, j)`, with fuel: the loop `for i < j { h := (i + j) / 2; … }`.
unfoldable pub search_loop : ℕ → (ℕ → Bool) → ℕ → ℕ → ℕ
search_loop zero f i j = i
search_loop (suc fuel) f i j = elim (ltb i j) [
  | false ↦ i
  | true ↦ elim (f ((i + j) / 2)) [
    | false ↦ search_loop fuel f ((i + j) / 2 + 1) j
    | true ↦ search_loop fuel f i ((i + j) / 2)
  ]
]

-- `sort.Search`: the interval shrinks in each round, so `n` rounds are enough.
unfoldable pub search_index : ℕ → (ℕ → Bool) → ℕ
unfolding search_loop
search_index n f = search_loop n f 0 n

unfoldable pub create_schedule {ℓ} : {T : Type ℓ} → Schedule T
create_schedule = record { schedule = []; schedule_map = [] }

-- `slices.Index` on pointers, with `none` for -1.
unfoldable pub index_of {ℓ} : {T : Type ℓ} → ℕ → List (Pointer T) → Option ℕ
index_of a [] = none
index_of a (p ∷ ps) = if p.address == a then some 0 else (do i ← index_of a ps; some (suc i))

module _ {ℓ} {T : Type ℓ} (key_getter : T → String) (time_getter : T → Option ℕ) where
  -- `s.timeGetter(*p).Unix()`: 0 stands for the panic at a nil time, which no queued item has.
  abbrev pub unix : Pointer T → ℕ
  unix p = elim (time_getter p.value) [ none ↦ 0 | some t ↦ t ]

  -- The predicate of the binary search: the item at place `i` is due at `t` or later.
  abbrev pub not_before : List (Pointer T) → ℕ → ℕ → Bool
  not_before ps t i = elim (get_elem? ps i) [ none ↦ false | some p ↦ leb t (unix p) ]

  unfoldable pub insert_item : Schedule T → String → Pointer T → Schedule T
  insert_item s key item =
      let index = search_index (length s.schedule) (not_before s.schedule (unix item)) in
      if index == length s.schedule
      then record s {
        schedule = s.schedule ++ item ∷ [];
        schedule_map = put key item s.schedule_map;
      }
      else record s {
        schedule = take index s.schedule ++ item ∷ drop index s.schedule;
        schedule_map = put key item s.schedule_map;
      }

  -- A pointer in the map that the queue does not hold gives the index -1 and a slice panic.
  unfoldable pub remove_key : Schedule T → String → Option (Schedule T)
  unfolding index_of
  remove_key s key = elim (lookup key s.schedule_map) [
    | none ↦ some s
    | some item ↦ (do
      index ← index_of item.address s.schedule
      some (record s {
        schedule = take index s.schedule ++ drop (index + 1) s.schedule;
        schedule_map = delete key s.schedule_map;
      }))
  ]

  -- `Schedule`: an item with no time is skipped.
  unfoldable pub schedule_item : Schedule T → Pointer T → Schedule T
  unfolding insert_item
  schedule_item s item = elim (time_getter item.value) [
    | none ↦ s
    | some t ↦ insert_item s (key_getter item.value) item
  ]

  unfoldable pub reschedule : Schedule T → Pointer T → Option (Schedule T)
  unfolding remove_key schedule_item
  reschedule s item = elim (lookup (key_getter item.value) s.schedule_map) [
    | none ↦ some (schedule_item s item)
    | some old ↦ (do s' ← remove_key s (key_getter item.value); some (schedule_item s' item))
  ]

  unfoldable pub is_scheduled : Schedule T → String → Bool
  is_scheduled s key = elim (lookup key s.schedule_map) [ none ↦ false | some p ↦ true ]

  unfoldable pub remove : Schedule T → String → Option (Schedule T)
  unfolding remove_key
  remove s key = remove_key s key

  pub pop_first : List (Pointer T) → Map String (Pointer T) → ℕ → Option (Pointer T) × Schedule T
  pop_first [] m now = (none, record { schedule = []; schedule_map = m })
  pop_first (item ∷ rest) m now =
      if leb (unix item) now
      then (some item, record { schedule = rest; schedule_map = delete (key_getter item.value) m })
      else (none, record { schedule = item ∷ rest; schedule_map = m })

  unfoldable pub try_pop_at : Schedule T → ℕ → Option (Pointer T) × Schedule T
  unfolding pop_first
  try_pop_at s now = pop_first s.schedule s.schedule_map now
