-- ===== src/Schedule/Order.antt =====
-- The binary search and the slice surgery of `insert` and `remove`, as recursions on the queue.
use antimony_backend.Base.{
  ◌==◌, nat_eq, string_eq, leb, if◌then◌else◌, leb→le, nat_beq_iff, Bool-cases, length, take, drop,
  take_all, drop_all, All, In, put, ℕ, zero, suc, ◌≤◌, ◌<◌, String, ◌≡◌, refl, sym, ap, ◌∙◌, inl,
  inr, true, Option, some, List, [], ◌∷◌, ◌++◌, arith,
}
use antimony_backend.Schedule.Search.{Monotone, IsBoundary, search_index-IsBoundary}
use antimony_backend.Schedule.{
  Pointer, Schedule, search_index, index_of, unix, not_before, insert_item,
}

-- The queue without the pointer of that address.
unfoldable pub erase_address : {T : Type 0} → ℕ → List (Pointer T) → List (Pointer T)
erase_address a [] = []
erase_address a (p ∷ ps) = if p.address == a then ps else p ∷ erase_address a ps

pub index_of-erase_address :
    {T : Type 0} (a : ℕ) (ps : List (Pointer T)) (p : Pointer T)
    → In p ps
    → p.address ≡ a
    → (i : ℕ) × (index_of a ps ≡ some i) × (take i ps ++ drop (suc i) ps ≡ erase_address a ps)
unfolding index_of erase_address
index_of-erase_address a [] p m e = absurd m
index_of-erase_address a (q ∷ qs) p m e = elim (Bool-cases (q.address == a)) [
  | inl same ↦ (0, rw same, rw same)
  | inr other ↦
      let later : In p qs = ground arith in
      let (i, found, split) = index_of-erase_address a qs p later e in
      (suc i, rw (other, found), rw other (ap (◌∷◌ q) split))
]

module _ {T : Type 0} (key_getter : T → String) (time_getter : T → Option ℕ) where
  abbrev pub seconds : Pointer T → ℕ
  seconds p = unix key_getter time_getter p

  -- Each item's time is at most the times behind it.
  abbrev pub Sorted : List (Pointer T) → Type 0
  Sorted [] = Unit
  Sorted (p ∷ ps) = All (λ q. seconds p ≤ seconds q) ps × Sorted ps

  -- Before the first item that is not earlier.
  unfoldable pub ordered_insert : Pointer T → List (Pointer T) → List (Pointer T)
  ordered_insert item [] = item ∷ []
  ordered_insert item (p ∷ ps) =
      if leb (seconds item) (seconds p) then item ∷ p ∷ ps else p ∷ ordered_insert item ps

  All-not_before :
      (ps : List (Pointer T)) (s t k : ℕ)
      → t ≤ s
      → All (λ q. s ≤ seconds q) ps
      → k < length ps
      → not_before key_getter time_getter ps t k ≡ true
  All-not_before [] s t k h a l = absurd (omega arith)
  All-not_before (p ∷ ps) s t zero h a l = ground arith
  All-not_before (p ∷ ps) s t (suc k) h a l = All-not_before ps s t k h a.1 (omega arith)

  not_before-Monotone :
      (ps : List (Pointer T)) (t : ℕ)
      → Sorted ps
      → Monotone (length ps) (not_before key_getter time_getter ps t)
  not_before-Monotone [] t s a b h l e = absurd (omega arith)
  not_before-Monotone (p ∷ ps) t s zero zero h l e = e
  not_before-Monotone (p ∷ ps) t s zero (suc b) h l e =
      All-not_before ps (seconds p) t b (leb→le _ _ e) s.0 (omega arith)
  not_before-Monotone (p ∷ ps) t s (suc a) zero h l e = absurd (omega arith)
  not_before-Monotone (p ∷ ps) t s (suc a) (suc b) h l e =
      not_before-Monotone ps t s.1 a b (omega arith) (omega arith) e

  cut-eq-ordered_insert :
      (item : Pointer T) (ps : List (Pointer T)) (r : ℕ)
      → IsBoundary (length ps) (not_before key_getter time_getter ps (seconds item)) r
      → take r ps ++ item ∷ drop r ps ≡ ordered_insert item ps
  unfolding ordered_insert
  cut-eq-ordered_insert item [] zero b = refl
  cut-eq-ordered_insert item [] (suc r) b = absurd (omega (arith, b.within))
  cut-eq-ordered_insert item (p ∷ ps) zero b = rw (b.above 0 (omega arith) (omega arith))
  cut-eq-ordered_insert item (p ∷ ps) (suc r) b = rw (b.below 0 (omega arith)) (
      ap (◌∷◌ p) (
        cut-eq-ordered_insert item ps r (record {
          within = omega (arith, b.within);
          below = λ k h. b.below (suc k) (omega arith);
          above = λ k h l. b.above (suc k) (omega arith) (omega arith);
        })))

  -- On a sorted queue the binary search puts the item where a linear scan would.
  pub insert_item-ordered_insert :
      (s : Schedule T) (key : String) (item : Pointer T)
      → Sorted s.schedule
      → insert_item key_getter time_getter s key item ≡ record {
        schedule = ordered_insert item s.schedule;
        schedule_map = put key item s.schedule_map;
      }
  unfolding insert_item
  insert_item-ordered_insert s key item v = elim (Bool-cases (index == length s.schedule)) [
    | inl end ↦
        rw (end, insert_item)
          (λ i. record {
            schedule = at_end ((nat_beq_iff _ _).0 end) i;
            schedule_map = put key item s.schedule_map;
          })
    | inr inside ↦
        rw (inside, insert_item)
          (λ i. record { schedule = cut i; schedule_map = put key item s.schedule_map })
  ]
    where
      index : ℕ
      index =
          search_index (length s.schedule)
            (not_before key_getter time_getter s.schedule (seconds item))

      cut : take index s.schedule ++ item ∷ drop index s.schedule ≡ ordered_insert item s.schedule
      cut =
          cut-eq-ordered_insert item s.schedule index
            (search_index-IsBoundary _ _ (not_before-Monotone s.schedule (seconds item) v))

      at_end : index ≡ length s.schedule → s.schedule ++ item ∷ [] ≡ ordered_insert item s.schedule
      at_end e =
          (λ i.
            sym (take_all index s.schedule (omega arith)) i
            ++ item ∷ sym (drop_all index s.schedule (omega arith)) i)
          ∙ cut
