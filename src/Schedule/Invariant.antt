-- ===== src/Schedule/Invariant.antt =====
-- What every queue keeps: sorted by time, no item without a time, no pointer twice, and each
-- pointer in the map is queued under its own key. So no operation panics.
use antimony_backend.Base.{
  ◌==◌, nat_eq, string_eq, leb, leb→le, Bool-cases, All, In, All-imp, lookup, ℕ, ◌≤◌, String, ◌≡◌,
  sym, ◌≢◌, ◌⊎◌, inl, inr, Option, some, List, [], ◌∷◌, arith,
}
use antimony_backend.Schedule.{Pointer, Schedule}
use antimony_backend.Schedule.Order.{Sorted, seconds, ordered_insert, erase_address}

-- The address belongs to no pointer of the queue.
abbrev pub IsFresh : {T : Type 0} → ℕ → List (Pointer T) → Type 0
IsFresh a ps = All (λ q. q.address ≢ a) ps

abbrev pub Distinct : {T : Type 0} → List (Pointer T) → Type 0
Distinct [] = Unit
Distinct (p ∷ ps) = IsFresh p.address ps × Distinct ps

module _ {T : Type 0} (key_getter : T → String) (time_getter : T → Option ℕ) where
  abbrev pub IsTimed : Pointer T → Type 0
  IsTimed p = (t : ℕ) × (time_getter p.value ≡ some t)

  pub record IsValid (s : Schedule T) : Type 0 where
    pub sorted : Sorted key_getter time_getter s.schedule
    pub timed : All IsTimed s.schedule
    pub distinct : Distinct s.schedule
    pub mapped :
        (k : String) (p : Pointer T)
        → lookup k s.schedule_map ≡ some p
        → In p s.schedule × (key_getter p.value ≡ k)

  -- A predicate of queues that inserting keeps.
  pub All-ordered_insert {κ} :
      (P : Pointer T → Type κ) (item : Pointer T) (ps : List (Pointer T))
      → P item
      → All P ps
      → All P (ordered_insert key_getter time_getter item ps)
  unfolding ordered_insert
  All-ordered_insert P item [] h a = (h, tt)
  All-ordered_insert P item (p ∷ ps) h a =
      elim (Bool-cases
        (leb (seconds key_getter time_getter item) (seconds key_getter time_getter p))) [
          | inl e ↦ rw e (h, a)
          | inr e ↦ rw e (a.0, All-ordered_insert P item ps h a.1)
        ]

  pub All-erase_address {κ} :
      (P : Pointer T → Type κ) (a : ℕ) (ps : List (Pointer T))
      → All P ps
      → All P (erase_address a ps)
  unfolding erase_address
  All-erase_address P a [] h = tt
  All-erase_address P a (p ∷ ps) h = elim (Bool-cases (p.address == a)) [
    | inl e ↦ rw e h.1
    | inr e ↦ rw e (h.0, All-erase_address P a ps h.1)
  ]

  pub Sorted-ordered_insert :
      (item : Pointer T) (ps : List (Pointer T))
      → Sorted key_getter time_getter ps
      → Sorted key_getter time_getter (ordered_insert key_getter time_getter item ps)
  unfolding ordered_insert
  Sorted-ordered_insert item [] v = (tt, tt)
  Sorted-ordered_insert item (p ∷ ps) v =
      elim (Bool-cases
        (leb (seconds key_getter time_getter item) (seconds key_getter time_getter p))) [
          | inl e ↦
              let l = leb→le _ _ e in
              rw e (
                (
                  l,
                  All-imp _ _ ps
                      (λ q
                          (h : seconds key_getter time_getter p ≤ seconds key_getter time_getter q).
                        omega arith)
                      v.0,
                ),
                v,
              )
          | inr e ↦
              rw e
                (All-ordered_insert _ item ps (ground arith) v.0, Sorted-ordered_insert item ps v.1)
        ]

  pub Sorted-erase_address :
      (a : ℕ) (ps : List (Pointer T))
      → Sorted key_getter time_getter ps
      → Sorted key_getter time_getter (erase_address a ps)
  unfolding erase_address
  Sorted-erase_address a [] v = tt
  Sorted-erase_address a (p ∷ ps) v = elim (Bool-cases (p.address == a)) [
    | inl e ↦ rw e v.1
    | inr e ↦ rw e (All-erase_address _ a ps v.0, Sorted-erase_address a ps v.1)
  ]

  pub Distinct-ordered_insert :
      (item : Pointer T) (ps : List (Pointer T))
      → IsFresh item.address ps
      → Distinct ps
      → Distinct (ordered_insert key_getter time_getter item ps)
  unfolding ordered_insert
  Distinct-ordered_insert item [] f d = (tt, tt)
  Distinct-ordered_insert item (p ∷ ps) f d =
      elim (Bool-cases
        (leb (seconds key_getter time_getter item) (seconds key_getter time_getter p))) [
          | inl e ↦ rw e (f, d)
          | inr e ↦ rw e (
            All-ordered_insert _ item ps (λ h. f.0 (sym h)) d.0,
            Distinct-ordered_insert item ps f.1 d.1,
          )
        ]

  pub Distinct-erase_address :
      (a : ℕ) (ps : List (Pointer T)) → Distinct ps → Distinct (erase_address a ps)
  unfolding erase_address
  Distinct-erase_address a [] d = tt
  Distinct-erase_address a (p ∷ ps) d = elim (Bool-cases (p.address == a)) [
    | inl e ↦ rw e d.1
    | inr e ↦ rw e (All-erase_address _ a ps d.0, Distinct-erase_address a ps d.1)
  ]

  pub In-ordered_insert :
      (item q : Pointer T) (ps : List (Pointer T))
      → (item ≡ q) ⊎ In q ps
      → In q (ordered_insert key_getter time_getter item ps)
  unfolding ordered_insert
  In-ordered_insert item q [] m = m
  In-ordered_insert item q (p ∷ ps) m =
      elim (Bool-cases
        (leb (seconds key_getter time_getter item) (seconds key_getter time_getter p))) [
          | inl e ↦ rw e m
          | inr e ↦ rw e (ground (arith, In-ordered_insert item q ps))
        ]

  pub In-erase_address :
      (a : ℕ) (q : Pointer T) (ps : List (Pointer T))
      → In q ps
      → q.address ≢ a
      → In q (erase_address a ps)
  unfolding erase_address
  In-erase_address a q [] m h = m
  In-erase_address a q (p ∷ ps) m h = elim (Bool-cases (p.address == a)) [
    | inl e ↦ rw e (ground arith)
    | inr e ↦ rw e (ground (arith, In-erase_address a q ps))
  ]
