-- ===== src/Policy/Sorting.antt =====
-- Sorting keeps the items of a slice.
use antimony_backend.Base.{
  nat_eq, string_eq, Bool-cases, All, ◌≡◌, refl, ap, ◌∙◌, inl, inr, Bool, false, ◌||◌, List, [],
  ◌∷◌, arith,
}
use antimony_backend.Policy.Text.{insert_sorted, sorted, contains_func}

module _ {A : Type 0} (before : A → A → Bool) where
  All-insert_sorted :
      (P : A → Type 0) (a : A) (xs : List A) → P a → All P xs → All P (insert_sorted before a xs)
  unfolding insert_sorted
  All-insert_sorted P a [] p h = (p, h)
  All-insert_sorted P a (x ∷ xs) p h = elim (Bool-cases (before a x)) [
    | inl first ↦ rw (first, insert_sorted) (p, h)
    | inr later ↦ rw (later, insert_sorted) (h.0, All-insert_sorted P a xs p h.1)
  ]

  pub All-sorted : (P : A → Type 0) (xs : List A) → All P xs → All P (sorted before xs)
  unfolding sorted
  All-sorted P [] h = tt
  All-sorted P (x ∷ xs) h = All-insert_sorted P x (sorted before xs) h.0 (All-sorted P xs h.1)

  All-of_insert_sorted :
      (P : A → Type 0) (a : A) (xs : List A) → All P (insert_sorted before a xs) → P a × All P xs
  unfolding insert_sorted
  All-of_insert_sorted P a [] h = (h.0, tt)
  All-of_insert_sorted P a (x ∷ xs) h = elim (Bool-cases (before a x)) [
    | inl first ↦ rw (first, insert_sorted) at h
    | inr later ↦
        let (y, ys) = the_rest later in let (p, ps) = All-of_insert_sorted P a xs ys in (p, (y, ps))
  ]
    where
      the_rest : before a x ≡ false → All P (x ∷ insert_sorted before a xs)
      the_rest later = rw (later, insert_sorted) at h

  pub All-of_sorted : (P : A → Type 0) (xs : List A) → All P (sorted before xs) → All P xs
  unfolding sorted
  All-of_sorted P [] h = tt
  All-of_sorted P (x ∷ xs) h =
      let (p, ps) = All-of_insert_sorted P x (sorted before xs) h in (p, All-of_sorted P xs ps)

  contains_func-insert_sorted :
      (f : A → Bool) (a : A) (xs : List A)
      → contains_func (insert_sorted before a xs) f ≡ (f a || contains_func xs f)
  unfolding insert_sorted contains_func
  contains_func-insert_sorted f a [] = refl
  contains_func-insert_sorted f a (x ∷ xs) = ground (arith, contains_func-insert_sorted f a xs)

  -- Whether some item passes a test does not depend on the order.
  pub contains_func-sorted :
      (f : A → Bool) (xs : List A) → contains_func (sorted before xs) f ≡ contains_func xs f
  unfolding sorted contains_func
  contains_func-sorted f [] = refl
  contains_func-sorted f (x ∷ xs) =
      contains_func-insert_sorted f x (sorted before xs)
      ∙ ap (λ b. f x || b) (contains_func-sorted f xs)
