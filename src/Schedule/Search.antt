-- ===== src/Schedule/Search.antt =====
-- `sort.Search` finds the first index at which a monotone predicate holds.
use antimony_backend.Base.{
  nat_eq, string_eq, ltb, ltb→lt, Bool-cases, ℕ, zero, suc, ◌+◌, ◌/◌, ◌≤◌, ◌<◌, ◌≡◌, inl, inr, Bool,
  true, false, arith,
}
use antimony_backend.Schedule.{search_loop, search_index}

-- Once true, the predicate stays true below `n`.
abbrev pub Monotone : ℕ → (ℕ → Bool) → Type 0
Monotone n f = (a b : ℕ) → a ≤ b → b < n → f a ≡ true → f b ≡ true

pub record IsBoundary (n : ℕ) (f : ℕ → Bool) (r : ℕ) : Type 0 where
  pub within : r ≤ n
  pub below : (k : ℕ) → k < r → f k ≡ false
  pub above : (k : ℕ) → r ≤ k → k < n → f k ≡ true

false_before :
    (n : ℕ) (f : ℕ → Bool) (a b : ℕ) → Monotone n f → a ≤ b → b < n → f b ≡ false → f a ≡ false
false_before n f a b m h l e = elim (Bool-cases (f a)) [
  | inl t ↦ absurd (cc (m a b h l t))
  | inr t ↦ t
]

search_loop-IsBoundary :
    (n : ℕ) (f : ℕ → Bool) (fuel i j : ℕ)
    → Monotone n f
    → i ≤ j
    → j ≤ n
    → j ≤ i + fuel
    → ((k : ℕ) → k < i → f k ≡ false)
    → ((k : ℕ) → j ≤ k → k < n → f k ≡ true)
    → IsBoundary n f (search_loop fuel f i j)
unfolding search_loop
search_loop-IsBoundary n f zero i j m h l e lo hi = record {
  within = omega arith;
  below = lo;
  above = λ k a b. hi k (omega arith) b;
}
search_loop-IsBoundary n f (suc fuel) i j m h l e lo hi = elim (Bool-cases (ltb i j)) [
  | inr stop ↦
      let s : j ≤ i = ground arith in
      rw (stop, search_loop)
        (record { within = omega arith; below = lo; above = λ k a b. hi k (omega arith) b })
  | inl more ↦
      let s : i < j = ltb→lt i j more in
      elim (Bool-cases (f ((i + j) / 2))) [
        | inl t ↦
            rw (more, t, search_loop)
              (search_loop-IsBoundary n f fuel i ((i + j) / 2) m (omega arith) (omega arith)
                (omega arith) lo (λ k a b. m ((i + j) / 2) k a b t))
        | inr t ↦
            rw (more, t, search_loop)
              (search_loop-IsBoundary n f fuel ((i + j) / 2 + 1) j m (omega arith) l (omega arith)
                (λ k a. false_before n f k ((i + j) / 2) m (omega arith) (omega arith) t) hi)
      ]
]

pub search_index-IsBoundary :
    (n : ℕ) (f : ℕ → Bool) → Monotone n f → IsBoundary n f (search_index n f)
unfolding search_index
search_index-IsBoundary n f m =
    search_loop-IsBoundary n f n 0 n m (omega arith) (omega arith) (omega arith)
      (λ k h. absurd (omega arith)) (λ k a b. absurd (omega arith))
