-- ===== src/Ring/Value/Window.antt =====
-- Which list a buffer with a moving head holds, place by place.
use antimony_backend.Base.{
  nat_eq, string_eq, ltb, ltb→lt, Bool-cases, length, get_elem?, ℕ, suc, ◌+◌, ◌-◌, ◌%◌, ◌≤◌, ◌<◌,
  ◌≡◌, refl, ap, ◌∙◌, ◌≢◌, ◌⊎◌, inl, inr, some, List, [], ◌∷◌, ◌++◌, arith,
}
use native.Mathlib.Nat.{mod-eq_of_lt, mod-eq-sub-mod}
use antimony_backend.Ring.Value.{collect}

-- A head and an offset, both within a buffer of `n` places, wrap round at most once.
pub wrap-lt : (n a : ℕ) → a < n → a % n ≡ a
wrap-lt n a h = mod-eq_of_lt h

pub wrap-ge : (n a : ℕ) → n ≤ a → a < n + n → a % n ≡ a - n
wrap-ge n a h k = mod-eq-sub-mod h ∙ mod-eq_of_lt (omega arith)

pub wrap-cases : (n a : ℕ) → a < n + n → ((a < n) × (a % n ≡ a)) ⊎ ((n ≤ a) × (a % n ≡ a - n))
wrap-cases n a h = elim (Bool-cases (ltb a n)) [
  | inl l ↦ inl (ltb→lt a n l, wrap-lt n a (ltb→lt a n l))
  | inr g ↦ let k : n ≤ a = ground arith in inr (k, wrap-ge n a k h)
]

-- Two offsets below the capacity name two places.
pub place-ne : (n head i j : ℕ) → head < n → i < j → j < n → (head + i) % n ≢ (head + j) % n
place-ne n head i j h k l e =
    absurd
      (omega (arith, wrap-cases n (head + i) (omega arith), wrap-cases n (head + j) (omega arith)))

pub place-lt : (n head i : ℕ) → head < n → i < n → (head + i) % n < n
place-lt n head i h k = omega (arith, wrap-cases n (head + i) (omega arith))

-- The place after the head, as the next head.
pub place-shift :
    (n head k : ℕ) → head < n → suc k < n → ((head + 1) % n + (0 + k)) % n ≡ (head + (1 + k)) % n
place-shift n head k h l = elim (wrap-cases n (head + 1) (omega arith)) [
  | inl (s, e) ↦ rw e (ap (λ a. a % n) (omega arith))
  | inr (s, e) ↦ rw e (
      wrap-lt n (head + 1 - n + (0 + k)) (omega arith)
      ∙ (omega (arith, wrap-cases n (head + (1 + k)) (omega arith))))
]

-- The last offset from the next head is the old head.
pub place-back : (n head m : ℕ) → head < n → suc m ≡ n → ((head + 1) % n + (0 + m)) % n ≡ head
place-back n head m h l = elim (wrap-cases n (head + 1) (omega arith)) [
  | inl (s, e) ↦ rw e (omega (arith, wrap-cases n (head + 1 + (0 + m)) (omega arith)))
  | inr (s, e) ↦ rw e (omega (arith, wrap-cases n (head + 1 - n + (0 + m)) (omega arith)))
]

module _ {ℓ} {T : Type ℓ} where
  -- The places from offset `i` on hold the items of the list.
  abbrev pub Window : List T → ℕ → ℕ → List T → Type ℓ
  Window buf head i [] = Unit
  Window buf head i (x ∷ xs) =
      (get_elem? buf ((head + i) % length buf) ≡ some x) × Window buf head (suc i) xs

  pub collect-Window :
      (buf : List T) (head i : ℕ) (xs : List T)
      → Window buf head i xs
      → collect buf head (length xs) i ≡ some xs
  unfolding collect
  collect-Window buf head i [] w = refl
  collect-Window buf head i (x ∷ xs) w = ground (arith, w.0, collect-Window buf head (suc i) xs w.1)

  pub Window-snoc :
      (buf : List T) (head i : ℕ) (xs : List T) (v : T)
      → Window buf head i xs
      → get_elem? buf ((head + (i + length xs)) % length buf) ≡ some v
      → Window buf head i (xs ++ v ∷ [])
  Window-snoc buf head i [] v w h = (
    ap (λ k. get_elem? buf ((head + k) % length buf)) (let e : i ≡ i + 0 = omega arith in e) ∙ h,
    tt,
  )
  Window-snoc buf head i (x ∷ xs) v w h = (
    w.0,
    Window-snoc buf head (suc i) xs v w.1 (
        ap (λ k. get_elem? buf ((head + k) % length buf))
          (let e : suc i + length xs ≡ i + suc (length xs) = omega arith in e)
        ∙ h),
  )

  pub Window-transfer :
      (buf buf' : List T) (head head' i i' : ℕ) (xs : List T)
      → ((k : ℕ)
          → k < length xs
          → get_elem? buf' ((head' + (i' + k)) % length buf')
            ≡ get_elem? buf ((head + (i + k)) % length buf))
      → Window buf head i xs
      → Window buf' head' i' xs
  Window-transfer buf buf' head head' i i' [] same w = tt
  Window-transfer buf buf' head head' i i' (x ∷ xs) same w = (
    ap (λ k. get_elem? buf' ((head' + k) % length buf')) (let e : i' ≡ i' + 0 = omega arith in e)
        ∙ same 0 (omega arith)
        ∙ ap (λ k. get_elem? buf ((head + k) % length buf)) (let e : i + 0 ≡ i = omega arith in e)
        ∙ w.0,
    Window-transfer buf buf' head head' (suc i) (suc i') xs
        (λ k h.
          ap (λ j. get_elem? buf' ((head' + j) % length buf'))
            (let e : suc i' + k ≡ i' + suc k = omega arith in e)
          ∙ same (suc k) (omega arith)
          ∙ ap (λ j. get_elem? buf ((head + j) % length buf))
              (let e : i + suc k ≡ suc i + k = omega arith in e))
        w.1,
  )
