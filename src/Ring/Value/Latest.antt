-- ===== src/Ring/Value/Latest.antt =====
-- What the whole interface of the value ring gives: every history leaves the latest items.
use antimony_backend.Base.{
  nat_eq, string_eq, length, drop, length-append, length-drop, length-replicate, drop-append,
  drop-drop, ℕ, ◌-◌, min, ◌≡◌, refl, sym, ap, subst, ◌∙◌, Bool, false, some, List, [], ◌∷◌, ◌++◌,
  append-nil, append_assoc, arith,
}
use antimony_backend.Ring.Value.{ValueRing, create, add_many, items, clear, len}
use antimony_backend.Ring.Value.Window.{collect-Window}
use antimony_backend.Ring.Value.Refines.{Represents, latest, add-Adds}

module _ {ℓ} {T : Type ℓ} where
  -- Dropping to the latest `n` before or after more items arrive is the same.
  latest-append : (n : ℕ) (xs ys : List T) → latest n (latest n xs ++ ys) ≡ latest n (xs ++ ys)
  latest-append n xs ys =
      ap (λ k. drop k (latest n xs ++ ys)) same_count
      ∙ ap (λ zs. drop (length (xs ++ ys) - n - (length xs - n)) zs)
          (sym (drop-append (length xs - n) xs ys (omega arith)))
      ∙ drop-drop (length (xs ++ ys) - n - (length xs - n)) (length xs - n) (xs ++ ys)
      ∙ ap (λ k. drop k (xs ++ ys)) (omega (arith, length-append xs ys))
    where
      same_count : length (latest n xs ++ ys) - n ≡ length (xs ++ ys) - n - (length xs - n)
      same_count = omega (
        arith,
        length-append (latest n xs) ys,
        length-append xs ys,
        length-drop (length xs - n) xs,
      )

  pub create-Represents :
      (d : T) (negative : Bool) (capacity : ℕ) → Represents (create d negative capacity) []
  unfolding create
  create-Represents d negative capacity = record {
    window = tt;
    sized = refl;
    fits = omega arith;
    headed = omega arith;
  }

  pub clear-Represents : (d : T) (r : ValueRing T) → Represents (clear d r) []
  unfolding clear
  clear-Represents d r = record {
    window = tt;
    sized = refl;
    fits = omega arith;
    headed = omega arith;
  }

  pub record AddsMany (r : ValueRing T) (xs ys : List T) : Type ℓ where
    pub after : ValueRing T
    pub returns : add_many r xs ≡ some after
    pub keeps_capacity : length after.buf ≡ length r.buf
    pub holds : Represents after ys

  pub add_many-AddsMany :
      (r : ValueRing T) (xs ys : List T)
      → Represents r xs
      → AddsMany r ys (latest (length r.buf) (xs ++ ys))
  unfolding add_many
  add_many-AddsMany r xs [] v = record {
    after = r;
    returns = refl;
    keeps_capacity = refl;
    holds =
        let e : length xs - length r.buf ≡ 0 = omega (arith, v.fits, v.sized) in
        rw (append-nil xs, e) v;
  }
  add_many-AddsMany r xs (y ∷ ys) v =
      let first = add-Adds r xs y v in
      let rest = add_many-AddsMany first.after _ ys first.holds in
      record {
        after = rest.after;
        returns = rw first.returns rest.returns;
        keeps_capacity = rest.keeps_capacity ∙ first.keeps_capacity;
        holds =
            subst (Represents rest.after)
              (ap (λ n. latest n (latest (length r.buf) (xs ++ y ∷ []) ++ ys)) first.keeps_capacity
                ∙ latest-append (length r.buf) (xs ++ y ∷ []) ys
                ∙ ap (latest (length r.buf)) (append_assoc xs (y ∷ []) ys))
              rest.holds;
      }

  pub items-Represents : (r : ValueRing T) (xs : List T) → Represents r xs → items r ≡ some xs
  unfolding items
  items-Represents r xs v = rw v.sized (collect-Window r.buf r.head 0 xs v.window)

  -- A ring created with a capacity that is not negative takes any items without a panic; it then
  -- returns the latest `capacity` of them, oldest first, and `Len` is their number.
  pub items-add_many :
      (d : T) (capacity : ℕ) (xs : List T)
      → (r : ValueRing T) × (add_many (create d false capacity) xs ≡ some r)
        × (items r ≡ some (latest capacity xs))
        × (len r ≡ min capacity (length xs))
  unfolding create len
  items-add_many d capacity xs =
      let m =
        add_many-AddsMany (create d false capacity) [] xs (create-Represents d false capacity) in
      let v : Represents m.after (latest capacity xs) =
        subst (λ n. Represents m.after (latest n xs)) (length-replicate capacity d) m.holds in
      (
        m.after,
        m.returns,
        items-Represents m.after _ v,
        omega (arith, v.sized, length-drop (length xs - capacity) xs),
      )

  -- `Clear` empties a ring and keeps its capacity: after it the ring takes any items without a
  -- panic and returns the latest of those alone.
  pub items-add_many-clear :
      (d : T) (r : ValueRing T) (xs : List T)
      → (r' : ValueRing T) × (items (clear d r) ≡ some [])
        × (add_many (clear d r) xs ≡ some r')
        × (items r' ≡ some (latest (length r.buf) xs))
  unfolding clear
  items-add_many-clear d r xs =
      let m = add_many-AddsMany (clear d r) [] xs (clear-Represents d r) in
      let v : Represents m.after (latest (length r.buf) xs) =
        subst (λ n. Represents m.after (latest n xs)) (length-replicate (length r.buf) d) m.holds in
      (
        m.after,
        items-Represents (clear d r) [] (clear-Represents d r),
        m.returns,
        items-Represents m.after _ v,
      )
