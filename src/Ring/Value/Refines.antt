-- ===== src/Ring/Value/Refines.antt =====
-- The value ring refines "the latest items, oldest first".
use antimony_backend.Base.{
  ◌==◌, nat_eq, string_eq, ltb, ltb→lt, ltb-of_lt, ltb-of_le, Bool-cases, length, get_elem?, drop,
  store, length-append, Stores, store-some, ℕ, suc, ◌+◌, ◌-◌, ◌%◌, ◌≤◌, ◌<◌, ◌≡◌, refl, sym, ap,
  ◌∙◌, inl, inr, true, false, some, List, [], ◌∷◌, ◌++◌, arith,
}
use antimony_backend.Ring.Value.{ValueRing, add}
use antimony_backend.Ring.Value.Window.{
  Window, Window-snoc, Window-transfer, place-ne, place-lt, place-shift, place-back, wrap-lt,
}

module _ {ℓ} {T : Type ℓ} where
  -- The last `n` items of a list.
  abbrev pub latest : ℕ → List T → List T
  latest n xs = drop (length xs - n) xs

  -- `r` holds the list `xs`, oldest item first.
  pub record Represents (r : ValueRing T) (xs : List T) : Type ℓ where
    pub window : Window r.buf r.head 0 xs
    pub sized : r.size ≡ length xs
    pub fits : r.size ≤ length r.buf
    pub headed : r.head ≤ length r.buf - 1

  -- What `add` promises: it returns, keeps the capacity, and holds the latest items.
  pub record Adds (r : ValueRing T) (x : T) (ys : List T) : Type ℓ where
    pub after : ValueRing T
    pub returns : add r x ≡ some after
    pub keeps_capacity : length after.buf ≡ length r.buf
    pub holds : Represents after ys

  step_room :
      (r : ValueRing T) (x : T) (buf : List T)
      → 0 < length r.buf
      → r.size < length r.buf
      → store r.buf ((r.head + r.size) % length r.buf) x ≡ some buf
      → add r x ≡ some (record r { buf = buf; size = r.size + 1 })
  unfolding add
  step_room r x buf h k e =
      let p : (length r.buf == 0) ≡ false = ground arith in rw (p, ltb-of_lt _ _ k, e)

  step_full :
      (r : ValueRing T) (x : T) (buf : List T)
      → 0 < length r.buf
      → length r.buf ≤ r.size
      → store r.buf r.head x ≡ some buf
      → add r x ≡ some (record r { buf = buf; head = (r.head + 1) % length r.buf })
  unfolding add
  step_full r x buf h k e =
      let p : (length r.buf == 0) ≡ false = ground arith in rw (p, ltb-of_le _ _ k, e)

  -- A write to the place behind the last item.
  room :
      (r : ValueRing T) (xs : List T) (x : T)
      → Represents r xs
      → length xs < length r.buf
      → Stores r.buf ((r.head + r.size) % length r.buf) x
      → Adds r x (xs ++ x ∷ [])
  room r xs x v h w = record {
    after = record r { buf = w.result; size = r.size + 1 };
    returns = step_room r x w.result (omega (arith, h)) (omega (arith, v.sized, h)) w.stored;
    keeps_capacity = w.same_length;
    holds = record {
      window =
          Window-snoc w.result r.head 0 xs x
            (Window-transfer r.buf w.result r.head r.head 0 0 xs
              (λ k l.
                ap (λ n. get_elem? w.result ((r.head + (0 + k)) % n)) w.same_length
                ∙ w.at_ne ((r.head + (0 + k)) % length r.buf) (λ e.
                  place-ne (length r.buf) r.head (0 + k) r.size (omega (arith, v.headed))
                    (omega (arith, v.sized)) (omega (arith, v.sized)) (sym e)))
              v.window)
            (ap (λ n. get_elem? w.result ((r.head + n) % length w.result))
                (let e : 0 + length xs ≡ r.size = omega (arith, v.sized) in e)
              ∙ ap (λ n. get_elem? w.result ((r.head + r.size) % n)) w.same_length
              ∙ w.at_self);
      sized = omega (arith, length-append xs (x ∷ []), v.sized);
      fits = omega (arith, w.same_length, v.sized);
      headed = omega (arith, w.same_length, v.headed);
    };
  }

  -- A write over the oldest item, and a step of the head.
  full :
      (r : ValueRing T) (y : T) (ys : List T) (x : T)
      → Represents r (y ∷ ys)
      → length (y ∷ ys) ≡ length r.buf
      → Stores r.buf r.head x
      → Adds r x (ys ++ x ∷ [])
  full r y ys x v h w = record {
    after = record r { buf = w.result; head = (r.head + 1) % length r.buf };
    returns = step_full r x w.result (omega (arith, h)) (omega (arith, v.sized, h)) w.stored;
    keeps_capacity = w.same_length;
    holds = record {
      window =
          Window-snoc w.result ((r.head + 1) % length r.buf) 0 ys x
            (Window-transfer r.buf w.result r.head ((r.head + 1) % length r.buf) 1 0 ys
              (λ k l. moved k (omega (arith, h))) v.window.1)
            last;
      sized = omega (arith, length-append ys (x ∷ []), v.sized);
      fits = omega (arith, w.same_length, v.sized, h);
      headed = omega (arith, w.same_length, place-lt (length r.buf) r.head 1);
    };
  }
    where
      moved :
          (k : ℕ)
          → suc k < length r.buf
          → get_elem? w.result (((r.head + 1) % length r.buf + (0 + k)) % length w.result)
            ≡ get_elem? r.buf ((r.head + (1 + k)) % length r.buf)
      moved k l =
          ap (λ n. get_elem? w.result (((r.head + 1) % length r.buf + (0 + k)) % n)) w.same_length
          ∙ ap (get_elem? w.result)
              (place-shift (length r.buf) r.head k (omega (arith, v.headed)) l)
          ∙ w.at_ne _ (λ e.
            place-ne (length r.buf) r.head 0 (1 + k) (omega (arith, v.headed)) (omega arith)
              (omega arith)
              (ap (λ a. a % length r.buf) (omega arith)
                ∙ wrap-lt (length r.buf) r.head (omega (arith, v.headed))
                ∙ e))

      last :
          get_elem? w.result (((r.head + 1) % length r.buf + (0 + length ys)) % length w.result)
          ≡ some x
      last =
          ap (λ n. get_elem? w.result (((r.head + 1) % length r.buf + (0 + length ys)) % n))
            w.same_length
          ∙ ap (get_elem? w.result)
              (place-back (length r.buf) r.head (length ys) (omega (arith, v.headed, h)) h)
          ∙ w.at_self

  nothing : (r : ValueRing T) (x : T) → length r.buf ≡ 0 → Represents r [] → Adds r x []
  unfolding add
  nothing r x e v = record {
    after = r;
    returns = let p : (length r.buf == 0) ≡ true = ground arith in rw p;
    keeps_capacity = refl;
    holds = v;
  }

  pub add-Adds :
      (r : ValueRing T) (xs : List T) (x : T)
      → Represents r xs
      → Adds r x (latest (length r.buf) (xs ++ x ∷ []))
  add-Adds r xs x v = elim (Bool-cases (ltb (length xs) (length r.buf))) [
    | inl l ↦
        let h : length xs < length r.buf = ltb→lt _ _ l in
        let e : length (xs ++ x ∷ []) - length r.buf ≡ 0 =
          omega (arith, length-append xs (x ∷ [])) in
        rw e (
          room r xs x v h (
            store-some r.buf _ x
              (place-lt _ r.head r.size (omega (arith, v.headed)) (omega (arith, v.sized)))))
    | inr g ↦
        at_capacity r xs x v
          (omega (arith, v.fits, v.sized, (let k : length r.buf ≤ length xs = ground arith in k)))
  ]
    where
      at_capacity :
          (r : ValueRing T) (xs : List T) (x : T)
          → Represents r xs
          → length xs ≡ length r.buf
          → Adds r x (latest (length r.buf) (xs ++ x ∷ []))
      at_capacity r [] x v e =
          let one : 1 - length r.buf ≡ 1 = omega arith in rw one (nothing r x (sym e) v)
      at_capacity r (y ∷ ys) x v e =
          let one : length (y ∷ ys ++ x ∷ []) - length r.buf ≡ 1 =
            omega (arith, length-append ys (x ∷ [])) in
          rw one (full r y ys x v e (store-some r.buf r.head x (omega (arith, v.headed, e))))
