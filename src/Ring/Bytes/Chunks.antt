-- ===== src/Ring/Bytes/Chunks.antt =====
-- The byte ring holds the text behind the line ends that are over its limit, however the text
-- came in.
use antimony_backend.Base.{
  ◌==◌, nat_eq, string_eq, Bool-cases, ℕ, ◌+◌, ◌-◌, ◌≤◌, min, ◌≡◌, refl, sym, ap, ◌∙◌, inl, inr,
  Bool, false, List, [], ◌∷◌, ◌++◌, append-nil, append_assoc, arith,
}
use antimony_backend.Ring.Bytes.{ByteRing, newline, count_byte, create, trim, add, add_many}
use antimony_backend.Ring.Bytes.Lines.{
  count, count-append, count-drop_lines, drop_lines, drop_lines-append, drop_lines-drop_lines,
  trim_lem, trimmed_fits,
}

-- The line count is right and within the limit.
pub record IsValid (b : ByteRing) : Type 0 where
  pub counted : b.lines ≡ count b.buf
  pub within : b.lines ≤ b.max_lines

pub create-IsValid : (negative : Bool) (capacity : ℕ) → IsValid (create negative capacity)
unfolding create count_byte
create-IsValid negative capacity = record { counted = refl; within = omega arith }

-- The contents after `items` came in.
abbrev pub holding : ByteRing → List ℕ → ByteRing
holding b items = record b {
  buf = drop_lines (count (b.buf ++ items) - b.max_lines) (b.buf ++ items);
  lines = min b.max_lines (count (b.buf ++ items));
}

pub add_many-holding :
    (b : ByteRing) (items : List ℕ) → IsValid b → add_many b items ≡ holding b items
unfolding add_many
add_many-holding b items v =
    let e : b.lines + count items ≡ count (b.buf ++ items) =
      omega (arith, v.counted, count-append b.buf items) in
    trim_lem (record b { buf = b.buf ++ items; lines = b.lines + count items }) e ∙ rw e

-- From a valid ring, `AddMany` keeps the ring valid and returns: the buffer is the old text and
-- the new, less as many whole lines at the front as there are over the limit, and the line count
-- is the number of line ends in it.
pub add_many_lem :
    (b : ByteRing) (items : List ℕ)
    → IsValid b
    → ((add_many b items).buf ≡ drop_lines (count (b.buf ++ items) - b.max_lines) (b.buf ++ items))
      × IsValid (add_many b items)
add_many_lem b items v = rw (add_many-holding b items v) (
  refl,
  record {
    counted =
        omega (arith, count-drop_lines (count (b.buf ++ items) - b.max_lines) (b.buf ++ items));
    within = omega arith;
  },
)

-- How a text is cut into calls of `AddMany` makes no difference to a valid ring.
pub add_many-append :
    (b : ByteRing) (xs ys : List ℕ)
    → IsValid b
    → add_many (add_many b xs) ys ≡ add_many b (xs ++ ys)
add_many-append b xs ys v =
    add_many-holding (add_many b xs) ys (add_many_lem b xs v).1
    ∙ ap (λ c. holding c ys) (add_many-holding b xs v)
    ∙ (λ i. record b { buf = text i; lines = rest i })
    ∙ sym (add_many-holding b (xs ++ ys) v)
  where
    kept : List ℕ
    kept = drop_lines (count (b.buf ++ xs) - b.max_lines) (b.buf ++ xs)

    counts :
        count (kept ++ ys) ≡ count (b.buf ++ xs) - (count (b.buf ++ xs) - b.max_lines) + count ys
    counts = omega (
      arith,
      count-append kept ys,
      count-drop_lines (count (b.buf ++ xs) - b.max_lines) (b.buf ++ xs),
    )

    total : count (b.buf ++ (xs ++ ys)) ≡ count (b.buf ++ xs) + count ys
    total = ap count (sym (append_assoc b.buf xs ys)) ∙ count-append (b.buf ++ xs) ys

    rest : min b.max_lines (count (kept ++ ys)) ≡ min b.max_lines (count (b.buf ++ (xs ++ ys)))
    rest = omega (arith, counts, total)

    text :
        drop_lines (count (kept ++ ys) - b.max_lines) (kept ++ ys)
        ≡ drop_lines (count (b.buf ++ (xs ++ ys)) - b.max_lines) (b.buf ++ (xs ++ ys))
    text =
        ap (drop_lines (count (kept ++ ys) - b.max_lines)) (
          sym
            (drop_lines-append (count (b.buf ++ xs) - b.max_lines) (b.buf ++ xs) ys (omega arith)))
        ∙ drop_lines-drop_lines (count (kept ++ ys) - b.max_lines)
            (count (b.buf ++ xs) - b.max_lines) (b.buf ++ xs ++ ys)
        ∙ ap (drop_lines (count (b.buf ++ xs) - b.max_lines + (count (kept ++ ys) - b.max_lines)))
            (append_assoc b.buf xs ys)
        ∙ ap (λ n. drop_lines n (b.buf ++ (xs ++ ys))) (omega (arith, counts, total))

add_plain :
    (b : ByteRing) (x : ℕ) → IsValid b → (x == newline) ≡ false → add b x ≡ add_many b (x ∷ [])
unfolding add add_many count_byte
add_plain b x v h =
    let e : b.lines + (0 + 0) ≡ b.lines = omega arith in
    let c : count (x ∷ []) ≡ 0 = rw h in
    rw h (
      rw e (
        trimmed_fits (record b { buf = b.buf ++ x ∷ [] }) v.within
        ∙ sym (
            trim_lem (record b { buf = b.buf ++ x ∷ [] })
              (omega (arith, v.counted, count-append b.buf (x ∷ []), c)))))

-- `Add` of a byte is `AddMany` of that byte alone, on a valid ring.
pub add-eq-add_many : (b : ByteRing) (x : ℕ) → IsValid b → add b x ≡ add_many b (x ∷ [])
unfolding add add_many count_byte
add-eq-add_many b x v = elim (Bool-cases (x == newline)) [
  | inl h ↦ rw h (
      ap (λ n. trim (record b { buf = b.buf ++ x ∷ []; lines = n }))
        (let e : b.lines + 1 ≡ b.lines + (1 + 0) = omega arith in e))
  | inr h ↦ add_plain b x v h
]

unfoldable pub add_each : ByteRing → List ℕ → ByteRing
add_each b [] = b
add_each b (x ∷ xs) = add_each (add b x) xs

-- `Add` of each byte of a text in turn and one `AddMany` of the text leave a valid ring in one
-- state.
pub add_each-eq-add_many : (b : ByteRing) (xs : List ℕ) → IsValid b → add_each b xs ≡ add_many b xs
unfolding add_each
add_each-eq-add_many b [] v =
    sym
      (add_many-holding b [] v ∙ rw (append-nil b.buf, ← v.counted) (sym (trimmed_fits b v.within)))
add_each-eq-add_many b (x ∷ xs) v =
    add_each-eq-add_many (add b x) xs (rw (add-eq-add_many b x v) (add_many_lem b (x ∷ []) v).1)
    ∙ ap (λ c. add_many c xs) (add-eq-add_many b x v)
    ∙ add_many-append b (x ∷ []) xs v
