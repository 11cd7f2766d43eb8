-- ===== src/Ring/Bytes/Lines.antt =====
-- `trim` leaves the text behind the first line ends, as many as are over the limit.
use antimony_backend.Base.{
  ◌==◌, nat_eq, string_eq, ltb, if◌then◌else◌, ltb→lt, Bool-cases, Option-cases, drop, ℕ, zero, suc,
  ◌+◌, ◌-◌, ◌≤◌, ◌<◌, min, ◌≡◌, refl, sym, ap, ◌∙◌, inl, inr, none, some, List, [], ◌∷◌, ◌++◌,
  arith,
}
use native.Mathlib.Numerals.{add-one}
use antimony_backend.Ring.Bytes.{ByteRing, newline, index_byte, count_byte, trim_loop, trim}

-- What stands behind the first `k` line ends.
unfoldable pub drop_lines : ℕ → List ℕ → List ℕ
drop_lines zero xs = xs
drop_lines (suc k) [] = []
drop_lines (suc k) (x ∷ xs) = if x == newline then drop_lines k xs else drop_lines (suc k) xs

abbrev pub count : List ℕ → ℕ
count = count_byte newline

pub count-append : (xs ys : List ℕ) → count (xs ++ ys) ≡ count xs + count ys
unfolding count_byte
count-append [] ys = omega arith
count-append (x ∷ xs) ys = omega (arith, count-append xs ys)

pub count-drop_lines : (k : ℕ) (xs : List ℕ) → count (drop_lines k xs) ≡ count xs - k
unfolding count_byte drop_lines
count-drop_lines zero xs = omega arith
count-drop_lines (suc k) [] = omega arith
count-drop_lines (suc k) (x ∷ xs) =
    ground (arith, count-drop_lines k xs, count-drop_lines (suc k) xs)

pub drop_lines-append :
    (k : ℕ) (xs ys : List ℕ) → k ≤ count xs → drop_lines k (xs ++ ys) ≡ drop_lines k xs ++ ys
unfolding count_byte drop_lines
drop_lines-append zero xs ys h = refl
drop_lines-append (suc k) [] ys h = absurd (omega arith)
drop_lines-append (suc k) (x ∷ xs) ys h =
    ground (arith, drop_lines-append k xs ys, drop_lines-append (suc k) xs ys)

drop_lines-nil : (k : ℕ) → drop_lines k [] ≡ []
unfolding drop_lines
drop_lines-nil zero = refl
drop_lines-nil (suc k) = refl

pub drop_lines-drop_lines :
    (j k : ℕ) (xs : List ℕ) → drop_lines j (drop_lines k xs) ≡ drop_lines (k + j) xs
unfolding drop_lines
drop_lines-drop_lines j zero xs = ap (λ n. drop_lines n xs) (let e : j ≡ 0 + j = omega arith in e)
drop_lines-drop_lines j (suc k) [] = drop_lines-nil j ∙ sym (drop_lines-nil (suc k + j))
drop_lines-drop_lines j (suc k) (x ∷ xs) =
    let e : suc (k + j) ≡ suc k + j = omega arith in
    let deeper : drop_lines j (drop_lines (suc k) xs) ≡ drop_lines (suc (k + j)) xs =
      drop_lines-drop_lines j (suc k) xs ∙ ap (λ n. drop_lines n xs) (sym e) in
    ground (arith, drop_lines-drop_lines j k xs, deeper) ∙ ap (λ n. drop_lines n (x ∷ xs)) e

-- The first line end splits off one line.
index_byte-some :
    (xs : List ℕ) (i k : ℕ)
    → index_byte newline xs ≡ some i
    → (drop_lines (suc k) xs ≡ drop_lines k (drop (suc i) xs))
      × (count xs ≡ suc (count (drop (suc i) xs)))
unfolding index_byte count_byte drop_lines
index_byte-some [] i k e = cc
index_byte-some (x ∷ xs) zero k e = ground arith
index_byte-some (x ∷ xs) (suc i) k e = ground (arith, index_byte-some xs i k)

index_byte-none : (xs : List ℕ) → index_byte newline xs ≡ none → count xs ≡ 0
unfolding index_byte count_byte
index_byte-none [] e = refl
index_byte-none (x ∷ xs) e = ground (arith, index_byte-none xs)

abbrev pub trimmed : ByteRing → ByteRing
trimmed b = record b {
  buf = drop_lines (b.lines - b.max_lines) b.buf;
  lines = min b.max_lines b.lines;
}

pub trimmed_fits : (b : ByteRing) → b.lines ≤ b.max_lines → b ≡ trimmed b
unfolding drop_lines
trimmed_fits b h =
    let e : b.lines - b.max_lines ≡ 0 = omega arith in
    let m : min b.max_lines b.lines ≡ b.lines = omega arith in rw (e, m)

trimmed_round :
    (b : ByteRing) (i : ℕ)
    → b.max_lines < b.lines
    → index_byte newline b.buf ≡ some i
    → trimmed (record b { buf = drop (i + 1) b.buf; lines = b.lines - 1 }) ≡ trimmed b
trimmed_round b i h e =
    let d : b.lines - b.max_lines ≡ suc (b.lines - 1 - b.max_lines) = omega arith in
    let m : min b.max_lines (b.lines - 1) ≡ min b.max_lines b.lines = omega arith in
    rw (d, m, add-one)
      (ap (λ xs. record b { buf = xs; lines = min b.max_lines b.lines })
        (sym (index_byte-some b.buf i (b.lines - 1 - b.max_lines) e).0))

-- With a fuel for each line over the limit the loop has removed just those lines.
pub trim_loop_lem :
    (fuel : ℕ) (b : ByteRing)
    → b.lines ≡ count b.buf
    → b.lines ≤ fuel + b.max_lines
    → trim_loop fuel b ≡ trimmed b
unfolding trim_loop
trim_loop_lem zero b v h = trimmed_fits b (omega arith)
trim_loop_lem (suc fuel) b v h = elim (Bool-cases (ltb b.max_lines b.lines)) [
  | inl over ↦ elim (Option-cases (index_byte newline b.buf)) [
    | inl e ↦ absurd (omega (arith, v, ltb→lt _ _ over, index_byte-none b.buf e))
    | inr (i, e) ↦
        rw (over, e, trim_loop)
          (trim_loop_lem fuel (record b { buf = drop (i + 1) b.buf; lines = b.lines - 1 })
              (rw add-one (omega (arith, v, (index_byte-some b.buf i 0 e).1))) (omega arith)
            ∙ trimmed_round b i (ltb→lt _ _ over) e)
  ]
  | inr fits ↦ rw (fits, trim_loop) (trimmed_fits b (ground arith))
]

pub trim_lem : (b : ByteRing) → b.lines ≡ count b.buf → trim b ≡ trimmed b
unfolding trim
trim_lem b v = trim_loop_lem b.lines b v (omega arith)
