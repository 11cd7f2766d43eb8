-- ===== src/Ring/Bytes.antt =====
-- utils/ring.go, `ByteRing`: bytes, with a limit on the number of line ends among them.
-- The byte and line counts stay below 2 ^ 63, as the buffer is in memory.
pub mod Lines
pub mod Chunks
pub mod Tests
use antimony_backend.Base.{
  Eq, ◌==◌, nat_eq, string_eq, ==_refl, ltb, leb, nat_beq, if◌then◌else◌, ltb→lt, leb→le, ltb-of_lt,
  ltb-of_le, nat_beq_iff, Bool-cases, Option-cases, ◌>>=◌, length, get_elem?, take, drop, replicate,
  store, length-append, length-take, length-drop, length-replicate, take-append-drop, take_all,
  drop_all, drop-append, drop-drop, get_elem?-some, Stores, store-some, lookup, put, delete, Map,
  lookup-put, lookup-delete, ℕ, zero, suc, ◌+◌, ◌-◌, ◌*◌, ◌/◌, ◌%◌, ◌^◌, ◌≤◌, ◌<◌, min, String, ◌≡◌,
  refl, sym, ap, subst, ◌∙◌, ◌≢◌, ◌↔◌, ◌⊎◌, inl, inr, Bool, true, false, not, ◌&&◌, ◌||◌, Option,
  none, some, List, [], ◌∷◌, ◌++◌, map, append-nil, append_assoc, arith,
}

pub record ByteRing : Type 0 where
  pub buf : List ℕ
  pub lines : ℕ
  pub max_lines : ℕ

abbrev pub newline : ℕ
newline = 10

-- `CreateByteRing`: `negative` says that the Go `int` is below zero.
unfoldable pub create : Bool → ℕ → ByteRing
create negative capacity = record {
  buf = [];
  lines = 0;
  max_lines = if negative then 0 else capacity;
}

-- `bytes.IndexByte`, with `none` for -1.
unfoldable pub index_byte : ℕ → List ℕ → Option ℕ
index_byte c [] = none
index_byte c (x ∷ xs) = if x == c then some 0 else (do i ← index_byte c xs; some (suc i))

-- `bytes.Count` of a single byte.
unfoldable pub count_byte : ℕ → List ℕ → ℕ
count_byte c [] = 0
count_byte c (x ∷ xs) = (if x == c then 1 else 0) + count_byte c xs

-- The loop of `trim` with fuel.
unfoldable pub trim_loop : ℕ → ByteRing → ByteRing
unfolding index_byte
trim_loop zero b = b
trim_loop (suc fuel) b = elim (ltb b.max_lines b.lines) [
  | false ↦ b
  | true ↦ elim (index_byte newline b.buf) [
    | none ↦ b
    | some i ↦ trim_loop fuel (record b { buf = drop (i + 1) b.buf; lines = b.lines - 1 })
  ]
]

-- Each round takes one line away, so `lines` rounds are enough.
unfoldable pub trim : ByteRing → ByteRing
unfolding trim_loop
trim b = trim_loop b.lines b

unfoldable pub add : ByteRing → ℕ → ByteRing
unfolding trim
add b item =
    let appended = record b { buf = b.buf ++ item ∷ [] } in
    if item == newline then trim (record appended { lines = appended.lines + 1 }) else appended

unfoldable pub add_many : ByteRing → List ℕ → ByteRing
unfolding trim count_byte
add_many b items =
    trim (record b { buf = b.buf ++ items; lines = b.lines + count_byte newline items })

unfoldable pub items : ByteRing → List ℕ
items b = b.buf

unfoldable pub clear : ByteRing → ByteRing
clear b = record b { buf = []; lines = 0 }

pub len : ByteRing → ℕ
len b = length b.buf
