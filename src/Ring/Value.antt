-- ===== src/Ring/Value.antt =====
-- utils/ring.go, `ValueRing`: a fixed buffer, the index of its oldest item and the item count.
-- `none` is a Go index panic.
pub mod Window
pub mod Refines
pub mod Latest
pub mod Tests
use antimony_backend.Base.{
  Eq, ◌==◌, nat_eq, string_eq, ==_refl, ltb, leb, nat_beq, if◌then◌else◌, ltb→lt, leb→le, ltb-of_lt,
  ltb-of_le, nat_beq_iff, Bool-cases, Option-cases, ◌>>=◌, length, get_elem?, take, drop, replicate,
  store, length-append, length-take, length-drop, length-replicate, take-append-drop, take_all,
  drop_all, drop-append, drop-drop, get_elem?-some, Stores, store-some, lookup, put, delete, Map,
  lookup-put, lookup-delete, ℕ, zero, suc, ◌+◌, ◌-◌, ◌*◌, ◌/◌, ◌%◌, ◌^◌, ◌≤◌, ◌<◌, min, String, ◌≡◌,
  refl, sym, ap, subst, ◌∙◌, ◌≢◌, ◌↔◌, ◌⊎◌, inl, inr, Bool, true, false, not, ◌&&◌, ◌||◌, Option,
  none, some, List, [], ◌∷◌, ◌++◌, map, append-nil, append_assoc, arith,
}

pub record ValueRing {ℓ} (T : Type ℓ) : Type ℓ where
  pub buf : List T
  pub head : ℕ
  pub size : ℕ

module _ {ℓ} {T : Type ℓ} where
  -- `CreateValueRing`: `negative` says that the Go `int` is below zero.
  pub create : T → Bool → ℕ → ValueRing T
  create zero_value negative capacity = record {
    buf = replicate (if negative then 0 else capacity) zero_value;
    head = 0;
    size = 0;
  }

  unfoldable pub add : ValueRing T → T → Option (ValueRing T)
  add r item =
      if length r.buf == 0
      then some r
      else if ltb r.size (length r.buf)
      then (do
        buf ← store r.buf ((r.head + r.size) % length r.buf) item
        some (record r { buf = buf; size = r.size + 1 }))
      else (do
        buf ← store r.buf r.head item
        some (record r { buf = buf; head = (r.head + 1) % length r.buf }))

  unfoldable pub add_many : ValueRing T → List T → Option (ValueRing T)
  add_many r [] = some r
  add_many r (item ∷ items) = do r' ← add r item; add_many r' items

  -- The loop of `Items`: `left` rounds remain, `i` is the loop variable.
  pub collect : List T → ℕ → ℕ → ℕ → Option (List T)
  collect buf head zero i = some []
  collect buf head (suc left) i = do
    item ← get_elem? buf ((head + i) % length buf)
    rest ← collect buf head left (suc i)
    some (item ∷ rest)

  unfoldable pub items : ValueRing T → Option (List T)
  unfolding collect
  items r = collect r.buf r.head r.size 0

  pub clear : T → ValueRing T → ValueRing T
  clear zero_value r = record r { buf = replicate (length r.buf) zero_value; head = 0; size = 0 }

  pub len : ValueRing T → ℕ
  len r = r.size
