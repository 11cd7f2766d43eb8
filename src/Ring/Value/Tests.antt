-- ===== src/Ring/Value/Tests.antt =====
-- Runs of the value ring.
use antimony_backend.Base.{
  nat_eq, string_eq, ◌>>=◌, ℕ, ◌≡◌, refl, false, Option, some, List, [], ◌∷◌,
}
use antimony_backend.Ring.Value.{ValueRing, create, add, add_many, items, len}
use antimony_backend.Ring.Value.Latest.{items-add_many}

run : ℕ → List ℕ → Option (List ℕ)
run capacity xs = do r ← add_many (create 0 false capacity) xs; items r

run_wraps : run 3 (1 ∷ 2 ∷ 3 ∷ 4 ∷ 5 ∷ []) ≡ some (3 ∷ 4 ∷ 5 ∷ [])
unfolding run add_many add create items
run_wraps = refl

items-add_many_example :
    (r : ValueRing ℕ) × (add_many (create 0 false 2) (7 ∷ 8 ∷ 9 ∷ []) ≡ some r)
    × (items r ≡ some (8 ∷ 9 ∷ []))
    × (len r ≡ 2)
items-add_many_example = items-add_many 0 2 (7 ∷ 8 ∷ 9 ∷ [])

abbrev single : ValueRing ℕ
single = record { buf = 5 ∷ []; head = 0; size = 1 }
