-- ===== src/Base/Maps.antt =====
-- Go's maps as association lists. Where the program ranges over a map, Go leaves the order
-- open and the model takes the order of the list.
use mathlib.Core.Path.{◌≡◌, refl, sym, ◌∙◌}
use mathlib.Core.Logic.{◌≢◌, ◌⊎◌, inl, inr}
use mathlib.Core.List.{List, [], ◌∷◌}
use mathlib.Core.Option.{Option, none, some}
use native.Mathlib.Omega.{arith}
use antimony_backend.Base.Tests.{Eq, ◌==◌, ==_refl, if◌then◌else◌, Bool-cases}

abbrev pub Map {ℓ κ} : Type ℓ → Type κ → Type (ℓ ⊔ κ)
Map K V = List (K × V)

module _ {ℓ κ} {K : Type ℓ} {V : Type κ} ⦃e : Eq K⦄ where
  -- `v, ok := m[k]`
  unfoldable pub lookup : K → Map K V → Option V
  lookup k [] = none
  lookup k ((j, v) ∷ m) = if j == k then some v else lookup k m

  -- `delete(m, k)`
  unfoldable pub delete : K → Map K V → Map K V
  delete k [] = []
  delete k ((j, v) ∷ m) = let rest = delete k m in if j == k then rest else (j, v) ∷ rest

  -- `m[k] = v`
  unfoldable pub put : K → V → Map K V → Map K V
  put k v [] = (k, v) ∷ []
  put k v ((j, w) ∷ m) = if j == k then (k, v) ∷ m else (j, w) ∷ put k v m

  pub lookup-put :
      (k j : K) (v : V) (m : Map K V)
      → lookup j (put k v m) ≡ (if k == j then some v else lookup j m)
  unfolding lookup put
  lookup-put k j v [] = refl
  lookup-put k j v ((i, w) ∷ m) =
      ground (arith, e.equal_iff k j, e.equal_iff i k, e.equal_iff i j, lookup-put k j v m)

  pub lookup-delete :
      (k j : K) (m : Map K V) → lookup j (delete k m) ≡ (if k == j then none else lookup j m)
  unfolding lookup delete
  lookup-delete k j [] = ground arith
  lookup-delete k j ((i, v) ∷ m) =
      ground (arith, lookup-delete k j m, e.equal_iff i k, e.equal_iff i j, e.equal_iff k j)

  pub lookup-put_self : (k : K) (v : V) (m : Map K V) → lookup k (put k v m) ≡ some v
  lookup-put_self k v m = rw (lookup-put, ==_refl k)

  pub lookup-put_ne : (k j : K) (v : V) (m : Map K V) → k ≢ j → lookup j (put k v m) ≡ lookup j m
  lookup-put_ne k j v m h = elim (Bool-cases (k == j)) [
    | inl same ↦ absurd (h ((e.equal_iff k j).0 same))
    | inr other ↦ rw (lookup-put, other)
  ]

  pub lookup-delete_self : (k : K) (m : Map K V) → lookup k (delete k m) ≡ none
  lookup-delete_self k m = rw (lookup-delete, ==_refl k)

  pub lookup-delete_ne : (k j : K) (m : Map K V) → k ≢ j → lookup j (delete k m) ≡ lookup j m
  lookup-delete_ne k j m h = elim (Bool-cases (k == j)) [
    | inl same ↦ absurd (h ((e.equal_iff k j).0 same))
    | inr other ↦ rw (lookup-delete, other)
  ]

  -- Where a binding of the changed map comes from.
  pub lookup-put-some :
      (k j : K) (v w : V) (m : Map K V)
      → lookup j (put k v m) ≡ some w
      → ((k ≡ j) × (v ≡ w)) ⊎ ((k ≢ j) × (lookup j m ≡ some w))
  lookup-put-some k j v w m h = elim (Bool-cases (k == j)) [
    | inl same ↦
        let here : lookup j (put k v m) ≡ some v = rw (lookup-put, same) in
        inl ((e.equal_iff k j).0 same, ground (arith, here))
    | inr other ↦
        let there : lookup j (put k v m) ≡ lookup j m = rw (lookup-put, other) in
        inr ((λ x. absurd (cc ((e.equal_iff k j).1 x))), sym there ∙ h)
  ]

  pub lookup-delete-some :
      (k j : K) (w : V) (m : Map K V)
      → lookup j (delete k m) ≡ some w
      → (k ≢ j) × (lookup j m ≡ some w)
  lookup-delete-some k j w m h = elim (Bool-cases (k == j)) [
    | inl same ↦
        let gone : lookup j (delete k m) ≡ none = rw (lookup-delete, same) in absurd (cc gone)
    | inr other ↦
        let there : lookup j (delete k m) ≡ lookup j m = rw (lookup-delete, other) in
        ((λ x. absurd (cc ((e.equal_iff k j).1 x))), sym there ∙ h)
  ]
