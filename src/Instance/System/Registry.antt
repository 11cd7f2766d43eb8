-- ===== src/Instance/System/Registry.antt =====
-- The abstract view of the instance service: which labs have an instance. Other parts ask only
-- this, by `IsRunning`. The view changes only where a lab is first deployed, destroyed or revived.
use antimony_backend.Base.{
  ◌==◌, nat_eq, string_eq, if◌then◌else◌, Option-cases, All, In, lookup, lookup-put, lookup-delete,
  ℕ, String, ◌≡◌, refl, sym, ap, ◌∙◌, ◌⊎◌, inl, inr, Bool, true, false, Option, none, some, List,
  [], ◌∷◌,
}
use antimony_backend.Entities.{Lab}
use antimony_backend.Instance.{Service, is_running}
use antimony_backend.Instance.System.{
  System, Action, take_out, begin_deployment, run_destruction, revival,
}
use antimony_backend.Instance.System.Keeping.{Keeps}
use antimony_backend.Instance.System.Beginning.{Adds}
use antimony_backend.Instance.System.Removing.{Removes}

pub data Change : Type 0 where
  starts ends : String → Change

-- The registry of the running labs after a change.
unfoldable pub apply : Change → (String → Bool) → String → Bool
apply (starts id) running j = if id == j then true else running j
apply (ends id) running j = if id == j then false else running j

unfoldable pub apply_all : List Change → (String → Bool) → String → Bool
apply_all [] running = running
apply_all (c ∷ cs) running = apply_all cs (apply c running)

unfoldable pub Revives : List Lab → List Change → Type 0
Revives labs cs = All (λ c. (lab : Lab) × In lab labs × (c ≡ starts lab.uuid)) cs

-- What a step may do to the registry.
unfoldable pub Allows : System → Action → List Change → Type 0
Allows y (begin_deployment w lab) cs =
    (cs ≡ []) ⊎ ((cs ≡ starts lab.uuid ∷ []) × (is_running y.service lab.uuid ≡ false))
Allows y (run_destruction w n) cs =
    (cs ≡ [])
    ⊎ ((lab : Lab) × (a : ℕ) × (others : List (Lab × ℕ)) × (take_out n y.destructions
          ≡ some ((lab, a), others))
        × (cs ≡ ends lab.uuid ∷ []))
Allows y (revival w deployed labs) cs = Revives labs cs
Allows y _ cs = cs ≡ []

pub Keeps-view : {s t : Service} → Keeps s t → (j : String) → is_running t j ≡ is_running s j
unfolding is_running
Keeps-view k j = rw (k.instances) refl

present : Option ℕ → Bool
present none = false
present (some a) = true

is_running-present : (s : Service) (j : String) → is_running s j ≡ present (lookup j s.instances)
unfolding is_running present
is_running-present s j = elim (Option-cases (lookup j s.instances)) [
  | inl e ↦ rw (e, is_running) refl
  | inr (a, e) ↦ rw (e, is_running) refl
]

view_after :
    (s : Service) (j : String) (b c : Bool) (o : Option ℕ)
    → present o ≡ c
    → present (if b then o else lookup j s.instances) ≡ (if b then c else is_running s j)
view_after s j true c o h = h
view_after s j false c o h = sym (is_running-present s j)

pub Adds-view :
    {lab : Lab} {s t : Service}
    → Adds lab s t
    → (j : String) → is_running t j ≡ apply (starts lab.uuid) (is_running s) j
unfolding apply present
Adds-view {lab} {s} {t} d j =
    is_running-present t j
    ∙ ap (λ m. present (lookup j m)) d.instances
    ∙ ap present (lookup-put lab.uuid j s.next_address s.instances)
    ∙ view_after s j (lab.uuid == j) true (some s.next_address) refl

pub Removes-view :
    {lab : Lab} {a : ℕ} {s t : Service}
    → Removes lab a s t
    → (j : String) → is_running t j ≡ apply (ends lab.uuid) (is_running s) j
unfolding apply present
Removes-view {lab} {a} {s} {t} d j =
    is_running-present t j
    ∙ ap (λ m. present (lookup j m)) d.instances
    ∙ ap present (lookup-delete lab.uuid j s.instances)
    ∙ view_after s j (lab.uuid == j) false none refl

-- A step is a sequence of changes of the registry that it allows.
unfoldable pub Refines : System → Action → System → Type 0
Refines y a z =
    (cs : List Change) × Allows y a cs
    × ((j : String) → is_running z.service j ≡ apply_all cs (is_running y.service) j)
