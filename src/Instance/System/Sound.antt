-- ===== src/Instance/System/Sound.antt =====
-- The invariant of the instance service under all orders of its steps.
use antimony_backend.Base.{
  ◌==◌, nat_eq, string_eq, nat_beq, nat_beq_iff, Bool-cases, All, All-imp, lookup, Map,
  lookup-put-some, lookup-delete-some, ℕ, ◌<◌, String, ◌≡◌, sym, ap, subst, ◌∙◌, ◌≢◌, ◌⊎◌, inl, inr,
  false, some, List, arith,
}
use antimony_backend.Entities.{Lab}
use antimony_backend.Instance.{Service, NodeKindConfig}
use antimony_backend.Instance.Deploy.{Handle}
use antimony_backend.Instance.System.{System, create_service, start_system}
use antimony_backend.Instance.System.Keeping.{labels, Keeps}
use antimony_backend.Instance.System.Removing.{Removes}
use antimony_backend.Instance.System.Beginning.{HasOwnNames, Adds}

-- A destruction that waits holds an instance that only its own lab may have.
unfoldable pub Owns : Service → Lab × ℕ → Type 0
Owns s (lab, a) =
    (a < s.next_address) × ((id : String) → lookup id s.instances ≡ some a → id ≡ lab.uuid)

-- Every instance of the map is allocated, not destroyed and of one lab only; every node is under
-- its own name.
pub record IsSound (y : System) : Type 0 where
  pub allocated :
      (id : String) (a : ℕ)
      → lookup id y.service.instances ≡ some a
      → (a < y.service.next_address) × ((y.service.heap a).is_destroyed ≡ false)
  pub distinct :
      (id j : String) (a : ℕ)
      → lookup id y.service.instances ≡ some a
      → lookup j y.service.instances ≡ some a
      → id ≡ j
  pub named : (a : ℕ) → HasOwnNames (y.service.heap a)
  pub owned : All (Owns y.service) y.destructions

pub start_system-IsSound : (configs : Map String NodeKindConfig) → IsSound (start_system configs)
unfolding start_system create_service lookup HasOwnNames labels
start_system-IsSound configs = record {
  allocated = λ id a h. absurd (cc h);
  distinct = λ id j a h k. absurd (cc h);
  named = λ a. tt;
  owned = tt;
}

Owns-Keeps : (s t : Service) (p : Lab × ℕ) → Keeps s t → Owns s p → Owns t p
unfolding Owns
Owns-Keeps s t (lab, a) k h =
    (rw (k.next_address) h.0, λ id e. h.1 id (ap (lookup id) (sym k.instances) ∙ e))

-- A step that keeps the map and the marks keeps the invariant.
pub Keeps-IsSound :
    (y : System) (t : Service) (ds : List (Lab × Handle)) (rest : List (Lab × ℕ))
    → Keeps y.service t
    → IsSound y
    → All (Owns y.service) rest
    → IsSound (record { service = t; deployments = ds; destructions = rest })
unfolding HasOwnNames
Keeps-IsSound y t ds rest k h owns = record {
  allocated = λ id a e.
      let (below, alive) = h.allocated id a (ap (lookup id) (sym k.instances) ∙ e) in
      (rw (k.next_address) below, k.marks a ∙ alive);
  distinct = λ id j a e f.
      h.distinct id j a (ap (lookup id) (sym k.instances) ∙ e)
        (ap (lookup j) (sym k.instances) ∙ f);
  named = λ a. rw (k.names a) (h.named a);
  owned = All-imp (Owns y.service) (Owns t) rest (λ p. Owns-Keeps y.service t p k) owns;
}

-- An address that is taken is not the next one.
old_address : {a n : ℕ} → a < n → a ≢ n
old_address h e = absurd (omega (arith, h, e))

other_address : {a n : ℕ} → nat_beq a n ≡ false → a ≢ n
other_address h e = absurd (ground (arith, h, e))

Owns-Adds : (lab : Lab) (s t : Service) (p : Lab × ℕ) → Adds lab s t → Owns s p → Owns t p
unfolding Owns
Owns-Adds lab s t (own, a) d h = (
  omega (arith, h.0, d.next_address),
  λ id e.
      elim (lookup-put-some lab.uuid id s.next_address a s.instances
        (ap (lookup id) (sym d.instances) ∙ e)) [
          | inl (same, here) ↦ absurd (old_address h.0 (sym here))
          | inr (other, found) ↦ h.1 id found
        ],
)

pub Adds-IsSound :
    (lab : Lab) (y : System) (t : Service) (ds : List (Lab × Handle))
    → Adds lab y.service t
    → IsSound y
    → IsSound (record { service = t; deployments = ds; destructions = y.destructions })
unfolding HasOwnNames
Adds-IsSound lab y t ds d h =
    let s = y.service in
    let entry : (id : String) (a : ℕ)
        → lookup id t.instances ≡ some a
        → ((lab.uuid ≡ id) × (s.next_address ≡ a))
          ⊎ ((lab.uuid ≢ id) × (lookup id s.instances ≡ some a)) =
      λ id a e.
        lookup-put-some lab.uuid id s.next_address a s.instances
          (ap (lookup id) (sym d.instances) ∙ e) in
    record {
      allocated = λ id a e. elim (entry id a e) [
        | inl (same, here) ↦ (
          omega (arith, here, d.next_address),
          subst (λ b. (t.heap b).is_destroyed ≡ false) here d.mark,
        )
        | inr (other, found) ↦
            let (below, alive) = h.allocated id a found in
            (omega (arith, below, d.next_address), d.other_marks a (old_address below) ∙ alive)
      ];
      distinct = λ id j a e f. elim (entry id a e) [
        | inl (same, here) ↦ elim (entry j a f) [
          | inl (same', here') ↦ sym same ∙ same'
          | inr (other, found) ↦ absurd (old_address ((h.allocated j a found).0) (sym here))
        ]
        | inr (other, found) ↦ elim (entry j a f) [
          | inl (same', here') ↦ absurd (old_address ((h.allocated id a found).0) (sym here'))
          | inr (other', found') ↦ h.distinct id j a found found'
        ]
      ];
      named = λ a. elim (Bool-cases (a == s.next_address)) [
        | inl same ↦
            subst (λ b. HasOwnNames (t.heap b)) (sym ((nat_beq_iff a s.next_address).0 same))
              d.names
        | inr other ↦ rw (d.other_names a (other_address other)) (h.named a)
      ];
      owned = All-imp (Owns s) (Owns t) y.destructions (λ p. Owns-Adds lab s t p d) h.owned;
    }

Owns-Removes :
    (lab : Lab) (a : ℕ) (s t : Service) (p : Lab × ℕ) → Removes lab a s t → Owns s p → Owns t p
unfolding Owns
Owns-Removes lab a s t (own, b) r h = (
  rw (r.next_address) h.0,
  λ id e.
      h.1 id
        ((lookup-delete-some lab.uuid id b s.instances (ap (lookup id) (sym r.instances) ∙ e)).1),
)

pub Removes-IsSound :
    (lab : Lab) (a : ℕ) (y : System) (t : Service) (rest : List (Lab × ℕ))
    → Removes lab a y.service t
    → Owns y.service (lab, a)
    → IsSound y
    → All (Owns y.service) rest
    → IsSound (record { service = t; deployments = y.deployments; destructions = rest })
unfolding HasOwnNames Owns
Removes-IsSound lab a y t rest r own h owns =
    let s = y.service in
    let entry : (id : String) (b : ℕ)
        → lookup id t.instances ≡ some b
        → (lab.uuid ≢ id) × (lookup id s.instances ≡ some b) =
      λ id b e.
        lookup-delete-some lab.uuid id b s.instances (ap (lookup id) (sym r.instances) ∙ e) in
    record {
      allocated = λ id b e.
          let (other, found) = entry id b e in
          let (below, alive) = h.allocated id b found in
          let elsewhere : b ≢ a =
            λ x. other (sym (own.1 id (subst (λ c. lookup id s.instances ≡ some c) x found))) in
          (rw (r.next_address) below, r.marks b elsewhere ∙ alive);
      distinct = λ id j b e f. h.distinct id j b (entry id b e).1 (entry j b f).1;
      named = λ b. rw (r.names b) (h.named b);
      owned = All-imp (Owns s) (Owns t) rest (λ p. Owns-Removes lab a s t p r) owns;
    }
