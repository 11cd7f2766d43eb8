-- ===== src/Instance/Access.antt =====
-- Which users get a node from `GetInstanceNode`.
use antimony_backend.Base.{
  ◌==◌, nat_eq, string_eq, Bool-cases, Option-cases, some-injective, split_option, In, lookup, Map,
  ℕ, String, ◌≡◌, refl, sym, ap, subst, ◌∙◌, ◌⊎◌, inl, inr, true, false, Option, none, some, [],
  ◌∷◌, arith,
}
use antimony_backend.Entities.{Lab}
use antimony_backend.Policy.Text.{codes, text_eq, contains_func-In}
use antimony_backend.Auth.{AuthenticatedUser}
use antimony_backend.Errors.Result.{Result, ok, failed, Result-cases}
use antimony_backend.Instance.{InstanceNode, Instance, Service, World}
use antimony_backend.Instance.Lookup.{
  NodeQuery, in_collections, find_container_key, find_by_container, find_by_name, Found, with_lab,
  instance_of, select_by_container, select_by_instance, select, is_denied, read_node,
  get_instance_node_of,
}

-- The repository answers with labs under their own IDs.
unfoldable pub AnswersById : World → Type 0
AnswersById w = (id : String) (lab : Lab) → w.get_by_uuid id ≡ ok lab → lab.uuid ≡ id

-- The node is one of the instance of a lab, and the user has the lab's collection or is an
-- administrator.
pub IsVisible : Service → AuthenticatedUser → InstanceNode → Type 0
IsVisible s user n =
    (lab : Lab) × (a : ℕ) × (key : String) × In (lab.uuid, a) s.instances
    × ((user.is_admin ≡ true) ⊎ In (codes lab.collection.name) user.collections)
    × (lookup key (s.heap a).nodes ≡ some n)

-- The instance that was found is that of the lab that was found.
FindsOwn : Service → Result Found → Type 0
FindsOwn s (failed e) = Unit
FindsOwn s (ok f) =
    (a : ℕ) (name : String)
    → f.node ≡ some (a, name)
    → (lab : Lab) × (f.lab ≡ some lab) × In (lab.uuid, a) s.instances

lookup-In : (id : String) (a : ℕ) (m : Map String ℕ) → lookup id m ≡ some a → In (id, a) m
unfolding lookup
lookup-In id a [] h = absurd (cc h)
lookup-In id a ((j, b) ∷ m) h = elim (Bool-cases (j == id)) [
  | inl same ↦
      let here : some b ≡ some a = sym (rw (same) refl) ∙ h in
      let name : j ≡ id = (string_eq.equal_iff j id).0 same in
      inl (ap (λ x. (x, b)) name ∙ ap (λ x. (id, x)) (some-injective here))
  | inr other ↦ inr (lookup-In id a m (sym (rw (other) refl) ∙ h))
]

find_by_name-In :
    (heap : ℕ → Instance) (name id : String) (a : ℕ) (m : Map String ℕ)
    → find_by_name heap name m ≡ some (id, a)
    → In (id, a) m
unfolding find_by_name
find_by_name-In heap name id a [] h = absurd (cc h)
find_by_name-In heap name id a ((j, b) ∷ m) h = elim (Bool-cases ((heap b).name == name)) [
  | inl same ↦ inl (some-injective (sym (rw (same) refl) ∙ h))
  | inr other ↦ inr (find_by_name-In heap name id a m (sym (rw (other) refl) ∙ h))
]

find_by_container-In :
    (heap : ℕ → Instance) (cid id name : String) (a : ℕ) (m : Map String ℕ)
    → find_by_container heap cid m ≡ some (id, a, name)
    → In (id, a) m
unfolding find_by_container
find_by_container-In heap cid id name a [] h = absurd (cc h)
find_by_container-In heap cid id name a ((j, b) ∷ m) h =
    elim (Option-cases (find_container_key cid (heap b).nodes)) [
      | inl e ↦
          inr (find_by_container-In heap cid id name a m (sym (rw (e, find_by_container) refl) ∙ h))
      | inr (k, e) ↦
          let here : some (j, b, k) ≡ some (id, a, name) =
            sym (rw (e, find_by_container) refl) ∙ h in
          inl (ap (λ p. (p.0, p.1)) (some-injective here))
    ]

with_lab-FindsOwn :
    (w : World) (s : Service) (r : Result Lab) (f : Lab → Option (ℕ × String))
    → ((lab : Lab) (a : ℕ) (name : String)
        → r ≡ ok lab
        → f lab ≡ some (a, name)
        → In (lab.uuid, a) s.instances)
    → FindsOwn s (with_lab w r f)
unfolding with_lab FindsOwn
with_lab-FindsOwn w s (failed e) f h = tt
with_lab-FindsOwn w s (ok lab) f h = λ a name e. (lab, refl, h lab a name refl e)

module _ (w : World) (s : Service) (by_id : AnswersById w) where
  instance_of-FindsOwn :
      (name : String) (r : Result Lab) → FindsOwn s (with_lab w r (instance_of s name))
  unfolding instance_of
  instance_of-FindsOwn name r = with_lab-FindsOwn w s r (instance_of s name) (λ lab a n e found.
      elim (Option-cases (lookup lab.uuid s.instances)) [
        | inl l ↦ absurd (ground (arith, l, found))
        | inr (b, l) ↦ lookup-In lab.uuid a s.instances (ground (arith, l, found))
      ])

  given-In :
      (id name n : String) (a b : ℕ) (lab : Lab)
      → In (id, a) s.instances
      → w.get_by_uuid id ≡ ok lab
      → a ≡ b
      → In (lab.uuid, b) s.instances
  unfolding AnswersById
  given-In id name n a b lab entry found e =
      subst (λ p. In (lab.uuid, p) s.instances) e
        (subst (λ x. In (x, a) s.instances) (sym (by_id id lab found)) entry)

  by_container-FindsOwn : (cid : String) → FindsOwn s (select_by_container w s cid)
  unfolding select_by_container FindsOwn
  by_container-FindsOwn cid =
      split_option (FindsOwn s) (find_by_container s.heap cid s.instances) _ _ tt (λ (k, a, name) e.
        with_lab-FindsOwn w s (w.get_by_uuid k) (λ l. some (a, name))
          (λ lab b n r same.
            given-In k name n a b lab (find_by_container-In s.heap cid k name a s.instances e) r
              (ap (λ p. p.0) (some-injective same))))

  by_instance-FindsOwn :
      (instance_name name : String) → FindsOwn s (select_by_instance w s instance_name name)
  unfolding select_by_instance FindsOwn
  by_instance-FindsOwn instance_name name =
      split_option (FindsOwn s) (find_by_name s.heap instance_name s.instances) _ _
        (λ a n e. absurd (cc e))
        (λ (k, a) e.
          with_lab-FindsOwn w s (w.get_by_uuid k) (λ l. some (a, name))
            (λ lab b n r same.
              given-In k name n a b lab (find_by_name-In s.heap instance_name k a s.instances e) r
                (ap (λ p. p.0) (some-injective same))))

  select-FindsOwn : (q : NodeQuery) → FindsOwn s (select w s q)
  unfolding select FindsOwn
  select-FindsOwn q =
      split_option (FindsOwn s) q.container_id _ _
        (split_option (FindsOwn s) q.node_name _ _ tt (λ name _.
          split_option (FindsOwn s) q.lab_id _ _
            (split_option (FindsOwn s) q.instance_name _ _
              (split_option (FindsOwn s) q.collection_name _ _ tt (λ collection _.
                split_option (FindsOwn s) q.lab_name _ _ tt (λ lab_name _.
                  instance_of-FindsOwn name (w.get_by_collection_and_name collection lab_name))))
              (λ instance_name _. by_instance-FindsOwn instance_name name))
            (λ id _. instance_of-FindsOwn name (w.get_by_uuid id))))
        (λ cid _. by_container-FindsOwn cid)

finds_own :
    (s : Service) (f : Found)
    → FindsOwn s (ok f)
    → (a : ℕ) (name : String) → f.node ≡ some (a, name)
    → (lab : Lab) × (f.lab ≡ some lab) × In (lab.uuid, a) s.instances
unfolding FindsOwn
finds_own s f h = h

granted_lem :
    (user : AuthenticatedUser) (lab : Lab)
    → is_denied (some user) (some lab) ≡ false
    → (user.is_admin ≡ true) ⊎ In (codes lab.collection.name) user.collections
unfolding is_denied in_collections
granted_lem user lab h = elim (Bool-cases user.is_admin) [
  | inl admin ↦ inl admin
  | inr ordinary ↦
      let found : in_collections user lab ≡ true = ground (arith, h, ordinary) in
      let (c, m, e) = contains_func-In user.collections _ found in
      inr (subst (λ d. In d user.collections) ((text_eq.equal_iff c _).0 e) m)
]

read_node-ok :
    (s : Service) (a : ℕ) (name : String) (n : InstanceNode) (instance_name : String)
    → read_node s (a, name) ≡ ok (n, instance_name)
    → lookup name (s.heap a).nodes ≡ some n
unfolding read_node
read_node-ok s a name n instance_name h = elim (Option-cases (lookup name (s.heap a).nodes)) [
  | inl e ↦ absurd (ground (arith, h, e))
  | inr (m, e) ↦
      let here : ok (m, (s.heap a).name) ≡ ok (n, instance_name) =
        sym (rw (e, read_node) refl) ∙ h in
      e ∙ ap (λ r. elim r [ failed _ ↦ none | ok p ↦ some p.0 ]) here
]

pub get_instance_node_of-IsVisible :
    (w : World) (s : Service) (q : NodeQuery) (user : AuthenticatedUser) (n : InstanceNode)
    (instance_name : String)
    → AnswersById w
    → get_instance_node_of w s q (some user) ≡ ok (n, instance_name)
    → IsVisible s user n
unfolding get_instance_node_of IsVisible
get_instance_node_of-IsVisible w s q user n instance_name by_id h =
    elim (Result-cases (select w s q)) [
      | inr (e, x) ↦ absurd (ground (arith, h, x))
      | inl (f, x) ↦ elim (Bool-cases (is_denied (some user) f.lab)) [
        | inl denied ↦ absurd (ground (arith, h, x, denied))
        | inr granted ↦ elim (Option-cases f.node) [
          | inl none_found ↦ absurd (ground (arith, h, x, granted, none_found))
          | inr ((a, name), found) ↦
              let (lab, of_lab, entry) =
                finds_own s f (subst (FindsOwn s) x (select-FindsOwn w s by_id q)) a name found in
              let read : read_node s (a, name) ≡ ok (n, instance_name) =
                ground (arith, h, x, granted, found) in
              (
                lab,
                a,
                name,
                entry,
                granted_lem user lab (subst (λ l. is_denied (some user) l ≡ false) of_lab granted),
                read_node-ok s a name n instance_name read,
              )
        ]
      ]
    ]
