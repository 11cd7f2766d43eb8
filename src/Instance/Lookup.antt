-- ===== src/Instance/Lookup.antt =====
-- `GetInstanceNode` and `canAccessLab` of runtime/instance/service.go: which nodes a user can see.
use antimony_backend.Base.{
  ◌==◌, nat_eq, string_eq, if◌then◌else◌, lookup, Map, ℕ, String, Bool, true, false, not, ◌&&◌,
  Option, none, some, [], ◌∷◌,
}
use antimony_backend.Entities.{Lab}
use antimony_backend.Policy.Text.{codes, text_eq, contains_func}
use antimony_backend.Auth.{AuthenticatedUser}
use antimony_backend.Errors.{
  message_of, err_node_not_found, err_lab_not_running, err_no_access_to_lab,
  err_invalid_socket_request,
}
use antimony_backend.Errors.Result.{Result, ok, failed, ◌>>=◌}
use antimony_backend.Instance.{InstanceNode, Instance, Service, World}
use antimony_backend.Instance.Commands.{explain}

pub record NodeQuery : Type 0 where
  pub lab_id : Option String
  pub instance_name : Option String
  pub collection_name : Option String
  pub lab_name : Option String
  pub node_name : Option String
  pub container_id : Option String

unfoldable pub in_collections : AuthenticatedUser → Lab → Bool
in_collections user lab = contains_func user.collections (λ c. c == codes lab.collection.name)

-- The check that guards the log namespaces of a lab.
unfoldable pub can_access_lab : World → String → AuthenticatedUser → Bool
can_access_lab w id user =
    if user.is_admin
    then true
    else elim (w.get_by_uuid id) [ failed _ ↦ false | ok lab ↦ in_collections user lab ]

unfoldable pub find_container_key : String → Map String InstanceNode → Option String
find_container_key id [] = none
find_container_key id ((k, n) ∷ nodes) =
    let rest = find_container_key id nodes in if n.container_id == id then some k else rest

-- The lab ID, the instance and the node of a container.
unfoldable pub find_by_container :
    (ℕ → Instance) → String → Map String ℕ → Option (String × ℕ × String)
find_by_container heap id [] = none
find_by_container heap id ((k, a) ∷ instances) =
    let rest = find_by_container heap id instances in
    elim (find_container_key id (heap a).nodes) [ none ↦ rest | some name ↦ some (k, a, name) ]

unfoldable pub find_by_name : (ℕ → Instance) → String → Map String ℕ → Option (String × ℕ)
find_by_name heap name [] = none
find_by_name heap name ((k, a) ∷ instances) =
    let rest = find_by_name heap name instances in
    if (heap a).name == name then some (k, a) else rest

-- The variables that the switch over the identifiers sets: the lab, and the instance with the
-- name of the node.
pub record Found : Type 0 where
  pub lab : Option Lab
  pub node : Option (ℕ × String)

-- `labError` is wrapped into an error of its own.
unfoldable pub with_lab : World → Result Lab → (Lab → Option (ℕ × String)) → Result Found
with_lab w (failed e) f = failed (explain w err_node_not_found (message_of e))
with_lab w (ok lab) f = ok (record { lab = some lab; node = f lab })

unfoldable pub instance_of : Service → String → Lab → Option (ℕ × String)
instance_of s name lab = elim (lookup lab.uuid s.instances) [
  | none ↦ none
  | some a ↦ some (a, name)
]

unfoldable pub select_by_container : World → Service → String → Result Found
select_by_container w s id = elim (find_by_container s.heap id s.instances) [
  | none ↦ failed err_node_not_found
  | some (k, a, name) ↦ with_lab w (w.get_by_uuid k) (λ _. some (a, name))
]

unfoldable pub select_by_instance : World → Service → String → String → Result Found
select_by_instance w s instance_name name = elim (find_by_name s.heap instance_name s.instances) [
  | none ↦ ok (record { lab = none; node = none })
  | some (k, a) ↦ with_lab w (w.get_by_uuid k) (λ _. some (a, name))
]

-- The switch over the identifiers that are given.
unfoldable pub select : World → Service → NodeQuery → Result Found
select w s q = elim q.container_id [
  | some id ↦ select_by_container w s id
  | none ↦ elim q.node_name [
    | none ↦ failed err_invalid_socket_request
    | some name ↦ elim q.lab_id [
      | some id ↦ with_lab w (w.get_by_uuid id) (instance_of s name)
      | none ↦ elim q.instance_name [
        | some instance_name ↦ select_by_instance w s instance_name name
        | none ↦ elim q.collection_name [
          | none ↦ failed err_invalid_socket_request
          | some collection ↦ elim q.lab_name [
            | none ↦ failed err_invalid_socket_request
            | some lab_name ↦
                with_lab w (w.get_by_collection_and_name collection lab_name) (instance_of s name)
          ]
        ]
      ]
    ]
  ]
]

-- A user is given, is no administrator, and the lab's collection is not among theirs.
unfoldable pub is_denied : Option AuthenticatedUser → Option Lab → Bool
is_denied none lab = false
is_denied (some user) none = false
is_denied (some user) (some lab) = not user.is_admin && not (in_collections user lab)

unfoldable pub read_node : Service → ℕ × String → Result (InstanceNode × String)
read_node s (a, name) = elim (lookup name (s.heap a).nodes) [
  | none ↦ failed err_node_not_found
  | some n ↦ ok (n, (s.heap a).name)
]

unfoldable pub get_instance_node_of :
    World → Service → NodeQuery → Option AuthenticatedUser → Result (InstanceNode × String)
get_instance_node_of w s q user = do
  found ← select w s q
  if is_denied user found.lab
      then failed err_no_access_to_lab
      else elim found.node [ none ↦ failed err_lab_not_running | some n ↦ read_node s n ]
