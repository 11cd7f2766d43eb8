-- ===== src/Instance/Commands.antt =====
-- The commands of runtime/instance/service.go that users send: their checks, and the start, stop
-- and restart of one node. A command of a lab runs `DeployLab` or `DestroyLab` with nothing in
-- between. A node command holds `OperationMutex` from its checks to its end.
use antimony_backend.Base.{
  ◌==◌, nat_eq, string_eq, leb, if◌then◌else◌, lookup, ℕ, String, Bool, true, false, ◌||◌, Option,
  none, some, List, [], ◌∷◌, ◌++◌,
}
use Prim.Native.String as Native
use antimony_backend.Entities.{Lab}
use antimony_backend.Deployment.{NodeState, same_state}
use antimony_backend.Policy.Text.{codes, text_eq}
use antimony_backend.Auth.{AuthenticatedUser}
use antimony_backend.Errors.{
  Error, errorf, message_of, is, err_uuid_not_found, err_node_not_found, err_lab_not_found,
  err_lab_not_running, err_no_deploy_access_to_lab, err_no_destroy_access_to_lab,
  err_lab_operation_in_progress, err_invalid_node_operation,
}
use antimony_backend.Errors.Result.{Result, ok, failed, ◌>>=◌}
use antimony_backend.Instance.{
  InstanceNode, Effect, Service, World, reset, update_node_with_container, one_node, modify, emit,
  get_instance_node,
}
use antimony_backend.Instance.Deploy.{deploy_lab}
use antimony_backend.Instance.Destroy.{destroy_lab}

-- An administrator or the creator of the lab.
unfoldable pub may_command : AuthenticatedUser → Lab → Bool
may_command user lab = user.is_admin || user.user_id == codes lab.creator.uuid

-- `fmt.Errorf` with a text after the wrapped error.
unfoldable pub explain : World → Error → String → Error
explain w e text = errorf w.error_address (Native.◌++◌ (message_of e) (Native.◌++◌ ": " text)) e

unfoldable pub find_lab : World → String → Result Lab
find_lab w id = elim (w.get_by_uuid id) [
  | ok lab ↦ ok lab
  | failed e ↦ if is e err_uuid_not_found then failed err_lab_not_found else failed e
]

unfoldable pub validate_lab_command : World → Option String → AuthenticatedUser → Result Lab
validate_lab_command w none user = failed (explain w err_lab_not_found "no lab specified")
validate_lab_command w (some id) user = do
  lab ← find_lab w id
  if may_command user lab then ok lab else failed err_no_deploy_access_to_lab

-- A lab that has already ended gets no end; a failed write is only logged.
unfoldable pub reopen : World → Lab → Lab × List Effect
reopen w lab = elim lab.end_time [
  | none ↦ (lab, [])
  | some end ↦
      let open_ended : Lab = record lab { end_time = none } in
      if leb end w.now then (open_ended, Effect.save_lab open_ended ∷ []) else (lab, [])
]

unfoldable pub deploy_lab_command :
    World → Option String → AuthenticatedUser → Service → Option Error × Service
deploy_lab_command w id user s = elim (validate_lab_command w id user) [
  | failed e ↦ (some e, s)
  | ok found ↦
      let (lab, saved) = reopen w found in
      deploy_lab w lab
        (record s { effects = Effect.publish "lab.manually-deployed" lab ∷ (saved ++ s.effects) })
]

unfoldable pub destroy_lab_command :
    World → Option String → AuthenticatedUser → Service → Option Error × Service
destroy_lab_command w id user s = elim (validate_lab_command w id user) [
  | failed e ↦ (some e, s)
  | ok lab ↦ destroy_lab w lab (emit (Effect.publish "lab.deleted" lab) s)
]

unfoldable pub with_instance : Service → String → Lab → Result (Lab × ℕ × String)
with_instance s name lab = elim (lookup lab.uuid s.instances) [
  | none ↦ failed err_lab_not_running
  | some a ↦ ok (lab, a, name)
]

unfoldable pub validate_node_command :
    World → String → Option String → AuthenticatedUser → Service → Result (Lab × ℕ × String)
validate_node_command w id none user s = failed err_node_not_found
validate_node_command w id (some name) user s = do
  lab ← find_lab w id
  if may_command user lab then with_instance s name lab else failed err_no_destroy_access_to_lab

-- A node that a command may work on, with its lab, its instance and its key.
pub record Target : Type 0 where
  pub lab : Lab
  pub address : ℕ
  pub key : String
  pub node : InstanceNode

unfoldable pub pick_node : World → Service → Lab → ℕ → String → Result Target
pick_node w s lab a name = elim (get_instance_node name (s.heap a).nodes) [
  | none ↦ failed err_node_not_found
  | some (k, n) ↦
      if n.can_restart
      then ok (record { lab = lab; address = a; key = k; node = n })
      else failed (
          explain w err_invalid_node_operation
            (Native.◌++◌ "unable to manually start nodes of kind '" (Native.◌++◌ n.kind "'")))
]

-- What the three node commands do before they look at the state of the node.
unfoldable pub open_node :
    World → String → Option String → AuthenticatedUser → Service → Result Target
open_node w id name user s = do
  (lab, a, node_name) ← validate_node_command w id name user s
  if w.operation_in_progress
      then failed err_lab_operation_in_progress
      else pick_node w s lab a node_name

-- The three switches over the state: why the command is refused.
unfoldable pub refuse_start : NodeState → Option String
refuse_start NodeState.starting = some "node is already starting"
refuse_start NodeState.running = some "node is already running"
refuse_start NodeState.stopping = some "node is currently stopping"
refuse_start NodeState.stopped = none

unfoldable pub refuse_stop : NodeState → Option String
refuse_stop NodeState.stopping = some "node is already stopping"
refuse_stop NodeState.stopped = some "node is already stopped"
refuse_stop _ = none

unfoldable pub refuse_restart : NodeState → Option String
refuse_restart NodeState.stopping = some "node is currently stopping"
refuse_restart NodeState.starting = some "node is currently starting"
refuse_restart _ = none

unfoldable pub current : Service → ℕ → String → InstanceNode → InstanceNode
current s a key otherwise = elim (lookup key (s.heap a).nodes) [ none ↦ otherwise | some n ↦ n ]

-- `fetchNode` for the node under a key: whether its state has changed, and the service after that.
unfoldable pub fetch_node : World → String → ℕ → String → InstanceNode → Service → Bool × Service
fetch_node w instance_name a key n s =
    elim (w.inspect_node (s.heap a).topology_file instance_name n.name) [
      | failed _ ↦ (false, s)
      | ok c ↦
          if same_state (current s a key n).state c.state
          then (false, s)
          else (true, modify a (one_node key (update_node_with_container c)) s)
    ]

unfoldable pub refetch : World → String → Target → Service → Service
refetch w id t s =
    emit (Effect.lab_update (some id)) (fetch_node w t.lab.instance_name t.address t.key t.node s).1

unfoldable pub listen : String → Target → Service → Service
listen id t s = emit (Effect.start_listener id t.address t.key true) s

unfoldable pub reset_node : String → Target → Service → Service
reset_node id t s = emit (Effect.lab_update (some id)) (modify t.address (one_node t.key reset) s)

-- Runs a command if the node is found and its state does not refuse it.
unfoldable pub guarded :
    World
    → Result Target
    → (NodeState → Option String)
    → (Target → Service → Option Error × Service)
    → Service
    → Option Error × Service
guarded w (failed e) refuse body s = (some e, s)
guarded w (ok t) refuse body s = elim (refuse t.node.state) [
  | some reason ↦ (some (explain w err_invalid_node_operation reason), s)
  | none ↦ body t s
]

unfoldable pub start_node_body : World → String → Target → Service → Option Error × Service
start_node_body w id t s = elim (w.start_node t.lab.instance_name t.node.name) [
  | some e ↦ (some e, s)
  | none ↦ (none, listen id t (refetch w id t s))
]

unfoldable pub stop_node_body : World → String → Target → Service → Option Error × Service
stop_node_body w id t s =
    let s₁ = reset_node id t s in
    elim (w.stop_node t.lab.instance_name t.node.name) [
      | some e ↦ (some e, s₁)
      | none ↦ (none, refetch w id t s₁)
    ]

unfoldable pub restart_node_body : World → String → Target → Service → Option Error × Service
restart_node_body w id t s =
    let s₁ = reset_node id t s in
    elim (w.restart_node t.lab.instance_name t.node.name) [
      | some e ↦ (some e, s₁)
      | none ↦ (none, listen id t (refetch w id t s₁))
    ]

unfoldable pub start_node_command :
    World → String → Option String → AuthenticatedUser → Service → Option Error × Service
start_node_command w id name user s =
    guarded w (open_node w id name user s) refuse_start (start_node_body w id) s

unfoldable pub stop_node_command :
    World → String → Option String → AuthenticatedUser → Service → Option Error × Service
stop_node_command w id name user s =
    guarded w (open_node w id name user s) refuse_stop (stop_node_body w id) s

unfoldable pub restart_node_command :
    World → String → Option String → AuthenticatedUser → Service → Option Error × Service
restart_node_command w id name user s =
    guarded w (open_node w id name user s) refuse_restart (restart_node_body w id) s
