-- ===== src/Instance/Startup.antt =====
-- The startup listener of a node in runtime/instance/service.go: it probes the SSH server of the
-- node until it answers, and then marks the node as ready. The loop runs on fuel; a probe has a
-- number, and the context of the listener expires during the pause after some probe.
pub mod Waiting
use antimony_backend.Base.{
  Eq, ◌==◌, nat_eq, string_eq, ==_refl, ltb, leb, nat_beq, if◌then◌else◌, ltb→lt, leb→le, ltb-of_lt,
  ltb-of_le, nat_beq_iff, Bool-cases, Option-cases, some-injective, split_option, ◌>>=◌, length,
  get_elem?, take, drop, replicate, store, length-append, length-take, length-drop,
  length-replicate, take-append-drop, take_all, drop_all, drop-append, drop-drop, get_elem?-some,
  Stores, store-some, All, In, All-In, All-of_In, All-imp, All-append, In-append_left,
  In-append_right, lookup, put, delete, Map, lookup-put, lookup-delete, lookup-put_self,
  lookup-put_ne, lookup-delete_self, lookup-delete_ne, lookup-put-some, lookup-delete-some, ℕ, zero,
  suc, ◌+◌, ◌-◌, ◌*◌, ◌/◌, ◌%◌, ◌^◌, ◌≤◌, ◌<◌, min, String, ◌≡◌, refl, sym, ap, subst, ◌∙◌, ◌≢◌,
  ◌↔◌, ◌⊎◌, inl, inr, Bool, true, false, not, ◌&&◌, ◌||◌, Option, none, some, List, [], ◌∷◌, ◌++◌,
  map, append-nil, append_assoc, arith,
}
use antimony_backend.Deployment.{NodeState, NodeInterface}
use antimony_backend.Policy.Text.{Text, codes, contains, contains_func}
use antimony_backend.Errors.{Error, is, err_node_not_running}
use antimony_backend.Errors.Responses.{ℤ, pos, negsuc}
use antimony_backend.Errors.Result.{Result, ok, failed}
use antimony_backend.Instance.{
  InstanceNode, Effect, Service, World, set_ready, set_state, one_node, modify, emit, is_canceled,
}
use antimony_backend.Instance.Monitor.{Monitor, add_node}

unfoldable pub ssh_server_responded : Text → Bool
ssh_server_responded out =
    contains_func
      (codes "Permission denied"
        ∷ codes "Host key verification"
        ∷ codes "Too many authentication failures"
        ∷ [])
      (contains out)

pub data Verdict : Type 0 where
  retry started : Verdict
  refused : Error → Verdict

-- The answer of `Exec`: an error, or the output and the exit code. `unexpected` makes the error for
-- an exit code that is not known.
unfoldable pub judge_exit : (ℤ → Text → Error) → Text → ℤ → Verdict
judge_exit unexpected out (negsuc n) = refused (unexpected (negsuc n) out)
judge_exit unexpected out (pos n) =
    if n == 0 || n == 126 || n == 127 || (n == 255 && ssh_server_responded out)
    then started
    else if n == 255
    then retry
    else refused (unexpected (pos n) out)

unfoldable pub judge : (ℤ → Text → Error) → Result (Text × ℤ) → Verdict
judge unexpected (failed e) = if is e err_node_not_running then retry else refused e
judge unexpected (ok (out, code)) = judge_exit unexpected out code

-- The listener's context and the answers of the provider, by the number of the probe.
pub record Probing : Type 0 where
  pub exec : ℕ → Result (Text × ℤ)
  pub unexpected : ℤ → Text → Error
  pub done : ℕ → Bool  -- the context is done before the pause after the probe is over
  pub ctx_err : Error

-- None is out of fuel; the inner option is the returned error.
unfoldable pub wait_for_node_started : Probing → ℕ → ℕ → Option (Option Error)
wait_for_node_started p zero i = none
wait_for_node_started p (suc fuel) i =
    let again = wait_for_node_started p fuel (suc i) in
    elim (judge p.unexpected (p.exec i)) [
      | started ↦ some none
      | refused e ↦ some (some e)
      | retry ↦ if p.done i then some (some p.ctx_err) else again
    ]

-- `lo.Filter` with the patterns of the configuration; `path_match` is `path.Match`.
unfoldable pub filter_interfaces :
    (String → String → Bool) → List String → List NodeInterface → List NodeInterface
filter_interfaces path_match excluded [] = []
filter_interfaces path_match excluded (i ∷ others) =
    let rest = filter_interfaces path_match excluded others in
    if contains_func excluded (λ p. path_match p i.name) then rest else i ∷ rest

unfoldable pub ctx_canceled : Option ℕ → Service → Bool
ctx_canceled none s = false
ctx_canceled (some ctx) s = is_canceled ctx s.canceled

-- An error of the provider leaves no interfaces.
unfoldable pub kept_interfaces :
    (String → String → Bool) → List String → Result (List NodeInterface) → List NodeInterface
kept_interfaces path_match excluded (failed _) = []
kept_interfaces path_match excluded (ok reported) = filter_interfaces path_match excluded reported

-- What the listener works on: its lab, its instance and node, and its context.
pub record Listener : Type 0 where
  pub lab_id : String
  pub address : ℕ
  pub key : String
  pub ctx : Option ℕ

unfoldable pub node_of : Listener → Service → Option InstanceNode
node_of l s = lookup l.key (s.heap l.address).nodes

-- `monitor.AddNode` for the node.
unfoldable pub monitor_node : Listener → Service → Monitor → Monitor
monitor_node l s m = elim (node_of l s) [
  | none ↦ m
  | some n ↦
      add_node (s.heap l.address).deployment_ctx (s.heap l.address).name n.name n.container_id m
]

-- The context is the instance's at that time.
unfoldable pub on_node_started :
    (String → String → Bool)
    → List String
    → Result (List NodeInterface)
    → Listener
    → Service × Monitor
    → Service × Monitor
on_node_started path_match excluded reported l (s, m) =
    if ctx_canceled (s.heap l.address).deployment_ctx s then (s, m) else (
      emit (Effect.lab_update (some l.lab_id)) (
          modify l.address
            (one_node l.key (set_ready (kept_interfaces path_match excluded reported))) s),
      monitor_node l s m,
    )

-- The error of the log stream is none if no stream is started.
unfoldable pub startup_listener :
    (String → String → Bool)
    → List String
    → Result (List NodeInterface)
    → Listener
    → Option Error
    → Option Error
    → Service × Monitor
    → Service × Monitor
startup_listener path_match excluded reported l stream_error (some _) (s, m) =
    if ctx_canceled l.ctx s then (s, m) else (
      emit (Effect.lab_update (some l.lab_id))
          (modify l.address (one_node l.key (set_state NodeState.stopped)) s),
      m,
    )
startup_listener path_match excluded reported l stream_error none (s, m) = elim stream_error [
  | some _ ↦
      if ctx_canceled l.ctx s then (s, m) else on_node_started path_match excluded reported l (s, m)
  | none ↦ on_node_started path_match excluded reported l (s, m)
]
