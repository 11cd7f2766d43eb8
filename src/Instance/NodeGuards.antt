-- ===== src/Instance/NodeGuards.antt =====
-- Which node commands are carried out, and what a stop that fails leaves behind.
use antimony_backend.Base.{
  nat_eq, string_eq, if◌then◌else◌, Bool-cases, Option-cases, lookup, ℕ, String, ◌≡◌, refl, subst,
  ◌↔◌, ◌⊎◌, inl, inr, Bool, true, false, Option, none, some, arith,
}
use antimony_backend.Entities.{Lab}
use antimony_backend.Deployment.{NodeState}
use antimony_backend.Policy.Text.{codes, text_eq}
use antimony_backend.Auth.{AuthenticatedUser}
use antimony_backend.Errors.{Error}
use antimony_backend.Errors.Result.{Result, ok, failed, Result-cases}
use antimony_backend.Instance.{Service, World, get_instance_node}
use antimony_backend.Instance.Commands.{
  may_command, find_lab, with_instance, validate_node_command, Target, pick_node, open_node,
  refuse_start, refuse_stop, refuse_restart, guarded, start_node_body, stop_node_body,
  restart_node_body, start_node_command, stop_node_command, restart_node_command,
}

may_command_iff :
    (user : AuthenticatedUser) (lab : Lab)
    → (may_command user lab ≡ true)
      ↔ ((user.is_admin ≡ true) ⊎ (user.user_id ≡ codes lab.creator.uuid))
unfolding may_command
may_command_iff user lab =
    let owner = text_eq.equal_iff user.user_id (codes lab.creator.uuid) in
    elim (Bool-cases user.is_admin) [
      | inl admin ↦ rw (admin, may_command) ((λ e. inl refl), (λ m. refl))
      | inr ordinary ↦
          rw (ordinary, may_command)
            ((λ e. inr (owner.0 e)), (λ m. elim m [ inl e ↦ absurd (cc e) | inr e ↦ owner.1 e ]))
    ]

-- The user is an administrator or created the lab, the lab has an instance that is not busy, and the node is one of
-- that instance, by its name, and of a kind that can restart.
pub record IsOpen (w : World) (id name : String) (user : AuthenticatedUser) (s : Service)
    (t : Target) : Type 0 where
  pub lab_found : find_lab w id ≡ ok t.lab
  pub allowed : (user.is_admin ≡ true) ⊎ (user.user_id ≡ codes t.lab.creator.uuid)
  pub running : lookup t.lab.uuid s.instances ≡ some t.address
  pub idle : w.operation_in_progress ≡ false
  pub node_found : get_instance_node name (s.heap t.address).nodes ≡ some (t.key, t.node)
  pub restartable : t.node.can_restart ≡ true

module _ (w : World) (id name : String) (user : AuthenticatedUser) (s : Service) where
  OpenResult : Result Target → Type 0
  OpenResult (failed e) = Unit
  OpenResult (ok t) = IsOpen w id name user s t

  choose-OpenResult :
      (b : Bool) (t : Target) (e : Error)
      → (b ≡ true → IsOpen w id name user s t)
      → OpenResult (if b then ok t else failed e)
  unfolding OpenResult
  choose-OpenResult true t e h = h refl
  choose-OpenResult false t e h = tt

  busy-OpenResult :
      (b : Bool) (e : Error) (r : Result Target)
      → (b ≡ false → OpenResult r)
      → OpenResult (if b then failed e else r)
  unfolding OpenResult
  busy-OpenResult true e r h = tt
  busy-OpenResult false e r h = h refl

  pick_node-OpenResult :
      (lab : Lab) (a : ℕ)
      → find_lab w id ≡ ok lab
      → may_command user lab ≡ true
      → lookup lab.uuid s.instances ≡ some a
      → w.operation_in_progress ≡ false
      → OpenResult (pick_node w s lab a name)
  unfolding pick_node OpenResult
  pick_node-OpenResult lab a l m r o =
      elim (Option-cases (get_instance_node name (s.heap a).nodes)) [
        | inl n ↦ rw (pick_node, n) tt
        | inr ((k, n), f) ↦
            rw (pick_node, f)
              (choose-OpenResult n.can_restart _ _ (λ c. record {
                lab_found = l;
                allowed = (may_command_iff user lab).0 m;
                running = r;
                idle = o;
                node_found = f;
                restartable = c;
              }))
      ]

  open_node-OpenResult : OpenResult (open_node w id (some name) user s)
  unfolding open_node validate_node_command with_instance OpenResult
  open_node-OpenResult = elim (Result-cases (find_lab w id)) [
    | inr (e, l) ↦ rw (open_node, validate_node_command, l) tt
    | inl (lab, l) ↦ elim (Bool-cases (may_command user lab)) [
      | inr m ↦ rw (open_node, validate_node_command, l, m) tt
      | inl m ↦ elim (Option-cases (lookup lab.uuid s.instances)) [
        | inl r ↦ rw (open_node, validate_node_command, l, m, with_instance, r) tt
        | inr (a, r) ↦
            rw (open_node, validate_node_command, l, m, with_instance, r)
              (busy-OpenResult w.operation_in_progress _ _ (pick_node-OpenResult lab a l m r))
      ]
    ]
  ]

  open_node-ok : (t : Target) → open_node w id (some name) user s ≡ ok t → IsOpen w id name user s t
  unfolding OpenResult
  open_node-ok t e = subst OpenResult e open_node-OpenResult

  pub IsOpen-open_node :
      (t : Target) → IsOpen w id name user s t → open_node w id (some name) user s ≡ ok t
  unfolding open_node validate_node_command with_instance pick_node
  IsOpen-open_node t h =
      let may = (may_command_iff user t.lab).1 h.allowed in
      rw
        (
          open_node, validate_node_command, h.lab_found, may, with_instance, h.running, pick_node,
          h.node_found, h.restartable, h.idle,
        )
        refl

  -- A guarded command returns no error exactly if the node is open, its state is not refused, and
  -- the command itself returns none.
  guarded-none :
      (refuse : NodeState → Option String) (body : Target → Service → Option Error × Service)
      → ((guarded w (open_node w id (some name) user s) refuse body s).0 ≡ none) ↔ (
          (t : Target) × IsOpen w id name user s t
          × (refuse t.node.state ≡ none)
          × ((body t s).0 ≡ none))
  unfolding guarded
  guarded-none refuse body = (
    λ h. elim (Result-cases (open_node w id (some name) user s)) [
      | inr (e, o) ↦ absurd (ground (arith, h, o))
      | inl (t, o) ↦ elim (Option-cases (refuse t.node.state)) [
        | inr (reason, r) ↦ absurd (ground (arith, h, o, r))
        | inl r ↦ (t, open_node-ok t o, r, ground (arith, h, o, r))
      ]
    ],
    λ (t, opened, allowed, done).
        let o = IsOpen-open_node t opened in ground (arith, o, allowed, done),
  )

refuse_start_iff : (x : NodeState) → (refuse_start x ≡ none) ↔ (x ≡ NodeState.stopped)
unfolding refuse_start
refuse_start_iff NodeState.stopped = (λ h. refl, λ h. refl)
refuse_start_iff NodeState.starting = (λ h. absurd (cc h), λ h. absurd (cc h))
refuse_start_iff NodeState.running = (λ h. absurd (cc h), λ h. absurd (cc h))
refuse_start_iff NodeState.stopping = (λ h. absurd (cc h), λ h. absurd (cc h))

pub refuse_stop_iff :
    (x : NodeState) → (refuse_stop x ≡ none) ↔ ((x ≡ NodeState.starting) ⊎ (x ≡ NodeState.running))
unfolding refuse_stop
refuse_stop_iff NodeState.stopped = ground arith
refuse_stop_iff NodeState.starting = (λ h. inl refl, λ h. refl)
refuse_stop_iff NodeState.running = (λ h. inr refl, λ h. refl)
refuse_stop_iff NodeState.stopping = ground arith

refuse_restart_iff :
    (x : NodeState)
    → (refuse_restart x ≡ none) ↔ ((x ≡ NodeState.stopped) ⊎ (x ≡ NodeState.running))
unfolding refuse_restart
refuse_restart_iff NodeState.stopped = (λ h. inl refl, λ h. refl)
refuse_restart_iff NodeState.starting = ground arith
refuse_restart_iff NodeState.running = (λ h. inr refl, λ h. refl)
refuse_restart_iff NodeState.stopping = ground arith

-- A command carried out: its node is open, in a state that allows it, and the provider agrees.
unfoldable pub IsCarriedOut :
    World
    → String
    → String
    → AuthenticatedUser
    → Service
    → (NodeState → Type 0)
    → (String → String → Option Error)
    → Type 0
IsCarriedOut w id name user s Allows call =
    (t : Target) × IsOpen w id name user s t
    × Allows t.node.state
    × (call t.lab.instance_name t.node.name ≡ none)

module _ (w : World) (id name : String) (user : AuthenticatedUser) (s : Service) where
  IsCarriedOut-iff :
      (refuse : NodeState → Option String) (body : Target → Service → Option Error × Service)
      (Allows : NodeState → Type 0) (call : String → String → Option Error)
      → ((x : NodeState) → (refuse x ≡ none) ↔ Allows x)
      → ((t : Target) → ((body t s).0 ≡ none) ↔ (call t.lab.instance_name t.node.name ≡ none))
      → ((guarded w (open_node w id (some name) user s) refuse body s).0 ≡ none)
        ↔ IsCarriedOut w id name user s Allows call
  unfolding IsCarriedOut
  IsCarriedOut-iff refuse body Allows call states bodies =
      let (to, from) = guarded-none w id name user s refuse body in
      (
        λ h. let (t, o, r, b) = to h in (t, o, (states t.node.state).0 r, (bodies t).0 b),
        λ (t, o, r, b). from (t, o, (states t.node.state).1 r, (bodies t).1 b),
      )

  -- A node command of a user returns no error exactly if the lab exists, the user owns it or is an
  -- administrator, the lab has an instance that is not busy, the node is one of it and may restart,
  -- the provider agrees, and the state of the node allows the command: stopped for a start, starting
  -- or running for a stop, stopped or running for a restart.
  pub node_command-none :
      (((start_node_command w id (some name) user s).0 ≡ none)
        ↔ IsCarriedOut w id name user s (λ x. x ≡ NodeState.stopped) w.start_node)
      × (((stop_node_command w id (some name) user s).0 ≡ none)
          ↔ IsCarriedOut w id name user s
              (λ x. (x ≡ NodeState.starting) ⊎ (x ≡ NodeState.running))
              w.stop_node)
      × (((restart_node_command w id (some name) user s).0 ≡ none)
          ↔ IsCarriedOut w id name user s
              (λ x. (x ≡ NodeState.stopped) ⊎ (x ≡ NodeState.running))
              w.restart_node)
  unfolding start_node_command stop_node_command restart_node_command start_node_body stop_node_body
      restart_node_body
  node_command-none = (
    IsCarriedOut-iff refuse_start (start_node_body w id) _ w.start_node refuse_start_iff (λ t.
        elim (Option-cases (w.start_node t.lab.instance_name t.node.name)) [
          | inl e ↦ ground (arith, e)
          | inr (x, e) ↦ ground (arith, e)
        ]),
    IsCarriedOut-iff refuse_stop (stop_node_body w id) _ w.stop_node refuse_stop_iff (λ t.
        elim (Option-cases (w.stop_node t.lab.instance_name t.node.name)) [
          | inl e ↦ ground (arith, e)
          | inr (x, e) ↦ ground (arith, e)
        ]),
    IsCarriedOut-iff refuse_restart (restart_node_body w id) _ w.restart_node refuse_restart_iff
        (λ t. elim (Option-cases (w.restart_node t.lab.instance_name t.node.name)) [
          | inl e ↦ ground (arith, e)
          | inr (x, e) ↦ ground (arith, e)
        ]),
  )
