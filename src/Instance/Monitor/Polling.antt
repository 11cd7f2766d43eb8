-- ===== src/Instance/Monitor/Polling.antt =====
-- Which containers are still monitored after a round.
use antimony_backend.Base.{
  ◌==◌, nat_eq, string_eq, if◌then◌else◌, Bool-cases, Option-cases, lookup, Map, lookup-delete,
  String, ◌≡◌, refl, subst, ◌∙◌, ◌↔◌, inl, inr, Bool, true, Option, none, some, [], ◌∷◌, arith,
}
use antimony_backend.Instance.Monitor.{MonitoredNode, Monitor, remove_node, poll_nodes, poll}

-- A map of Go has one entry for a key.
unfoldable pub HasDistinctKeys : {V : Type 0} → Map String V → Type 0
HasDistinctKeys [] = Unit
HasDistinctKeys ((k, v) ∷ m) = (lookup k m ≡ none) × HasDistinctKeys m

lookup-remove_node :
    (id j : String) (m : Monitor)
    → lookup j (remove_node id m).monitored_nodes
      ≡ (if id == j then none else lookup j m.monitored_nodes)
unfolding remove_node lookup
lookup-remove_node id j m = elim (Option-cases (lookup id m.monitored_nodes)) [
  | inr (n, here) ↦ rw (remove_node, here) (lookup-delete id j m.monitored_nodes)
  | inl gone ↦ elim (Bool-cases (id == j)) [
    | inr other ↦ rw (remove_node, gone, other) refl
    | inl same ↦
        let missing : lookup j m.monitored_nodes ≡ none =
          subst (λ x. lookup x m.monitored_nodes ≡ none) ((string_eq.equal_iff id j).0 same) gone in
        rw (remove_node, gone, same) missing
  ]
]

-- What one step of the loop leaves of a key.
lookup-step :
    (answers : MonitoredNode → Bool) (id j : String) (n : MonitoredNode) (m : Monitor)
    → lookup j (if answers n then m else remove_node id m).monitored_nodes ≡ (
        if id == j
        then if answers n then lookup j m.monitored_nodes else none
        else lookup j m.monitored_nodes)
lookup-step answers id j n m = elim (Bool-cases (answers n)) [
  | inl read ↦ elim (Bool-cases (id == j)) [
    | inl same ↦ rw (read, same) refl
    | inr other ↦ rw (read, other) refl
  ]
  | inr lost ↦ rw (lost) (lookup-remove_node id j m)
]

after_round :
    (MonitoredNode → Bool) → Option MonitoredNode → Option MonitoredNode → Option MonitoredNode
after_round answers none now = now
after_round answers (some n) now = if answers n then now else none

lookup-poll_nodes :
    (answers : MonitoredNode → Bool) (j : String) (ns : Map String MonitoredNode) (m : Monitor)
    → HasDistinctKeys ns
    → lookup j (poll_nodes answers ns m).monitored_nodes
      ≡ after_round answers (lookup j ns) (lookup j m.monitored_nodes)
unfolding poll_nodes lookup after_round HasDistinctKeys
lookup-poll_nodes answers j [] m h = refl
lookup-poll_nodes answers j ((id, n) ∷ ns) m h =
    let rest = lookup-poll_nodes answers j ns (if answers n then m else remove_node id m) h.1 in
    elim (Bool-cases (id == j)) [
      | inr other ↦ rest ∙ rw (lookup-step answers id j n m, other) refl
      | inl same ↦
          let first : lookup j ns ≡ none =
            subst (λ x. lookup x ns ≡ none) ((string_eq.equal_iff id j).0 same) h.0 in
          rest ∙ rw (first, lookup-step answers id j n m, same) refl
    ]

read_iff :
    (answers : MonitoredNode → Bool) (before : Option MonitoredNode) (n : MonitoredNode)
    → (after_round answers before before ≡ some n) ↔ ((before ≡ some n) × (answers n ≡ true))
unfolding after_round
read_iff answers none n = ground arith
read_iff answers (some k) n = elim (Bool-cases (answers k)) [
  | inl read ↦ rw (read) (λ e. (e, cc (e, read)), λ h. h.0)
  | inr lost ↦ rw (lost) (λ e. absurd (cc (e)), λ h. absurd (cc (h.0, h.1, lost)))
]

-- After a round, a container is monitored exactly if it was before and the provider has read its
-- node.
pub lookup-poll :
    (answers : MonitoredNode → Bool) (m : Monitor) (j : String)
    → HasDistinctKeys m.monitored_nodes
    → (n : MonitoredNode)
    → (lookup j (poll answers m).monitored_nodes ≡ some n)
      ↔ ((lookup j m.monitored_nodes ≡ some n) × (answers n ≡ true))
unfolding poll
lookup-poll answers m j h n =
    rw (lookup-poll_nodes answers j m.monitored_nodes m h)
      (read_iff answers (lookup j m.monitored_nodes) n)
