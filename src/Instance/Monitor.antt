-- ===== src/Instance/Monitor.antt =====
-- runtime/instance/monitor.go: the containers whose statistics are polled. Go iterates over a copy
-- of the map, so a round of `Run` reads every container that was monitored when it began. What a
-- namespace is sent is left out; `released` lists the containers whose namespace was released, the
-- latest first.
pub mod Polling
use antimony_backend.Base.{
  Eq, ◌==◌, nat_eq, string_eq, ==_refl, ltb, leb, nat_beq, if◌then◌else◌, ltb→lt, leb→le, ltb-of_lt,
  ltb-of_le, nat_beq_iff, Bool-cases, Option-cases, some-injective, split_option, ◌>>=◌, length,
  get_elem?, take, drop, replicate, store, length-append, length-take, length-drop,
  length-replicate, take-append-drop, take_all, drop_all, drop-append, drop-drop, get_elem?-some,
  Stores, store-some, All, In, All-In, All-of_In, All-imp, All-append, In-append_left,
  In-append_right, lookup, put, delete, Map, lookup-put, lookup-delete, lookup-put_self,
  lookup-put_ne, lookup-delete_self, lookup-delete_ne, lookup-put-some, lookup-delete-some, ℕ, zero,
  suc, ◌+◌, ◌-◌, ◌*◌, ◌/◌, ◌%◌, ◌^◌, ◌≤◌, ◌<◌, min, String, ◌≡◌, refl, sym, ap, subst, ◌∙◌, ◌≢◌,
  ◌↔◌, ◌⊎◌, inl, inr, Bool, true, false, not, ◌&&◌, ◌||◌, Option, none, some, List, [], ◌∷◌, ◌++◌,
  map, append-nil, append_assoc, arith,
}

pub record MonitoredNode : Type 0 where
  pub name : String
  pub instance_name : String
  pub ctx : Option ℕ

pub record Monitor : Type 0 where
  pub monitored_nodes : Map String MonitoredNode
  pub released : List String

unfoldable pub create_monitor : Monitor
create_monitor = record { monitored_nodes = []; released = [] }

-- A container that is monitored already keeps its entry.
unfoldable pub add_node : Option ℕ → String → String → String → Monitor → Monitor
add_node ctx instance_name name id m = elim (lookup id m.monitored_nodes) [
  | some _ ↦ m
  | none ↦ record m {
    monitored_nodes =
        put id (record { name = name; instance_name = instance_name; ctx = ctx }) m.monitored_nodes;
  }
]

unfoldable pub remove_node : String → Monitor → Monitor
remove_node id m = elim (lookup id m.monitored_nodes) [
  | none ↦ m
  | some _ ↦ record { monitored_nodes = delete id m.monitored_nodes; released = id ∷ m.released }
]

-- The loop of one round over the copy; `answers` tells whether the provider has read the node.
unfoldable pub poll_nodes : (MonitoredNode → Bool) → Map String MonitoredNode → Monitor → Monitor
poll_nodes answers [] m = m
poll_nodes answers ((id, n) ∷ ns) m =
    poll_nodes answers ns (if answers n then m else remove_node id m)

unfoldable pub poll : (MonitoredNode → Bool) → Monitor → Monitor
poll answers m = poll_nodes answers m.monitored_nodes m

unfoldable pub close_loop : Map String MonitoredNode → Monitor → Monitor
close_loop [] m = m
close_loop ((id, n) ∷ ns) m =
    close_loop ns
      (record { monitored_nodes = delete id m.monitored_nodes; released = id ∷ m.released })

unfoldable pub close : Monitor → Monitor
close m = close_loop m.monitored_nodes m
