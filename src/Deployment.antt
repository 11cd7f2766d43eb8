-- ===== src/Deployment.antt =====
-- deployment/deployment.go: what a deployment provider says of the containers of a lab.
use antimony_backend.Base.{nat_eq, string_eq, ℕ, String, Bool, true, false}

pub data NodeState : Type 0 where
  stopped starting running stopping : NodeState

-- `==` on two states.
unfoldable pub same_state : NodeState → NodeState → Bool
same_state stopped stopped = true
same_state starting starting = true
same_state running running = true
same_state stopping stopping = true
same_state _ _ = false

pub record InspectContainer : Type 0 where
  pub name : String
  pub lab_name : String
  pub state : NodeState
  pub container_id : String
  pub container_name : String
  pub ipv4_address : String
  pub ipv6_address : String

pub record NodeInterface : Type 0 where
  pub name : String
  pub address : String
  pub mtu : ℕ
  pub state : String
