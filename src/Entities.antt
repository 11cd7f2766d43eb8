-- ===== src/Entities.antt =====
-- The database entities, domain/*/entity.go: the fields that the services decide by. Times are in
-- seconds, counted from Go's zero time.
use antimony_backend.Base.{nat_eq, string_eq, ℕ, String, Bool, Option}

pub record User : Type 0 where
  pub uuid : String
  pub sub : String
  pub name : String

pub record Collection : Type 0 where
  pub uuid : String
  pub name : String
  pub public_write : Bool
  pub public_deploy : Bool
  pub creator : User

pub record Topology : Type 0 where
  pub uuid : String
  pub name : String
  pub sync_url : String
  pub collection : Collection
  pub creator : User
  pub last_deploy_failed : Bool

pub record Lab : Type 0 where
  pub uuid : String
  pub name : String
  pub start_time : ℕ
  pub end_time : Option ℕ
  pub topology : Topology
  pub collection : Collection
  pub creator : User
  pub instance_name : String
  pub topology_definition : Option String
  pub topology_annotations : Option String
