-- ===== src/Objects.antt =====
-- The Kubernetes objects that the helpers read and build, with the fields that they use. A Go
-- pointer that may be nil is an `Option`; a quantity is its value in thousandths.
pub mod Autoscaling
use autoscale_tests.Base.{ℕ, String, Bool, Option, List}
use autoscale_tests.Base.Dict.{Dict}

abbrev pub Labels : Type 0
Labels = Dict String

abbrev pub Quantity : Type 0
Quantity = ℕ

pub record Condition : Type 0 where
  pub type : String
  pub status : String
  pub reason : String

pub record Resources : Type 0 where
  pub cpu : Option Quantity
  pub memory : Option Quantity

pub record Container : Type 0 where
  pub name : String
  pub image : String
  pub command : List String
  pub ports : List ℕ
  pub requests : Resources
  pub limits : Resources

pub record Pod : Type 0 where
  pub name : String
  pub namespace : String
  pub uid : String
  pub phase : String
  pub conditions : List Condition
  pub node_name : String
  pub is_deleting : Bool
  pub init_containers : List Container
  pub containers : List Container

pub record Namespace : Type 0 where
  pub name : String
  pub labels : Labels

pub record Deployment : Type 0 where
  pub name : String
  pub namespace : String
  pub labels : Labels
  pub replicas : Option ℕ
  pub selector : Labels
  pub template_labels : Labels
  pub containers : List Container
  pub ready_replicas : ℕ
  pub available_replicas : ℕ

pub record Service : Type 0 where
  pub name : String
  pub namespace : String
  pub port : ℕ
  pub target_port : ℕ
  pub selector : Labels
