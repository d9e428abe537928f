-- ===== src/Dash/Types.antt =====
-- The types of images/dash/main.go: what is read of the API's objects, and what a page shows.
use nineteenseventytwo_platf.Prelude.{ℕ, Bytes, List, Option, Assoc}

pub record Config : Type 0 where
  pub namespaces : List Bytes
  pub selector : Bytes
  pub components : List Bytes

-- an item of a `workloadList`: its labels, `spec.replicas` and `status.readyReplicas`
pub record Workload : Type 0 where
  pub labels : Assoc Bytes Bytes
  pub replicas : Option ℕ
  pub ready_replicas : ℕ

-- `waiting` is the reason of `state.waiting`, where that is not nil
pub record ContainerStatus : Type 0 where
  pub restart_count : ℕ
  pub waiting : Option Bytes

-- an item of a `podList`
pub record Pod : Type 0 where
  pub labels : Assoc Bytes Bytes
  pub container_statuses : List ContainerStatus

pub data State : Type 0 where
  running : State
  degraded : State
  crashing : State
  stopped : State
  unknown : State

pub record Row : Type 0 where
  pub component : Bytes
  pub state : State
  pub ready : ℕ
  pub desired : ℕ
  pub restarts : ℕ
  pub note : Bytes

pub record NamespaceView : Type 0 where
  pub name : Bytes
  pub rows : List Row
  pub error : Bytes
