-- ===== src/Resolver.antt =====
-- pkg/staged-binding-policy/resolver.go: the state of the resolver and its entries.
--
-- A value of the map `stagedBindingPolicies` is a pointer in Go. A method that changes the entry of a
-- name writes the changed record back to that name. Each exported method holds the resolver's lock
-- from its first line to its return, so a method is one transition of the state.
pub mod Filter
pub mod Ensure
pub mod Condition
pub mod Notes
pub mod Bounds
pub mod NoteBounds
pub mod Reach
pub mod Staging
pub mod Fulfilled
pub mod Progress
pub mod Recovery
pub mod Idle
pub mod Stalled
pub mod Keeping
pub mod Restart
pub mod Frame
pub mod Selected
pub mod Routing
pub mod History
pub mod Exclusive
pub mod First
pub mod Matching
use kubestellar_workload_sta.Base.{ℕ, List, [], Str}
use kubestellar_workload_sta.Base.Dict.{Dict}
use kubestellar_workload_sta.Api.{Kinds, Stage, BindingSpec}
use kubestellar_workload_sta.Cluster.{Cluster}

pub record PolicyData (K : Kinds) : Type 0 where
  pub uid : Str
  pub downsync : List K.DownsyncPolicyClause
  pub stages : List (Stage K)
  pub active_index : ℕ
  pub active_binding_policy_uid : Str
  pub binding_spec : BindingSpec

pub record State {K : Kinds} (C : Cluster K) : Type 0 where
  pub policies : Dict Str (PolicyData K)
  pub server : C.Server

-- `NewResolver`: no policy is tracked.
unfoldable pub new_resolver : {K : Kinds} (C : Cluster K) → C.Server → State C
new_resolver C server = record { policies = []; server = server }
