-- ===== src/Controller.antt =====
-- pkg/staged-binding-policy/controller.go: the work items, and the queue that the controller shares
-- with its event handlers. The queue itself is client-go's.
pub mod Events
pub mod Reconcile
pub mod Worker
pub mod Limits
pub mod Enqueued
pub mod Reached
pub mod Requeue
pub mod Start
pub mod Started
pub mod After
pub mod Objects
pub mod Ends
pub mod Cycle
pub mod New
pub mod Wiring
pub mod Failures
pub mod Dropped
pub mod System
use kubestellar_workload_sta.Base.{Option, Str}
use kubestellar_workload_sta.Api.{ObjectIdentifier}

-- `stagedBindingPolicyRef`, `bindingRef` and `combinedStatusRef`; the last is a value of any other
-- type, of which the controller itself can only add an ObjectIdentifier.
pub data Item : Type 0 where
  policy_ref : Str → Item
  binding_ref : Str → Item
  combined_status_ref : Str → Item
  object_identifier : ObjectIdentifier → Item

-- `workqueue.RateLimitingInterface`. `get` returns no item once the queue is shut down.
pub record WorkQueue : Type 1 where
  pub Queue : Type 0
  pub add : Item → Queue → Queue
  pub add_rate_limited : Item → Queue → Queue
  pub forget : Item → Queue → Queue
  pub finish : Item → Queue → Queue
  pub get : Queue → Option Item × Queue
