-- ===== src/Controller/Objects.antt =====
-- controller.go: the functions on objects of any type, `shouldSkipUpdate`, `handleObject`,
-- `enqueueObject`, `enqueueObjectIdentifier`, `getObject` and `isBeingDeleted`.
use kubestellar_workload_sta.Base.{
  Bool, true, false, Option, none, some, [], Str, str_eq, ◌==◌, if◌then◌else◌,
}
use kubestellar_workload_sta.Api.{ObjectIdentifier}
use kubestellar_workload_sta.Cluster.{Result}
use kubestellar_workload_sta.Controller.{WorkQueue, object_identifier}
use kubestellar_workload_sta.Controller.Events.{Deleted, last_known}

-- An object of any type with its metadata, a generic lister and `util.IdentifierForObject`.
pub record Objects : Type 1 where
  pub Object : Type 0
  pub Time : Type 0
  pub Error : Type 0
  pub GenericLister : Type 0
  pub resource_version : Object → Str
  pub deletion_timestamp : Object → Option Time
  pub identifier_for_object : Object → Str → ObjectIdentifier
  pub get_by_namespace : GenericLister → Str → Str → Result Error Object
  pub get : GenericLister → Str → Result Error Object

module _ (O : Objects) where
  unfoldable pub should_skip_update : O.Object → O.Object → Bool
  should_skip_update old new =
      if O.resource_version new == O.resource_version old then true else false

  unfoldable pub get_object : O.GenericLister → Str → Str → Result O.Error O.Object
  get_object lister namespace name =
      if namespace == [] then O.get lister name else O.get_by_namespace lister namespace name

  unfoldable pub is_being_deleted : O.Object → Bool
  is_being_deleted obj = elim (O.deletion_timestamp obj) [ none ↦ false | some t ↦ true ]

  module _ (W : WorkQueue) where
    unfoldable pub enqueue_object_identifier : ObjectIdentifier → W.Queue → W.Queue
    enqueue_object_identifier obj_identifier q = W.add (object_identifier obj_identifier) q

    unfoldable pub enqueue_object : O.Object → Str → W.Queue → W.Queue
    unfolding enqueue_object_identifier
    enqueue_object obj resource q =
        enqueue_object_identifier (O.identifier_for_object obj resource) q

    unfoldable pub handle_object : Deleted O.Object → Str → W.Queue → W.Queue
    unfolding enqueue_object
    handle_object obj resource q = enqueue_object (last_known obj) resource q
