-- ===== src/Controller/Reconcile.antt =====
-- `reconcile` with binding.go, combinedstatus.go and stagedbindingpolicy.go.
use Prim.Native.String.{String}
use kubestellar_workload_sta.Base.{Option, none, some, Str, if◌then◌else◌}
use kubestellar_workload_sta.Run.{Action, pure, ◌>>=◌, ◌>>◌}
use kubestellar_workload_sta.Api.{Kinds}
use kubestellar_workload_sta.Cluster.{Cluster, ok, err, Failure, external, wrapped}
use kubestellar_workload_sta.Lister
use kubestellar_workload_sta.Resolver.{State}
use kubestellar_workload_sta.Resolver.Notes.{
  note_policy, note_binding, note_combined_status, delete_policy,
}
use kubestellar_workload_sta.Controller.{
  Item, policy_ref, binding_ref, combined_status_ref, object_identifier,
}

abbrev pub wrap_failure : {E : Type 0} → String → Option (Failure E) → Option (Failure E)
wrap_failure message none = none
wrap_failure message (some f) = some (wrapped message f)

module _ {K : Kinds} (C : Cluster K) where
  abbrev Handler : Type 0
  Handler = Action (State C) (Option (Failure C.Error))

  -- An object that is not in the cache is no error; any other error of the lister is.
  abbrev missing : String → Handler → C.Error → Handler
  missing message gone e =
      if C.is_not_found e then gone else pure (some (wrapped message (external e)))

  unfoldable pub sync_policy : Str → Handler
  sync_policy ref s = elim (Lister.get C ref s.server) [
    | err e ↦
        missing "failed to get StagedBindingPolicy from informer cache"
          (do delete_policy C ref; pure none) e s
    | ok sbp ↦
        (do e ← note_policy C sbp; pure (wrap_failure "failed to note StagedBindingPolicy" e)) s
  ]

  unfoldable pub process_binding : Str → Handler
  process_binding ref s = elim (C.cached_binding ref s.server) [
    | err e ↦ missing "failed to get Binding from informer cache" (pure none) e s
    | ok binding ↦ (do note_binding C binding; pure none) s
  ]

  unfoldable pub process_combined_status : Str → Handler
  process_combined_status ref s = elim (C.split_key ref) [
    | err e ↦ pure (some (external e)) s
    | ok (namespace, name) ↦ elim (C.cached_combined_status namespace name s.server) [
      | err e ↦ missing "failed to get CombinedStatus from informer cache" (pure none) e s
      | ok cs ↦ (do note_combined_status C cs; pure none) s
    ]
  ]

  -- The `switch` over the item's type; an item of another type is logged and dropped.
  unfoldable pub reconcile : Item → Handler
  reconcile (policy_ref name) = sync_policy name
  reconcile (binding_ref name) = process_binding name
  reconcile (combined_status_ref key) = process_combined_status key
  reconcile (object_identifier _) = pure none
