-- ===== src/Controller/Failures.antt =====
-- Which failures the handlers of the work items return.
use kubestellar_workload_sta.Base.{◌≡◌, false, some, Str, ◌⊎◌, arith, str_eq}
use kubestellar_workload_sta.Run.{done}
use kubestellar_workload_sta.Api.{Kinds, StagedBindingPolicy}
use kubestellar_workload_sta.Cluster.{Cluster, Failure, external, ok, err}
use kubestellar_workload_sta.Lister
use kubestellar_workload_sta.Resolver.{State}
use kubestellar_workload_sta.Resolver.Notes.{note_policy}
use kubestellar_workload_sta.Controller.{
  Item, policy_ref, binding_ref, combined_status_ref, object_identifier,
}
use kubestellar_workload_sta.Controller.Requeue.{reconcile_binding_failure}
use kubestellar_workload_sta.Controller.Reconcile.{reconcile, sync_policy, process_combined_status}

module _ {K : Kinds} (C : Cluster K) where
  -- Processing a combined status returns an error only where its key does not split, or the lister failed
  -- with another error than not-found; then nothing has changed.
  reconcile_combined_status_failure :
      (key : Str) (s s' : State C) (f : Failure C.Error)
      → reconcile C (combined_status_ref key) s ≡ done (some f) s'
      → (s' ≡ s)
        × (((x : C.Error) × (C.split_key key ≡ err x) × (f ≡ external x))
            ⊎ ((parts : Str × Str) × (x : C.Error) × (C.split_key key ≡ ok parts)
                × (C.cached_combined_status parts.0 parts.1 s.server ≡ err x)
                × (C.is_not_found x ≡ false)))
  unfolding reconcile process_combined_status
  reconcile_combined_status_failure key s s' f h = ground arith

  -- Reconciling a reference to a policy returns an error only where the lister failed with another error
  -- than not-found, and then nothing has changed, or where noting the policy that it gave failed.
  reconcile_policy_failure :
      (name : Str) (s s' : State C) (f : Failure C.Error)
      → reconcile C (policy_ref name) s ≡ done (some f) s'
      → ((x : C.Error) × (Lister.get C name s.server ≡ err x)
          × (C.is_not_found x ≡ false)
          × (s' ≡ s))
        ⊎ ((sbp : StagedBindingPolicy K) × (g : Failure C.Error) × (Lister.get C name s.server
              ≡ ok sbp)
            × (note_policy C sbp s ≡ done (some g) s'))
  unfolding reconcile sync_policy
  reconcile_policy_failure name s s' f h = ground arith

  -- Where the error `f` comes from that an item's handler returns, and what has changed by then.
  abbrev pub FailsBy : Item → State C → State C → Failure C.Error → Type 0
  FailsBy (policy_ref name) s s' f =
      ((x : C.Error) × (Lister.get C name s.server ≡ err x) × (C.is_not_found x ≡ false) × (s' ≡ s))
      ⊎ ((sbp : StagedBindingPolicy K) × (g : Failure C.Error) × (Lister.get C name s.server
            ≡ ok sbp)
          × (note_policy C sbp s ≡ done (some g) s'))
  FailsBy (binding_ref name) s s' f =
      (x : C.Error) × (C.cached_binding name s.server ≡ err x)
      × (C.is_not_found x ≡ false)
      × (s' ≡ s)
  FailsBy (combined_status_ref key) s s' f =
      (s' ≡ s)
      × (((x : C.Error) × (C.split_key key ≡ err x) × (f ≡ external x))
          ⊎ ((parts : Str × Str) × (x : C.Error) × (C.split_key key ≡ ok parts)
              × (C.cached_combined_status parts.0 parts.1 s.server ≡ err x)
              × (C.is_not_found x ≡ false)))
  FailsBy (object_identifier _) s s' f = ⊥

  -- An item's reconciliation returns an error only where a lister failed with another error than not-found or
  -- the key of a combined status does not split, and then nothing has changed, or where noting a policy
  -- failed. An item of another type never fails, and neither does what a binding or a status brings about: a
  -- stage-up that fails is not retried.
  pub reconcile_failure :
      (item : Item) (s s' : State C) (f : Failure C.Error)
      → reconcile C item s ≡ done (some f) s'
      → FailsBy item s s' f
  unfolding reconcile
  reconcile_failure (policy_ref name) s s' f h = reconcile_policy_failure name s s' f h
  reconcile_failure (binding_ref name) s s' f h = reconcile_binding_failure C name s s' f h
  reconcile_failure (combined_status_ref key) s s' f h =
      reconcile_combined_status_failure key s s' f h
  reconcile_failure (object_identifier _) s s' f h = absurd (ground arith)
