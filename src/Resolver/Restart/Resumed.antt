-- ===== src/Resolver/Restart/Resumed.antt =====
-- Over a restart of the controller, a policy stays at the stage that it was at.
use mathlib.Core.Path.{subst}
use kubestellar_workload_sta.Base.{
  ◌⊎◌, ◌≡◌, ◌≢◌, refl, sym, ◌∙◌, ap, Option, some, Str, str_eq, arith,
}
use kubestellar_workload_sta.Base.Dict.{lookup, insert, lookup-insert, lookup-erase}
use kubestellar_workload_sta.Run.{Ensures, done}
use kubestellar_workload_sta.Api.{Kinds, StagedBindingPolicy, Binding}
use kubestellar_workload_sta.Cluster.{Cluster, Failure}
use kubestellar_workload_sta.Resolver.{PolicyData, State, new_resolver}
use kubestellar_workload_sta.Resolver.Notes.{
  new_entry, note_policy, note_binding, note_combined_status, delete_policy, first_owner_uid,
}
use kubestellar_workload_sta.Resolver.Fulfilled.{RangesAll}
use kubestellar_workload_sta.Resolver.Frame.{lookup-note_policy}
use kubestellar_workload_sta.Resolver.Keeping.{note_binding-keeps, note_combined_status-keeps}
use kubestellar_workload_sta.Resolver.Restart.Ensured.{
  after_deletion, HasCreated, note_policy-HasCreated,
}
use kubestellar_workload_sta.Resolver.History.Noted.{entry_uid, note_policy-IsNew}
use kubestellar_workload_sta.Resolver.Exclusive.Noted.{note_policy-ensured}
use kubestellar_workload_sta.Resolver.Restart.{IsStore, AreNamed}
use kubestellar_workload_sta.Resolver.Restart.Stored.{ensure_other}
use kubestellar_workload_sta.Resolver.Restart.Attempted.{
  IsInStep, IsInStep-frame, attempt_condition-IsInStep,
}
use kubestellar_workload_sta.Resolver.Restart.Noted.{note_policy-IsInStep}

module _ {K : Kinds} (C : Cluster K) (stored : C.Server → Str → Option (StagedBindingPolicy K))
    (name : Str) where
  -- Any step of the resolver, but for a deletion of the policy and a note of it that is not as the API server
  -- stores it, or a change of the cluster that leaves the stored policy as it is.
  pub data Serve : State C → State C → Type 0 where
    own_note :
        {s s' : State C} (sbp : StagedBindingPolicy K) (e : Option (Failure C.Error))
        → sbp.metadata.name ≡ name
        → AreNamed sbp.spec.stages
        → stored s.server sbp.metadata.name ≡ some sbp
        → note_policy C sbp s ≡ done e s'
        → Serve s s'
    other_policy :
        {s s' : State C} (sbp : StagedBindingPolicy K) (e : Option (Failure C.Error))
        → name ≢ sbp.metadata.name
        → note_policy C sbp s ≡ done e s'
        → Serve s s'
    other_deletion :
        {s s' : State C} (key : Str) → name ≢ key → delete_policy C key s ≡ done tt s' → Serve s s'
    any_binding : {s s' : State C} (b : Binding) → note_binding C b s ≡ done tt s' → Serve s s'
    any_combined_status :
        {s s' : State C} (cs : C.CombinedStatus)
        → note_combined_status C cs s ≡ done tt s'
        → Serve s s'
    elsewhere :
        {s s' : State C}
        → s'.policies ≡ s.policies
        → stored s'.server name ≡ stored s.server name
        → Serve s s'

  pub data Serves (s : State C) : State C → Type 0 where
    still : Serves s s
    served : {t u : State C} → Serves s t → Serve t u → Serves s u

module _ {K : Kinds} {C : Cluster K} {stored : C.Server → Str → Option (StagedBindingPolicy K)}
    (ranges : RangesAll C) (store : IsStore C stored) (name : Str) where
  write_binding-IsInStep :
      (b : Binding) (key : Str) (d : PolicyData K) (s : State C)
      → lookup key s.policies ≡ some d
      → d.active_binding_policy_uid ≡ first_owner_uid b.metadata.owner_references
      → IsInStep C stored name s
      → IsInStep C stored name
          (record s { policies = insert key (record d { binding_spec = b.spec }) s.policies })
  write_binding-IsInStep b key d s found _ i =
      let d' = record d { binding_spec = b.spec } in
      let written = lookup-insert name key d' s.policies in
      elim (str_eq.dec name key) [
        | yes p ↦
            let before : lookup name s.policies ≡ some d = rw p found in
            let tracked = i.tracked in
            let is : i.entry ≡ d = ground arith in
            record {
              entry = d';
              policy = i.policy;
              tracked = ground (arith, written);
              at_server = i.at_server;
              same_stages = i.same_stages ∙ ap (λ (x : PolicyData K). x.stages) is;
              names = i.names;
              same_index = i.same_index ∙ ap (λ (x : PolicyData K). x.active_index) is;
            }
        | no n ↦ IsInStep-frame C stored name s _ (ground (arith, written)) refl i
      ]

  note_other-IsInStep :
      (sbp : StagedBindingPolicy K) (e : Option (Failure C.Error)) (s s' : State C)
      → name ≢ sbp.metadata.name
      → note_policy C sbp s ≡ done e s'
      → IsInStep C stored name s
      → IsInStep C stored name s'
  note_other-IsInStep sbp e s s' n h i =
      let s1 : State C = record s {
        policies = insert sbp.metadata.name (new_entry sbp) s.policies;
      } in
      let kept : stored s'.server name ≡ stored s1.server name =
        subst (λ r. Ensures r (λ e s'. stored s'.server name ≡ stored s1.server name))
          (note_policy-ensured C sbp s s' e h)
          (ensure_other C store name sbp.metadata.name n (new_entry sbp) s1) in
      IsInStep-frame C stored name s s' (ground (arith, lookup-note_policy C name sbp s n)) kept i

  delete_other-IsInStep :
      (key : Str) (s s' : State C)
      → name ≢ key
      → delete_policy C key s ≡ done tt s'
      → IsInStep C stored name s
      → IsInStep C stored name s'
  unfolding delete_policy
  delete_other-IsInStep key s s' n h i =
      IsInStep-frame C stored name s s' (ground (arith, lookup-erase name key s.policies))
        (ground arith) i

  Serve-IsInStep :
      {s s' : State C}
      → Serve C stored name s s'
      → IsInStep C stored name s
      → IsInStep C stored name s'
  Serve-IsInStep {s} {s'} (own_note sbp e p names at h) i =
      subst (λ n. IsInStep C stored n s') p (note_policy-IsInStep C store sbp s s' e names at h)
  Serve-IsInStep {s} {s'} (other_policy sbp e n h) i = note_other-IsInStep sbp e s s' n h i
  Serve-IsInStep {s} {s'} (other_deletion key n h) i = delete_other-IsInStep key s s' n h i
  Serve-IsInStep {s} {s'} (any_binding b h) i =
      note_binding-keeps C (IsInStep C stored name) (attempt_condition-IsInStep ranges store name) b
        (write_binding-IsInStep b) s s' h i
  Serve-IsInStep {s} {s'} (any_combined_status cs h) i =
      note_combined_status-keeps C (IsInStep C stored name)
        (attempt_condition-IsInStep ranges store name) cs s s' h i
  Serve-IsInStep {s} {s'} (elsewhere p q) i =
      IsInStep-frame C stored name s s' (ap (λ x. lookup name x) p) q i

  Serves-IsInStep :
      {s s' : State C}
      → Serves C stored name s s'
      → IsInStep C stored name s
      → IsInStep C stored name s'
  Serves-IsInStep still i = i
  Serves-IsInStep (served p st) i = Serve-IsInStep st (Serves-IsInStep p i)

module _ {K : Kinds} (C : Cluster K) (ranges : RangesAll C)
    {stored : C.Server → Str → Option (StagedBindingPolicy K)} (store : IsStore C stored) where
  -- A new resolver tracks a noted policy at the stage that the last one had it at. A policy is
  -- noted as the API server stores it, and then any steps of the resolver and changes of the
  -- cluster follow, but for a deletion of the policy, a change of the stored policy by others, and
  -- a note of it that is not as it is stored; the steps may fail and may leave a status that was
  -- not updated. Then a new resolver that notes the policy as it is stored tracks it with the same
  -- stages and the same active index, whether or not this note returns an error. It returns one
  -- where the API server refuses a call, as where the BindingPolicy of the active stage exists;
  -- else it has created this BindingPolicy and the entry has its UID, so that the rollout goes on.
  -- The stages have names, each another; calls return, `range` visits the elements of a set in some
  -- order, and the API server stores what it is documented to.
  pub restart_keeps_stage :
      (sbp stored_last : StagedBindingPolicy K) (s noted s' restarted : State C)
      (e e' : Option (Failure C.Error))
      → AreNamed sbp.spec.stages
      → stored s.server sbp.metadata.name ≡ some sbp
      → note_policy C sbp s ≡ done e noted
      → Serves C stored sbp.metadata.name noted s'
      → stored s'.server sbp.metadata.name ≡ some stored_last
      → note_policy C stored_last (new_resolver C s'.server) ≡ done e' restarted
      → (before : PolicyData K) × (after : PolicyData K) × (lookup sbp.metadata.name s'.policies
          ≡ some before)
        × (lookup sbp.metadata.name restarted.policies ≡ some after)
        × (after.stages ≡ before.stages)
        × (after.active_index ≡ before.active_index)
        × (((f : Failure C.Error) × (e' ≡ some f))
            ⊎ HasCreated C stored_last.metadata.name
                (new_entry stored_last)
                (after_deletion C stored_last.metadata.name (new_entry stored_last) s'.server)
                restarted)
  unfolding new_entry new_resolver
  restart_keeps_stage sbp stored_last s noted s' restarted e e' names at h run last again =
      let name = sbp.metadata.name in
      let i =
        Serves-IsInStep ranges store name run
          (note_policy-IsInStep C store sbp s noted e names at h) in
      let at_server = i.at_server in
      let is : i.policy ≡ stored_last = ground arith in
      let named = store.named name s'.server stored_last last in
      let new_one = record (new_entry stored_last) {
        active_binding_policy_uid = entry_uid (lookup stored_last.metadata.name restarted.policies);
      } in
      let new =
        subst (λ n. lookup n restarted.policies ≡ some new_one) named
          (note_policy-IsNew C stored_last (new_resolver C s'.server) restarted e' again) in
      (
        i.entry,
        new_one,
        i.tracked,
        new,
        ap (λ (x : StagedBindingPolicy K). x.spec.stages) (sym is) ∙ i.same_stages,
        ap (λ (x : StagedBindingPolicy K). (new_entry x).active_index) (sym is) ∙ i.same_index,
        note_policy-HasCreated C stored_last e' (new_resolver C s'.server) restarted again,
      )
