-- ===== src/Resolver/Restart/Attempted.antt =====
-- Attempts at conditions keep the stage that a restart would take in step with the entry.
use kubestellar_workload_sta.Base.{
  ℕ, ◌+◌, ◌<◌, ◌≡◌, ◌≢◌, sym, ◌∙◌, ap, inl, inr, Option, some, Str, get_elem?, str_eq, arith,
}
use kubestellar_workload_sta.Base.Dict.{lookup, lookup-insert}
use kubestellar_workload_sta.Run.{done}
use kubestellar_workload_sta.Strings.{stage_name}
use kubestellar_workload_sta.Api.{Kinds, Stage, StagedBindingPolicy}
use kubestellar_workload_sta.Cluster.{Cluster}
use kubestellar_workload_sta.Resolver.{PolicyData, State}
use kubestellar_workload_sta.Resolver.Condition.{attempt_condition}
use kubestellar_workload_sta.Resolver.Notes.{new_entry}
use kubestellar_workload_sta.Resolver.Staging.{Outcome, kept, moved, torn, settle, rollout}
use kubestellar_workload_sta.Resolver.Fulfilled.{RangesAll}
use kubestellar_workload_sta.Resolver.Frame.{lookup-attempt_condition}
use kubestellar_workload_sta.Resolver.Recovery.{new_entry-first}
use kubestellar_workload_sta.Resolver.Exclusive.Attempts.{at_last, to_next, attempt_condition-Went}
use kubestellar_workload_sta.Resolver.Restart.{IsStore, AreNamed}
use kubestellar_workload_sta.Resolver.Restart.Stored.{
  with_stage, settle_stored, rollout-stored, rollout_other,
}

-- A status that names a stage gives its index.
pub new_entry-with_stage :
    {K : Kinds} (sbp : StagedBindingPolicy K) (k : ℕ) (stage : Stage K)
    → AreNamed sbp.spec.stages
    → get_elem? sbp.spec.stages k ≡ some stage
    → (new_entry (with_stage stage sbp)).active_index ≡ k
new_entry-with_stage {K} sbp k stage names at =
    new_entry-first sbp k stage at (names.nonempty k stage at) first
  where
    first :
        (j : ℕ) (other : Stage K)
        → j < k
        → get_elem? sbp.spec.stages j ≡ some other
        → other.name ≢ stage.name
    first j other below l e =
        let same = names.distinct j k other stage l at e in absurd (omega arith)

module _ {K : Kinds} (C : Cluster K) (stored : C.Server → Str → Option (StagedBindingPolicy K))
    (name : Str) where
  -- The policy is tracked at the stage that the stored policy would be tracked at.
  pub record IsInStep (s : State C) : Type 0 where
    pub entry : PolicyData K
    pub policy : StagedBindingPolicy K
    pub tracked : lookup name s.policies ≡ some entry
    pub at_server : stored s.server name ≡ some policy
    pub same_stages : policy.spec.stages ≡ entry.stages
    pub names : AreNamed policy.spec.stages
    pub same_index : (new_entry policy).active_index ≡ entry.active_index

  pub IsInStep-frame :
      (s s' : State C)
      → lookup name s'.policies ≡ lookup name s.policies
      → stored s'.server name ≡ stored s.server name
      → IsInStep s
      → IsInStep s'
  IsInStep-frame s s' p q i = record {
    entry = i.entry;
    policy = i.policy;
    tracked = p ∙ i.tracked;
    at_server = q ∙ i.at_server;
    same_stages = i.same_stages;
    names = i.names;
    same_index = i.same_index;
  }

  settle-IsInStep :
      (s' : State C) (o : Outcome) (d : PolicyData K) (next : Stage K) (sbp : StagedBindingPolicy K)
      → lookup name s'.policies ≡ some (settle o d)
      → stored s'.server name ≡ some (settle_stored o next sbp)
      → get_elem? d.stages (d.active_index + 1) ≡ some next
      → sbp.spec.stages ≡ d.stages
      → AreNamed sbp.spec.stages
      → (new_entry sbp).active_index ≡ d.active_index
      → IsInStep s'
  settle-IsInStep s' kept d next sbp p q n same names index = record {
    entry = d;
    policy = sbp;
    tracked = p;
    at_server = q;
    same_stages = same;
    names = names;
    same_index = index;
  }
  settle-IsInStep s' (torn uid) d next sbp p q n same names index = record {
    entry = settle (torn uid) d;
    policy = sbp;
    tracked = p;
    at_server = q;
    same_stages = same;
    names = names;
    same_index = index;
  }
  settle-IsInStep s' (moved uid) d next sbp p q n same names index = record {
    entry = settle (moved uid) d;
    policy = with_stage next sbp;
    tracked = p;
    at_server = q;
    same_stages = same;
    names = names;
    same_index =
        new_entry-with_stage sbp (d.active_index + 1) next names
          (ap (λ stages. get_elem? stages (d.active_index + 1)) same ∙ n);
  }

module _ {K : Kinds} {C : Cluster K} {stored : C.Server → Str → Option (StagedBindingPolicy K)}
    (ranges : RangesAll C) (store : IsStore C stored) (name : Str) where
  attempt_own :
      (s s' : State C)
      → attempt_condition C name s ≡ done tt s'
      → IsInStep C stored name s
      → IsInStep C stored name s'
  attempt_own s s' e i = elim (attempt_condition-Went C name s s' ranges e) [
    | inl same ↦ rw same i
    | inr (d, previous, found, at, went) ↦
        let is : i.entry ≡ d = ground (arith, i.tracked) in
        elim went [
          | at_last left server ↦
              IsInStep-frame C stored name s s' (left ∙ sym found)
                (ap (λ x. stored x name) server
                  ∙ store.delete_keeps (stage_name name previous.name) name s.server)
                i
          | to_next next n written server ↦
              let o = (rollout C name d previous next s.server).0 in
              settle-IsInStep C stored name s' o d next i.policy
                (ground (arith, lookup-insert name name (settle o d) s.policies))
                (ap (λ x. stored x name) server
                  ∙ rollout-stored C store name d previous next i.policy s.server i.at_server)
                n (i.same_stages ∙ ap (λ (x : PolicyData K). x.stages) is) i.names
                (i.same_index ∙ ap (λ (x : PolicyData K). x.active_index) is)
        ]
  ]

  attempt_other :
      (key : Str) (s s' : State C)
      → name ≢ key
      → attempt_condition C key s ≡ done tt s'
      → IsInStep C stored name s
      → IsInStep C stored name s'
  attempt_other key s s' n e i =
      IsInStep-frame C stored name s s' (ground (arith, lookup-attempt_condition C name key s n))
        (elim (attempt_condition-Went C key s s' ranges e) [
          | inl same ↦ ap (λ (x : State C). stored x.server name) same
          | inr (d, previous, found, at, went) ↦ elim went [
            | at_last left server ↦
                ap (λ x. stored x name) server
                ∙ store.delete_keeps (stage_name key previous.name) name s.server
            | to_next next _ written server ↦
                ap (λ x. stored x name) server
                ∙ rollout_other C store name key n d previous next s.server
          ]
        ])
        i

  pub attempt_condition-IsInStep :
      (key : Str) (s s' : State C)
      → attempt_condition C key s ≡ done tt s'
      → IsInStep C stored name s
      → IsInStep C stored name s'
  attempt_condition-IsInStep key s s' e i = elim (str_eq.dec name key) [
    | yes p ↦ let own : attempt_condition C name s ≡ done tt s' = rw p e in attempt_own s s' own i
    | no n ↦ attempt_other key s s' n e i
  ]
