-- ===== src/Resolver/History/Attempt.antt =====
-- The history of an entry over an attempt at its policy's condition.
use kubestellar_workload_sta.Base.{
  ◌+◌, ◌-◌, ◌≡◌, refl, inl, inr, Option, none, some, Str, str_eq, arith, get_elem?,
}
use kubestellar_workload_sta.Base.Dict.{lookup, insert, lookup-insert}
use kubestellar_workload_sta.Run.{done}
use kubestellar_workload_sta.Api.{Kinds, Stage}
use kubestellar_workload_sta.Cluster.{Cluster}
use kubestellar_workload_sta.Resolver.{PolicyData, State}
use kubestellar_workload_sta.Resolver.Ensure.{
  stage_up, advance, ensure_active_stage, delete_previous, create_active, revert,
}
use kubestellar_workload_sta.Resolver.Condition.{attempt_condition}
use kubestellar_workload_sta.Resolver.Staging.{
  Outcome, kept, moved as moved_to, torn as torn_at, settle, rollout, stage_up-rollout,
}
use kubestellar_workload_sta.Resolver.Fulfilled.{RangesAll, IsFulfilled, attempt_condition_cases}
use kubestellar_workload_sta.Resolver.Reach.{Step}
use kubestellar_workload_sta.Resolver.History.{
  Attempts, Leaves, History, moved, torn, History_of_eq, History_of_Change,
}

module _ {K : Kinds} (C : Cluster K) (name : Str) where
  -- At a last stage only a failed deletion returns, and then the entry is as it was.
  stage_up_last_done :
      (d : PolicyData K) (s s' : State C)
      → lookup name s.policies ≡ some d
      → get_elem? d.stages (d.active_index + 1) ≡ none
      → stage_up C name s ≡ done tt s'
      → lookup name s'.policies ≡ some d
  unfolding stage_up advance ensure_active_stage delete_previous create_active revert
  stage_up_last_done d s s' h n e =
      let d' = record d { active_index = d.active_index + 1 } in
      ground (
        arith,
        lookup-insert name name d' s.policies,
        lookup-insert name name (record d' { active_index = d'.active_index - 1 })
            (insert name d' s.policies),
      )

  stage_up_next_done :
      (d : PolicyData K) (previous next : Stage K) (s s' : State C)
      → lookup name s.policies ≡ some d
      → get_elem? d.stages d.active_index ≡ some previous
      → get_elem? d.stages (d.active_index + 1) ≡ some next
      → stage_up C name s ≡ done tt s'
      → lookup name s'.policies ≡ some (settle (rollout C name d previous next s.server).0 d)
  stage_up_next_done d previous next s s' h p n e = ground (
    arith,
    stage_up-rollout C name d previous next s h p n,
    lookup-insert name name (settle (rollout C name d previous next s.server).0 d) s.policies,
  )

module _ {K : Kinds} (C : Cluster K) (name : Str) {t u : State C} (st : Step C t u) where
  settle-History :
      (d : PolicyData K) (o : Outcome) (p : Option (PolicyData K))
      → Leaves C name st d o
      → p ≡ some (settle o d)
      → History C name st (some d) p
  settle-History d kept p w e = History_of_eq C name st e
  settle-History d (moved_to uid) p w e = History_of_Change C name st (moved d uid w) e
  settle-History d (torn_at uid) p w e = History_of_Change C name st (torn d uid w) e

  stage_up-History :
      (s s' : State C)
      → Attempts C name st s
      → IsFulfilled C name s
      → stage_up C name s ≡ done tt s'
      → History C name st (lookup name s.policies) (lookup name s'.policies)
  stage_up-History s s' v f e = rw f.3 (go (get_elem? f.0.stages (f.0.active_index + 1)) refl)
    where
      go :
          (o : Option (Stage K))
          → get_elem? f.0.stages (f.0.active_index + 1) ≡ o
          → History C name st (some f.0) (lookup name s'.policies)
      go none n = History_of_eq C name st (stage_up_last_done C name f.0 s s' f.3 n e)
      go (some next) n =
          settle-History f.0 (rollout C name f.0 f.1 next s.server).0 _
            (record {
              at = s;
              attempts = v;
              tracked = f.3;
              fulfilled = f;
              previous = f.1;
              next = next;
              active = f.4;
              following = n;
              outcome = refl;
            })
            (stage_up_next_done C name f.0 f.1 next s s' f.3 f.4 n e)

  -- An attempt of the step at the policy's condition.
  pub attempt_condition-History :
      RangesAll C
      → (s s' : State C) → Attempts C name st s
      → attempt_condition C name s ≡ done tt s'
      → History C name st (lookup name s.policies) (lookup name s'.policies)
  attempt_condition-History ranges s s' v e = elim (attempt_condition_cases C ranges name s) [
    | inl q ↦ History_of_eq C name st (ground arith)
    | inr r ↦ elim r [
      | inl q ↦ absurd (ground arith)
      | inr (q, f) ↦ stage_up-History s s' v f (ground arith)
    ]
  ]
