-- ===== src/Resolver/History/Steps.antt =====
-- The history of an entry over each step of the resolver.
use kubestellar_workload_sta.Base.{
  ◌≡◌, ◌≢◌, refl, sym, ◌∙◌, ap, inl, inr, Option, some, [], Str, str_eq, arith,
}
use kubestellar_workload_sta.Base.Dict.{lookup, insert, lookup-insert, lookup-erase}
use kubestellar_workload_sta.Run.{done}
use kubestellar_workload_sta.Strings.{split, stage_separator}
use kubestellar_workload_sta.Api.{Kinds, StagedBindingPolicy, Binding}
use kubestellar_workload_sta.Cluster.{Cluster, Failure}
use kubestellar_workload_sta.Resolver.{PolicyData, State}
use kubestellar_workload_sta.Resolver.Condition.{attempt_condition}
use kubestellar_workload_sta.Resolver.Notes.{
  note_policy, note_binding, note_combined_status, delete_policy, attempt_matching, without_suffix,
  first_owner_uid,
}
use kubestellar_workload_sta.Resolver.Fulfilled.{RangesAll}
use kubestellar_workload_sta.Resolver.Frame.{lookup-note_policy, lookup-attempt_condition}
use kubestellar_workload_sta.Resolver.Reach.{
  Step, policy, deletion, binding, combined_status, outside,
}
use kubestellar_workload_sta.Resolver.History.{
  History, noted, forgotten, bound, History-append, History_of_eq, History_of_Change,
}
use kubestellar_workload_sta.Resolver.History.Attempt.{attempt_condition-History}
use kubestellar_workload_sta.Resolver.History.Methods.{
  note_binding-eq_done, note_combined_status-eq_done,
}
use kubestellar_workload_sta.Resolver.History.Matched.{
  lookup-attempt_matching, attempt_matching-History,
}
use kubestellar_workload_sta.Resolver.History.Noted.{entry_uid, note_policy-IsNew}

module _ {K : Kinds} (C : Cluster K) (ranges : RangesAll C) (name : Str) (s s' : State C) where
  Evolves : Step C s s' → Type 0
  Evolves st = History C name st (lookup name s.policies) (lookup name s'.policies)

  note_policy-Evolves :
      (sbp : StagedBindingPolicy K) (e : Option (Failure C.Error))
      (h : note_policy C sbp s ≡ done e s')
      → Evolves (policy sbp e h)
  unfolding Evolves
  note_policy-Evolves sbp e h = elim (str_eq.dec name sbp.metadata.name) [
    | yes p ↦
        History_of_Change C name (policy sbp e h)
          (noted sbp (entry_uid (lookup sbp.metadata.name s'.policies)) (refl, sym p))
          (ap (λ n. lookup n s'.policies) p ∙ note_policy-IsNew C sbp s s' e h)
    | no n ↦
        History_of_eq C name (policy sbp e h) (ground (arith, lookup-note_policy C name sbp s n))
  ]

  delete_policy-Evolves :
      (key : Str) (h : delete_policy C key s ≡ done tt s') → Evolves (deletion key h)
  unfolding Evolves delete_policy
  delete_policy-Evolves key h = elim (str_eq.dec name key) [
    | yes p ↦
        History_of_Change C name (deletion key h) (forgotten p)
          (ground (arith, lookup-erase name key s.policies))
    | no n ↦
        History_of_eq C name (deletion key h) (ground (arith, lookup-erase name key s.policies))
  ]

  note_binding_own-Evolves :
      (b : Binding) (h : note_binding C b s ≡ done tt s') (d : PolicyData K)
      → without_suffix (split b.metadata.name stage_separator) ≡ some name
      → lookup name s.policies ≡ some d
      → d.active_binding_policy_uid ≡ first_owner_uid b.metadata.owner_references
      → attempt_condition C name
          (record s { policies = insert name (record d { binding_spec = b.spec }) s.policies })
        ≡ done tt s'
      → Evolves (binding b h)
  unfolding Evolves
  note_binding_own-Evolves b h d suffix found owned e =
      let st = binding b h in
      let d' = record d { binding_spec = b.spec } in
      let written = lookup-insert name name d' s.policies in
      History-append C name st
        (rw found
          (History_of_Change C name st (bound d b (refl, suffix) owned) (ground (arith, written))))
        (attempt_condition-History C name st ranges
          (record s { policies = insert name d' s.policies }) s' (d, suffix, found, owned, refl) e)

  note_binding_foreign-Evolves :
      (b : Binding) (h : note_binding C b s ≡ done tt s') (key : Str) (d : PolicyData K)
      → name ≢ key
      → attempt_condition C key
          (record s { policies = insert key (record d { binding_spec = b.spec }) s.policies })
        ≡ done tt s'
      → Evolves (binding b h)
  unfolding Evolves
  note_binding_foreign-Evolves b h key d n e =
      let d' = record d { binding_spec = b.spec } in
      History_of_eq C name (binding b h) (
        ground (
          arith,
          lookup-insert name key d' s.policies,
          lookup-attempt_condition C name key (record s { policies = insert key d' s.policies }) n,
        ))

  note_binding-Evolves : (b : Binding) (h : note_binding C b s ≡ done tt s') → Evolves (binding b h)
  unfolding Evolves
  note_binding-Evolves b h = elim (note_binding-eq_done C b s s' h) [
    | inl e ↦ History_of_eq C name (binding b h) (ground arith)
    | inr (key, d, suffix, found, owned, e) ↦ elim (str_eq.dec name key) [
      | no n ↦ note_binding_foreign-Evolves b h key d n e
      | yes p ↦
          note_binding_own-Evolves b h d (suffix ∙ ap some (sym p)) (rw p found) owned (rw p e)
    ]
  ]

  note_combined_status-Evolves :
      (cs : C.CombinedStatus) (h : note_combined_status C cs s ≡ done tt s')
      → Evolves (combined_status cs h)
  unfolding Evolves attempt_matching
  note_combined_status-Evolves cs h = elim (note_combined_status-eq_done C cs s s' h) [
    | inl e ↦ History_of_eq C name (combined_status cs h) (ground arith)
    | inr (key, label, e) ↦ elim (str_eq.dec name key) [
      | no n ↦
          History_of_eq C name (combined_status cs h)
            (lookup-attempt_matching C key name _ s s' n e)
      | yes p ↦
          attempt_matching-History C ranges name cs h (label ∙ ap some (sym p)) [] _ s s' refl refl
            (rw p e)
    ]
  ]

module _ {K : Kinds} (C : Cluster K) (ranges : RangesAll C) (name : Str) where
  -- Every step of the resolver refines the abstract machine: what becomes of the entry of a policy
  -- in a step is a sequence of that machine's changes, each for what this step is and does. The
  -- entry is made anew only by a note of the policy and goes only by a deletion of it, its workload
  -- is that of the binding that is noted and that its active BindingPolicy owns, and its stage goes
  -- up only by one, where this step attempts its condition, in a state in which its active stage is
  -- fulfilled and the API calls of the move succeed; where the move fails once the next stage's
  -- BindingPolicy has been created, the entry takes only its UID. Calls return, and `range` visits
  -- the elements of a set in some order.
  pub Step-History :
      {s s' : State C} (st : Step C s s')
      → History C name st (lookup name s.policies) (lookup name s'.policies)
  unfolding Evolves
  Step-History {s} {s'} (policy sbp e h) = note_policy-Evolves C ranges name s s' sbp e h
  Step-History {s} {s'} (deletion key h) = delete_policy-Evolves C ranges name s s' key h
  Step-History {s} {s'} (binding b h) = note_binding-Evolves C ranges name s s' b h
  Step-History {s} {s'} (combined_status cs h) =
      note_combined_status-Evolves C ranges name s s' cs h
  Step-History (outside h) = History_of_eq C name (outside h) (rw h refl)
