-- ===== src/Resolver/History.antt =====
-- The rollout of one policy as an abstract machine: what can become of its entry in a step, and why.
pub mod Attempt
pub mod Noted
pub mod Methods
pub mod Matched
pub mod Steps
pub mod Climbed
use kubestellar_workload_sta.Base.{
  ◌+◌, ◌≡◌, ◌≢◌, Option, none, some, List, ◌∷◌, ◌++◌, Str, str_eq, get_elem?,
}
use kubestellar_workload_sta.Base.Dict.{lookup, insert}
use kubestellar_workload_sta.Run.{done}
use kubestellar_workload_sta.Strings.{split, stage_separator}
use kubestellar_workload_sta.Api.{Kinds, Stage, StagedBindingPolicy, Binding}
use kubestellar_workload_sta.Cluster.{Cluster}
use kubestellar_workload_sta.Resolver.{PolicyData, State}
use kubestellar_workload_sta.Resolver.Condition.{label_binding_policy}
use kubestellar_workload_sta.Resolver.Notes.{
  new_entry, attempt_matching, keys, without_suffix, first_owner_uid, or_empty,
}
use kubestellar_workload_sta.Resolver.Reach.{
  Step, policy, deletion, binding, combined_status, outside,
}
use kubestellar_workload_sta.Resolver.Fulfilled.{IsFulfilled}
use kubestellar_workload_sta.Resolver.Staging.{Outcome, moved as moved_to, torn as torn_at, rollout}

module _ {K : Kinds} (C : Cluster K) (name : Str) where
  -- The step is the note of this object of the policy.
  abbrev pub IsNoteOf : {s s' : State C} → Step C s s' → StagedBindingPolicy K → Type 0
  IsNoteOf (policy noted e h) sbp = (sbp ≡ noted) × (sbp.metadata.name ≡ name)
  IsNoteOf (deletion key h) sbp = ⊥
  IsNoteOf (binding b h) sbp = ⊥
  IsNoteOf (combined_status cs h) sbp = ⊥
  IsNoteOf (outside h) sbp = ⊥

  -- The step is neither a note nor a deletion of the policy.
  abbrev pub IsOther : {s s' : State C} → Step C s s' → Type 0
  IsOther (policy sbp e h) = name ≢ sbp.metadata.name
  IsOther (deletion key h) = name ≢ key
  IsOther (binding b h) = Unit
  IsOther (combined_status cs h) = Unit
  IsOther (outside h) = Unit

  abbrev pub IsDeletion : {s s' : State C} → Step C s s' → Type 0
  IsDeletion (policy sbp e h) = ⊥
  IsDeletion (deletion key h) = name ≡ key
  IsDeletion (binding b h) = ⊥
  IsDeletion (combined_status cs h) = ⊥
  IsDeletion (outside h) = ⊥

  -- The step is the note of this binding, which has a name that is read as one of the policy's.
  abbrev IsBindingOf : {s s' : State C} → Step C s s' → Binding → Type 0
  IsBindingOf (policy sbp e h) b = ⊥
  IsBindingOf (deletion key h) b = ⊥
  IsBindingOf (binding noted h) b =
      (b ≡ noted) × (without_suffix (split b.metadata.name stage_separator) ≡ some name)
  IsBindingOf (combined_status cs h) b = ⊥
  IsBindingOf (outside h) b = ⊥

  -- The step attempts the policy's condition in the state `v`: with the workload of an accepted binding
  -- written, or, at a combined status, after the attempts at the keys that `range` visits first.
  abbrev pub Attempts : {s s' : State C} → Step C s s' → State C → Type 0
  Attempts (policy sbp e h) v = ⊥
  Attempts (deletion key h) v = ⊥
  Attempts {s} (binding b h) v =
      (d : PolicyData K) × (without_suffix (split b.metadata.name stage_separator) ≡ some name)
      × (lookup name s.policies ≡ some d)
      × (d.active_binding_policy_uid ≡ first_owner_uid b.metadata.owner_references)
      × (v ≡ record s { policies = insert name (record d { binding_spec = b.spec }) s.policies })
  Attempts {s} (combined_status cs h) v =
      (first : List Str) × (rest : List Str) × (without_suffix
          (split (or_empty (lookup label_binding_policy (C.status_labels cs))) stage_separator)
        ≡ some name)
      × (C.range_names (keys C s.policies) ≡ first ++ name ∷ rest)
      × (attempt_matching C name first s ≡ done tt v)
  Attempts (outside h) v = ⊥

  -- The step attempts the condition of the entry in a state in which its active stage is fulfilled, and the
  -- API calls of the move to the next stage have this outcome in that state.
  pub record Leaves {s s' : State C} (st : Step C s s') (d : PolicyData K) (o : Outcome)
      : Type 0 where
    pub at : State C
    pub attempts : Attempts st at
    pub tracked : lookup name at.policies ≡ some d
    pub fulfilled : IsFulfilled C name at
    pub previous : Stage K
    pub next : Stage K
    pub active : get_elem? d.stages d.active_index ≡ some previous
    pub following : get_elem? d.stages (d.active_index + 1) ≡ some next
    pub outcome : (rollout C name d previous next at.server).0 ≡ o

  module _ {s s' : State C} (st : Step C s s') where
    -- A change of the entry of a policy in the step. A policy that is noted starts afresh at the stage that its
    -- status names; the stage goes up by one where it is fulfilled and the calls of the move succeed, and a
    -- torn move takes only the UID.
    pub data Change : Option (PolicyData K) → Option (PolicyData K) → Type 0 where
      noted :
          {o : Option (PolicyData K)} (sbp : StagedBindingPolicy K) (uid : Str)
          → IsNoteOf st sbp
          → Change o (some (record (new_entry sbp) { active_binding_policy_uid = uid }))
      forgotten : {o : Option (PolicyData K)} → IsDeletion st → Change o none
      bound :
          (d : PolicyData K) (b : Binding)
          → IsBindingOf st b
          → d.active_binding_policy_uid ≡ first_owner_uid b.metadata.owner_references
          → Change (some d) (some (record d { binding_spec = b.spec }))
      moved :
          (d : PolicyData K) (uid : Str)
          → Leaves st d (moved_to uid)
          → Change (some d) (
              some
                (record d { active_index = d.active_index + 1; active_binding_policy_uid = uid }))
      torn :
          (d : PolicyData K) (uid : Str)
          → Leaves st d (torn_at uid)
          → Change (some d) (some (record d { active_binding_policy_uid = uid }))

    -- A sequence of changes in the step.
    pub data History (o : Option (PolicyData K)) : Option (PolicyData K) → Type 0 where
      start : History o o
      after : {p q : Option (PolicyData K)} → History o p → Change p q → History o q

    pub History-append : {o p q : Option (PolicyData K)} → History o p → History p q → History o q
    History-append h start = h
    History-append h (after k c) = after (History-append h k) c

    pub History_of_eq : {o p : Option (PolicyData K)} → p ≡ o → History o p
    History_of_eq e = rw e start

    pub History_of_Change : {o p q : Option (PolicyData K)} → Change o p → q ≡ p → History o q
    History_of_Change c e = rw e (after start c)
