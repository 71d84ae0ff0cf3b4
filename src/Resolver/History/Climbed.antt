-- ===== src/Resolver/History/Climbed.antt =====
-- No stage is skipped in a run of the resolver: from the stage that a policy was noted at on, each stage was
-- fulfilled in the run when it was left.
use mathlib.Core.Path.{subst}
use kubestellar_workload_sta.Base.{
  ℕ, ◌+◌, ◌≡◌, ◌⊎◌, inl, inr, refl, sym, ◌∙◌, ap, Option, none, some, List, Str, str_eq, arith,
  Option-cases,
}
use kubestellar_workload_sta.Base.Dict.{lookup, lookup-erase}
use kubestellar_workload_sta.Run.{done}
use kubestellar_workload_sta.Api.{Kinds, Stage, StagedBindingPolicy}
use kubestellar_workload_sta.Cluster.{Cluster, Failure}
use kubestellar_workload_sta.Resolver.{PolicyData, State}
use kubestellar_workload_sta.Resolver.Notes.{new_entry, note_policy, delete_policy}
use kubestellar_workload_sta.Resolver.Fulfilled.{RangesAll}
use kubestellar_workload_sta.Resolver.Staging.{moved as moved_to}
use kubestellar_workload_sta.Resolver.Reach.{
  Step, policy, deletion, binding, combined_status, outside, Reach, here, next,
}
use kubestellar_workload_sta.Resolver.History.{
  IsNoteOf, IsOther, IsDeletion, Leaves, Change, noted, forgotten, bound, moved, torn, History,
  start, after,
}
use kubestellar_workload_sta.Resolver.History.Noted.{entry_uid, note_policy-IsNew}
use kubestellar_workload_sta.Resolver.History.Steps.{Step-History}

module _ {K : Kinds} (C : Cluster K) (name : Str) where
  -- The way up a policy's stages in one step, from one index to another: each stage that is left is fulfilled
  -- where the step leaves it.
  pub data Passes {s s' : State C} (st : Step C s s') (stages : List (Stage K)) (i : ℕ)
      : ℕ → Type 0 where
    stays : Passes st stages i i
    leaves :
        (d : PolicyData K) (uid : Str)
        → Passes st stages i d.active_index
        → d.stages ≡ stages
        → Leaves C name st d (moved_to uid)
        → Passes st stages i (d.active_index + 1)

  -- The run notes this object of the policy, at the stage that its status names, and from then on
  -- neither notes nor deletes the policy, and climbs to the index.
  pub data Climbed {s : State C} (sbp : StagedBindingPolicy K)
      : (t : State C) → Reach C s t → ℕ → Type 0 where
    at_note :
        {t u : State C} (r : Reach C s t) (st : Step C t u)
        → IsNoteOf C name st sbp
        → Climbed sbp u (next r st) (new_entry sbp).active_index
    by :
        {t u : State C} (r : Reach C s t) (st : Step C t u) (i j : ℕ)
        → Climbed sbp t r i
        → IsOther C name st
        → Passes st sbp.spec.stages i j
        → Climbed sbp u (next r st) j

  module _ {s s' : State C} (st : Step C s s') where
    -- What another step than a note or a deletion of the policy has made of its entry.
    abbrev Keeps : Option (PolicyData K) → Option (PolicyData K) → Type 0
    Keeps none p = p ≡ none
    Keeps (some d) none = ⊥
    Keeps (some d) (some d') =
        (d'.stages ≡ d.stages) × Passes st d.stages d.active_index d'.active_index

  module _ {s s' : State C} (st : Step C s s') (other : IsOther C name st) where
    no-IsNoteOf : (sbp : StagedBindingPolicy K) → ¬ (IsNoteOf C name st sbp)
    no-IsNoteOf sbp = go st other
      where
        go : {t u : State C} (x : Step C t u) → IsOther C name x → ¬ (IsNoteOf C name x sbp)
        go (policy noted_as e h) o (same, own) =
            o (sym own ∙ ap (λ (x : StagedBindingPolicy K). x.metadata.name) same)
        go (deletion key h) o n = n
        go (binding b h) o n = n
        go (combined_status cs h) o n = n
        go (outside h) o n = n

    no-IsDeletion : ¬ (IsDeletion C name st)
    no-IsDeletion = go st other
      where
        go : {t u : State C} (x : Step C t u) → IsOther C name x → ¬ (IsDeletion C name x)
        go (policy sbp e h) o n = n
        go (deletion key h) o n = o n
        go (binding b h) o n = n
        go (combined_status cs h) o n = n
        go (outside h) o n = n

    Change-Keeps :
        (first : Option (PolicyData K)) {o p : Option (PolicyData K)}
        → Change C name st o p
        → Keeps st first o
        → Keeps st first p
    Change-Keeps first (noted sbp uid n) k = absurd (no-IsNoteOf sbp n)
    Change-Keeps first (forgotten n) k = absurd (no-IsDeletion n)
    Change-Keeps none (bound d b n owned) k = absurd (cc)
    Change-Keeps none (moved d uid l) k = absurd (cc)
    Change-Keeps none (torn d uid l) k = absurd (cc)
    Change-Keeps (some d0) (bound d b n owned) k = k
    Change-Keeps (some d0) (moved d uid l) (same, passes) = (same, leaves d uid passes same l)
    Change-Keeps (some d0) (torn d uid l) k = k

    History-Keeps :
        (o : Option (PolicyData K)) {p : Option (PolicyData K)}
        → History C name st o p
        → Keeps st o p
    History-Keeps none start = refl
    History-Keeps (some d) start = (refl, stays)
    History-Keeps o (after h c) = Change-Keeps o c (History-Keeps o h)

  -- Every step is a note of the policy, a deletion of it, or another.
  Step-kinds :
      {s s' : State C} (st : Step C s s')
      → ((sbp : StagedBindingPolicy K) × (e : Option (Failure C.Error)) × IsNoteOf C name st sbp
          × (sbp.metadata.name ≡ name)
          × (note_policy C sbp s ≡ done e s'))
        ⊎ ((lookup name s'.policies ≡ none) ⊎ IsOther C name st)
  unfolding delete_policy
  Step-kinds (policy sbp e h) = elim (str_eq.dec name sbp.metadata.name) [
    | yes p ↦ inl (sbp, e, (refl, sym p), sym p, h)
    | no n ↦ inr (inr n)
  ]
  Step-kinds {s} (deletion key h) = elim (str_eq.dec name key) [
    | yes p ↦ inr (inl (ground (arith, lookup-erase name key s.policies)))
    | no n ↦ inr (inr n)
  ]
  Step-kinds (binding b h) = inr (inr tt)
  Step-kinds (combined_status cs h) = inr (inr tt)
  Step-kinds (outside h) = inr (inr tt)

module _ {K : Kinds} (C : Cluster K) (ranges : RangesAll C) (name : Str) where
  other-Keeps :
      {t u : State C} (st : Step C t u) (o p : Option (PolicyData K))
      → IsOther C name st
      → lookup name t.policies ≡ o
      → lookup name u.policies ≡ p
      → Keeps C name st o p
  other-Keeps {t} st o p other e f =
      subst (λ x. Keeps C name st x p) e
        (subst (λ x. Keeps C name st (lookup name t.policies) x) f
          (History-Keeps C name st other _ (Step-History C ranges name st)))

module _ {K : Kinds} (C : Cluster K) (name : Str) {s : State C} where
  -- The run has led the policy to this entry: it has the stages of a noted object, and has climbed to its
  -- active index since that note.
  abbrev pub HasClimbed : (t : State C) → Reach C s t → PolicyData K → Type 0
  HasClimbed t r d =
      (sbp : StagedBindingPolicy K) × (d.stages ≡ sbp.spec.stages)
      × Climbed C name sbp t r d.active_index

  note-HasClimbed :
      (sbp : StagedBindingPolicy K) (e : Option (Failure C.Error)) {t u : State C} (r : Reach C s t)
      (st : Step C t u) (d : PolicyData K)
      → IsNoteOf C name st sbp
      → sbp.metadata.name ≡ name
      → note_policy C sbp t ≡ done e u
      → lookup name u.policies ≡ some d
      → HasClimbed u (next r st) d
  unfolding new_entry
  note-HasClimbed sbp e {t} {u} r st d n own q h =
      let entry = record (new_entry sbp) {
        active_binding_policy_uid = entry_uid (lookup sbp.metadata.name u.policies);
      } in
      let made : lookup name u.policies ≡ some entry =
        ap (λ x. lookup x u.policies) (sym own) ∙ note_policy-IsNew C sbp t u e q in
      let is : d ≡ entry = ground arith in
      (
        sbp,
        ap (λ (x : PolicyData K). x.stages) is,
        subst (λ i. Climbed C name sbp u (next r st) i)
            (ap (λ (x : PolicyData K). x.active_index) (sym is)) (at_note r st n),
      )

  module _ (ranges : RangesAll C) where
    -- No stage is skipped in any run of the resolver that begins where the policy is not tracked:
    -- if the run ends with an entry of the policy, there is a last note of it in the run, the entry
    -- has the stages of the object that was noted, and in the steps since then it has gone up to
    -- its active index from the stage that the object's status names, one by one, each stage being
    -- left by a step of the run that attempts the condition in a state in which the stage is
    -- fulfilled. Calls return, and `range` visits the elements of a set in some order.
    pub Reach-HasClimbed :
        lookup name s.policies ≡ none
        → {t : State C} (r : Reach C s t) (d : PolicyData K) → lookup name t.policies ≡ some d
        → HasClimbed t r d
    Reach-HasClimbed fresh here d h = absurd (cc)
    Reach-HasClimbed fresh (next {t} {u} r st) d h = elim (Step-kinds C name st) [
      | inl (sbp, e, n, own, q) ↦ note-HasClimbed sbp e r st d n own q h
      | inr (inl gone) ↦ absurd (cc)
      | inr (inr other) ↦ elim (Option-cases (lookup name t.policies)) [
        | inl e ↦ let k = other-Keeps C ranges name st none (some d) other e h in absurd (cc)
        | inr (before, e) ↦
            let (same, passes) = other-Keeps C ranges name st (some before) (some d) other e h in
            let (sbp, stages, climbed) = Reach-HasClimbed fresh r before e in
            (
              sbp,
              same ∙ stages,
              by r st before.active_index d.active_index climbed other (
                  subst (λ x. Passes C name st x before.active_index d.active_index) stages passes),
            )
      ]
    ]
