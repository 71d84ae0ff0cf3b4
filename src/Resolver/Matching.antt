-- ===== src/Resolver/Matching.antt =====
-- Which policy a noted combined status is for, by its label.
use kubestellar_workload_sta.Base.{
  ◌≡◌, ◌≢◌, refl, some, false, List, [], ◌∷◌, ◌++◌, Str, In, inl, inr, str_eq, arith,
}
use kubestellar_workload_sta.Base.Dict.{lookup}
use kubestellar_workload_sta.Run.{Run, done, panicked, Action, ◌>>◌}
use kubestellar_workload_sta.Strings.{contains, stage_name, stage_separator}
use kubestellar_workload_sta.Strings.StageName.{IsClean, split-stage_name}
use kubestellar_workload_sta.Api.{Kinds}
use kubestellar_workload_sta.Cluster.{Cluster}
use kubestellar_workload_sta.Resolver.{State}
use kubestellar_workload_sta.Resolver.Condition.{attempt_condition, label_binding_policy}
use kubestellar_workload_sta.Resolver.Notes.{note_combined_status, attempt_matching, keys}

stage_name_ne : (name stage : Str) → stage_name name stage ≢ []
stage_name_ne [] stage e = ground arith
stage_name_ne (c ∷ name) stage e = ground arith

-- A second step that leaves every state as it is changes nothing.
>>-done :
    {S : Type 0} (m k : Action S (Unit {0})) (s : S)
    → ((s' : S) → k s' ≡ done tt s')
    → (m >> k) s ≡ m s
>>-done {S} m k s h = go (m s)
  where
    go : (r : Run S (Unit {0})) → elim r [ done a s' ↦ k s' | panicked p s' ↦ panicked p s' ] ≡ r
    go (done a s') = h s'
    go (panicked p s') = refl

module _ {K : Kinds} (C : Cluster K) (name : Str) where
  attempt_matching_absent :
      (ks : List Str) (s : State C) → ¬ (In name ks) → attempt_matching C name ks s ≡ done tt s
  unfolding attempt_matching
  attempt_matching_absent [] s h = refl
  attempt_matching_absent (k ∷ ks) s h =
      ground (arith, attempt_matching_absent ks s (λ i. h (inr i)), λ (e : name ≡ k). h (inl e))

  attempt_matching_once :
      (before after : List Str) (s : State C)
      → ¬ (In name before)
      → ¬ (In name after)
      → attempt_matching C name (before ++ name ∷ after) s ≡ attempt_condition C name s
  unfolding attempt_matching
  attempt_matching_once [] after s b a = ground (
    arith,
    >>-done (attempt_condition C name) (attempt_matching C name after) s
        (λ s'. attempt_matching_absent after s' a),
  )
  attempt_matching_once (k ∷ before) after s b a =
      ground (
        arith,
        attempt_matching_once before after s (λ i. b (inr i)) a,
        λ (e : name ≡ k). b (inl e),
      )

  module _ (stage : Str) (cs : C.CombinedStatus) (s : State C) where
    -- A combined status that is labelled with the name of a stage's BindingPolicy attempts the condition of
    -- the policy that the name was built from, once, and no other's, where `range` visits that policy's key
    -- once. The policy's name with a dot, and the stage's name, do not contain ".stage.".
    pub note_combined_status-stage_name :
        (before after : List Str)
        → IsClean name
        → contains stage stage_separator ≡ false
        → lookup label_binding_policy (C.status_labels cs) ≡ some (stage_name name stage)
        → C.range_names (keys C s.policies) ≡ before ++ name ∷ after
        → ¬ (In name before)
        → ¬ (In name after)
        → note_combined_status C cs s ≡ attempt_condition C name s
    unfolding note_combined_status
    note_combined_status-stage_name before after clean plain e r b a = ground (
      arith,
      split-stage_name name stage clean plain,
      stage_name_ne name stage,
      attempt_matching_once before after s b a,
    )
