-- ===== src/Resolver/Exclusive/Steps.antt =====
-- The steps of the resolver between two notes of a policy, as the policy's BindingPolicies see them.
use mathlib.Core.Path.{subst}
use kubestellar_workload_sta.Base.{
  ◌≡◌, ◌≢◌, refl, sym, ◌∙◌, ap, Bool, true, Option, none, some, Str, str_eq, arith,
}
use kubestellar_workload_sta.Base.Dict.{lookup, insert, lookup-insert, lookup-erase}
use kubestellar_workload_sta.Run.{done}
use kubestellar_workload_sta.Strings.{stage_name}
use kubestellar_workload_sta.Strings.StageName.{IsClean}
use kubestellar_workload_sta.Api.{Kinds, StagedBindingPolicy, Binding, BindingSpec}
use kubestellar_workload_sta.Cluster.{Cluster, Failure}
use kubestellar_workload_sta.Resolver.{PolicyData, State}
use kubestellar_workload_sta.Resolver.Condition.{attempt_condition}
use kubestellar_workload_sta.Resolver.Notes.{
  note_policy, note_binding, note_combined_status, delete_policy,
}
use kubestellar_workload_sta.Resolver.Fulfilled.{RangesAll}
use kubestellar_workload_sta.Resolver.Frame.{lookup-note_policy, lookup-attempt_condition}
use kubestellar_workload_sta.Resolver.Keeping.{note_binding-keeps, note_combined_status-keeps}
use kubestellar_workload_sta.Resolver.Exclusive.{
  IsApiServer, IsPlain, ArePlain, EntryIsPlain, AllPlain,
}
use kubestellar_workload_sta.Resolver.Exclusive.Attempts.{
  attempt_condition-AllPlain, attempt_condition_adds_none,
}
use kubestellar_workload_sta.Resolver.Exclusive.Alone.{
  IsAlone-less, IsAlone-of_eq, EntryIsAlone, attempt_condition-IsAlone,
}
use kubestellar_workload_sta.Resolver.Exclusive.Noted.{note_policy-AllPlain, note_policy_adds_none}

module _ {K : Kinds} (C : Cluster K) (lives : C.Server → Str → Bool) (name : Str) where
  -- A step between two notes of the policy: any method that returns, but for a note or a deletion of this
  -- policy, or a change of the cluster that makes none of the policy's BindingPolicies.
  pub data Roll : State C → State C → Type 0 where
    other_policy :
        {s s' : State C} (sbp : StagedBindingPolicy K) (e : Option (Failure C.Error))
        → name ≢ sbp.metadata.name
        → IsClean sbp.metadata.name
        → ArePlain sbp.spec.stages
        → note_policy C sbp s ≡ done e s'
        → Roll s s'
    other_deletion :
        {s s' : State C} (key : Str) → name ≢ key → delete_policy C key s ≡ done tt s' → Roll s s'
    any_binding : {s s' : State C} (b : Binding) → note_binding C b s ≡ done tt s' → Roll s s'
    any_combined_status :
        {s s' : State C} (cs : C.CombinedStatus)
        → note_combined_status C cs s ≡ done tt s'
        → Roll s s'
    elsewhere :
        {s s' : State C}
        → s'.policies ≡ s.policies
        → ((t : Str)
            → IsPlain t
            → lives s'.server (stage_name name t) ≡ true
            → lives s.server (stage_name name t) ≡ true)
        → Roll s s'

  pub data Rolls (s : State C) : State C → Type 0 where
    still : Rolls s s
    rolled : {t u : State C} → Rolls s t → Roll t u → Rolls s u

  abbrev pub IsRolling : State C → Type 0
  IsRolling s = AllPlain s × EntryIsAlone C lives name s

module _ {K : Kinds} {C : Cluster K} (ranges : RangesAll C) {lives : C.Server → Str → Bool}
    (api : IsApiServer C lives) (name : Str) (clean : IsClean name) where
  -- A step that leaves the policy's entry and makes none of its BindingPolicies.
  IsAlone-frame :
      (s s' : State C)
      → lookup name s'.policies ≡ lookup name s.policies
      → ((t : Str)
          → IsPlain t
          → lives s'.server (stage_name name t) ≡ true
          → lives s.server (stage_name name t) ≡ true)
      → EntryIsAlone C lives name s
      → EntryIsAlone C lives name s'
  IsAlone-frame s s' same less (d, found, a) =
      (d, same ∙ found, IsAlone-less C lives name d s.server s'.server less a)

  attempt_condition-IsRolling :
      (key : Str) (s s' : State C)
      → attempt_condition C key s ≡ done tt s'
      → IsRolling C lives name s
      → IsRolling C lives name s'
  attempt_condition-IsRolling key s s' e (plain, (d, found, a)) = (
    attempt_condition-AllPlain C ranges key s s' e plain,
    elim (str_eq.dec name key) [
      | yes p ↦
          let own : attempt_condition C name s ≡ done tt s' = rw p e in
          let entry : EntryIsPlain name (some d) = subst (EntryIsPlain name) found (plain name) in
          attempt_condition-IsAlone C ranges name s s' own api clean d entry.1 found a
      | no n ↦
          IsAlone-frame s s' (ground (arith, lookup-attempt_condition C name key s n))
            (λ t plain_t l.
              attempt_condition_adds_none C ranges key s s' e api name t plain n clean plain_t l)
            (d, found, a)
    ],
  )

  write_binding-IsRolling :
      (key : Str) (d : PolicyData K) (spec : BindingSpec) (s : State C)
      → lookup key s.policies ≡ some d
      → IsRolling C lives name s
      → IsRolling C lives name
          (record s { policies = insert key (record d { binding_spec = spec }) s.policies })
  write_binding-IsRolling key d spec s found (plain, (own, found_own, a)) =
      let d' = record d { binding_spec = spec } in
      let written = λ (j : Str). lookup-insert j key d' s.policies in
      (
        λ j. elim (str_eq.dec j key) [
          | yes p ↦
              let before : lookup j s.policies ≡ some d = rw p found in
              let after : lookup j (insert key d' s.policies) ≡ some d' =
                ground (arith, written j) in
              rw after (subst (EntryIsPlain j) before (plain j))
          | no n ↦
              let same : lookup j (insert key d' s.policies) ≡ lookup j s.policies =
                ground (arith, written j) in
              rw same (plain j)
        ],
        elim (str_eq.dec name key) [
          | yes p ↦
              let before : lookup name s.policies ≡ some d = rw p found in
              let same : own ≡ d = ground arith in
              (
                d',
                ground (arith, written name),
                IsAlone-of_eq C lives name own d' s.server
                    (ap (λ (x : PolicyData K). x.stages) (sym same))
                    (ap (λ (x : PolicyData K). x.active_index) (sym same)) a,
              )
          | no n ↦ (own, ground (arith, written name), a)
        ],
      )

  delete_policy-IsRolling :
      (key : Str) (s s' : State C)
      → name ≢ key
      → delete_policy C key s ≡ done tt s'
      → IsRolling C lives name s
      → IsRolling C lives name s'
  unfolding delete_policy
  delete_policy-IsRolling key s s' n h (plain, alone) =
      let erased = λ (j : Str). lookup-erase j key s.policies in
      (
        λ j. elim (str_eq.dec j key) [
          | yes p ↦ let gone : lookup j s'.policies ≡ none = ground (arith, erased j) in rw gone tt
          | no n ↦
              let same : lookup j s'.policies ≡ lookup j s.policies = ground (arith, erased j) in
              rw same (plain j)
        ],
        IsAlone-frame s s' (ground (arith, erased name)) (λ t plain_t l. ground arith) alone,
      )

  Roll-IsRolling :
      {s s' : State C}
      → Roll C lives name s s'
      → IsRolling C lives name s
      → IsRolling C lives name s'
  Roll-IsRolling {s} {s'} (other_policy sbp e n clean' stages h) (plain, alone) = (
    note_policy-AllPlain C sbp s s' e h clean' stages plain,
    IsAlone-frame s s' (ground (arith, lookup-note_policy C name sbp s n))
        (λ t plain_t l.
          note_policy_adds_none C sbp s s' e h api name t clean' stages n clean plain_t l)
        alone,
  )
  Roll-IsRolling {s} {s'} (other_deletion key n h) r = delete_policy-IsRolling key s s' n h r
  Roll-IsRolling {s} {s'} (any_binding b h) r =
      note_binding-keeps C (IsRolling C lives name) attempt_condition-IsRolling b
        (λ key d t found _ i. write_binding-IsRolling key d b.spec t found i) s s' h r
  Roll-IsRolling {s} {s'} (any_combined_status cs h) r =
      note_combined_status-keeps C (IsRolling C lives name) attempt_condition-IsRolling cs s s' h r
  Roll-IsRolling {s} {s'} (elsewhere h less) (plain, alone) =
      (λ j. rw h (plain j), IsAlone-frame s s' (rw h refl) less alone)

  pub Rolls-IsRolling :
      {s s' : State C}
      → Rolls C lives name s s'
      → IsRolling C lives name s
      → IsRolling C lives name s'
  Rolls-IsRolling still r = r
  Rolls-IsRolling (rolled rs st) r = Roll-IsRolling st (Rolls-IsRolling rs r)
