-- ===== src/Resolver/Exclusive/Runs.antt =====
-- A policy has at most one BindingPolicy that lives while it is rolled out.
use kubestellar_workload_sta.Base.{
  ◌+◌, ◌≡◌, ◌≢◌, ◌⊎◌, sym, ◌∙◌, Bool, true, Option, some, Str, str_eq, get_elem?,
}
use kubestellar_workload_sta.Base.Dict.{lookup}
use kubestellar_workload_sta.Run.{done}
use kubestellar_workload_sta.Strings.{stage_name}
use kubestellar_workload_sta.Strings.StageName.{IsClean}
use kubestellar_workload_sta.Api.{Kinds, Stage, StagedBindingPolicy}
use kubestellar_workload_sta.Cluster.{Cluster, Failure}
use kubestellar_workload_sta.Resolver.{PolicyData, State}
use kubestellar_workload_sta.Resolver.Notes.{note_policy}
use kubestellar_workload_sta.Resolver.Fulfilled.{RangesAll}
use kubestellar_workload_sta.Resolver.Exclusive.{IsApiServer, IsPlain, ArePlain, AllPlain}
use kubestellar_workload_sta.Resolver.Exclusive.Noted.{note_policy-AllPlain, note_policy-IsAlone}
use kubestellar_workload_sta.Resolver.Exclusive.Steps.{Rolls, Rolls-IsRolling}

module _ {K : Kinds} (C : Cluster K) (ranges : RangesAll C) {lives : C.Server → Str → Bool}
    (api : IsApiServer C lives) where
  -- At most one BindingPolicy of a policy lives from a note of the policy on, in a state where none
  -- of its BindingPolicies lives, as at the policy's first note, up to the next note or deletion of
  -- the policy: through any other steps of the resolver, and any changes of the cluster that make
  -- none of its BindingPolicies, two that live are the same, and it is that of the active stage of
  -- the policy's entry or of the stage after it. No name of a policy, with a dot added, and no name
  -- of a stage has ".stage." in it. Calls return, `range` visits the elements of a set in some
  -- order, and the API server's calls make only the BindingPolicy that is created, and leave none
  -- where a deletion succeeds or finds nothing.
  pub live_alone :
      (sbp : StagedBindingPolicy K) (s noted s' : State C) (e : Option (Failure C.Error))
      → IsClean sbp.metadata.name
      → ArePlain sbp.spec.stages
      → AllPlain s
      → ((t : Str) → IsPlain t → lives s.server (stage_name sbp.metadata.name t) ≢ true)
      → note_policy C sbp s ≡ done e noted
      → Rolls C lives sbp.metadata.name noted s'
      → (t u : Str) → IsPlain t
      → IsPlain u
      → lives s'.server (stage_name sbp.metadata.name t) ≡ true
      → lives s'.server (stage_name sbp.metadata.name u) ≡ true
      → (t ≡ u)
        × ((d : PolicyData K) × (stage : Stage K) × (lookup sbp.metadata.name s'.policies ≡ some d)
            × ((get_elem? d.stages d.active_index ≡ some stage)
                ⊎ (get_elem? d.stages (d.active_index + 1) ≡ some stage))
            × (t ≡ stage.name))
  live_alone sbp s noted s' e clean stages plain none_lives h rolls t u plain_t plain_u l l' =
      let name = sbp.metadata.name in
      let (_, alone) = Rolls-IsRolling ranges api name clean rolls (
        note_policy-AllPlain C sbp s noted e h clean stages plain,
        note_policy-IsAlone C sbp s noted e h api clean stages none_lives,
      ) in
      let (d, found, a) = alone in
      let is_t = a.alone t plain_t l in
      (is_t ∙ sym (a.alone u plain_u l'), (d, a.stage, found, a.place, is_t))
