-- ===== src/Resolver/Exclusive/Noted.antt =====
-- What a note of a policy does to the BindingPolicies that live.
use kubestellar_workload_sta.Base.{
  ◌<◌, ◌≡◌, ◌≢◌, ◌⊎◌, inl, inr, ◌∙◌, ap, Bool, true, Option, Str, str_eq, arith, length,
  get_elem?-some,
}
use kubestellar_workload_sta.Base.Dict.{lookup, insert, lookup-insert}
use kubestellar_workload_sta.Run.{done}
use kubestellar_workload_sta.Strings.{stage_name}
use kubestellar_workload_sta.Strings.StageName.{IsClean}
use kubestellar_workload_sta.Api.{Kinds, Stage, StagedBindingPolicy}
use kubestellar_workload_sta.Cluster.{Cluster, Failure}
use kubestellar_workload_sta.Resolver.{State}
use kubestellar_workload_sta.Resolver.Ensure.{ensure_active_stage}
use kubestellar_workload_sta.Resolver.Notes.{new_entry, note_policy}
use kubestellar_workload_sta.Resolver.NoteBounds.{new_entry-InRange, ensure_nonempty}
use kubestellar_workload_sta.Resolver.Frame.{lookup-note_policy}
use kubestellar_workload_sta.Resolver.History.Noted.{
  entry_uid, ensure-IsNew, attempt_condition_of_IsNew, note_policy-IsNew,
}
use kubestellar_workload_sta.Resolver.Exclusive.{
  IsApiServer, IsPlain, ArePlain, ArePlain-get_elem?, stage_name-injective, AllPlain,
}
use kubestellar_workload_sta.Resolver.Exclusive.Calls.{IsActive, ensure_adds_one}
use kubestellar_workload_sta.Resolver.Exclusive.Alone.{EntryIsAlone}

module _ {K : Kinds} (C : Cluster K) (sbp : StagedBindingPolicy K) (s s' : State C)
    (e : Option (Failure C.Error)) (h : note_policy C sbp s ≡ done e s') where
  -- After a note the attempt does nothing, so the note ends where the stage is ensured.
  pub note_policy-ensured :
      ensure_active_stage C sbp.metadata.name
        (new_entry sbp)
        (record s { policies = insert sbp.metadata.name (new_entry sbp) s.policies })
      ≡ done e s'
  unfolding note_policy
  note_policy-ensured =
      let s1 : State C = record s {
        policies = insert sbp.metadata.name (new_entry sbp) s.policies;
      } in
      let found = lookup-insert sbp.metadata.name sbp.metadata.name (new_entry sbp) s.policies in
      grind (arith, found, ensure-IsNew C sbp s1, attempt_condition_of_IsNew C sbp)

  pub note_policy-AllPlain :
      IsClean sbp.metadata.name → ArePlain sbp.spec.stages → AllPlain s → AllPlain s'
  unfolding new_entry
  note_policy-AllPlain clean stages plain j = elim (str_eq.dec j sbp.metadata.name) [
    | no n ↦
        let same : lookup j s'.policies ≡ lookup j s.policies =
          ground (arith, lookup-note_policy C j sbp s n) in
        rw same (plain j)
    | yes p ↦ rw p (rw (note_policy-IsNew C sbp s s' e h) (clean, stages))
  ]

  module _ {lives : C.Server → Str → Bool} (api : IsApiServer C lives) where
    -- What lives after a note is the BindingPolicy of the stage that the note makes active, or lived before.
    note_policy_adds_one :
        (m : Str)
        → lives s'.server m ≡ true
        → IsActive api sbp.metadata.name m (new_entry sbp) ⊎ (lives s.server m ≡ true)
    note_policy_adds_one m l =
        let s1 : State C = record s {
          policies = insert sbp.metadata.name (new_entry sbp) s.policies;
        } in
        ground
          (arith, note_policy-ensured, ensure_adds_one api sbp.metadata.name m (new_entry sbp) s1)

    -- A note of another policy makes none of this policy's BindingPolicies.
    pub note_policy_adds_none :
        (name t : Str)
        → IsClean sbp.metadata.name
        → ArePlain sbp.spec.stages
        → name ≢ sbp.metadata.name
        → IsClean name
        → IsPlain t
        → lives s'.server (stage_name name t) ≡ true
        → lives s.server (stage_name name t) ≡ true
    unfolding new_entry
    note_policy_adds_none name t clean' stages other clean plain l =
        elim (note_policy_adds_one (stage_name name t) l) [
          | inr before ↦ before
          | inl (stage, at, same) ↦ absurd (
              other
                (stage_name-injective name sbp.metadata.name t stage.name clean plain clean'
                  (ArePlain-get_elem? sbp.spec.stages (new_entry sbp).active_index stages at)
                  same).0)
        ]

    -- After a note of the policy only its active stage's BindingPolicy lives, where none did before.
    pub note_policy-IsAlone :
        IsClean sbp.metadata.name
        → ArePlain sbp.spec.stages
        → ((t : Str) → IsPlain t → lives s.server (stage_name sbp.metadata.name t) ≢ true)
        → EntryIsAlone C lives sbp.metadata.name s'
    unfolding new_entry
    note_policy-IsAlone clean stages none_lives =
        let name = sbp.metadata.name in
        let d = new_entry sbp in
        let s1 : State C = record s { policies = insert name d s.policies } in
        let nonempty = ensure_nonempty C name d s1 in
        let below : d.active_index < length d.stages =
          ground (arith, note_policy-ensured, new_entry-InRange sbp, nonempty) in
        let (stage, at) = get_elem?-some d.stages d.active_index below in
        let noted = record d { active_binding_policy_uid = entry_uid (lookup name s'.policies) } in
        (
          noted,
          note_policy-IsNew C sbp s s' e h,
          record {
            stage = stage;
            place = inl at;
            alone = λ t plain l. elim (note_policy_adds_one (stage_name name t) l) [
              | inr before ↦ absurd (none_lives t plain before)
              | inl (active, at', same) ↦
                  let e : active ≡ stage = ground arith in
                  (stage_name-injective name name t active.name clean plain clean
                    (ArePlain-get_elem? d.stages d.active_index stages at') same).1
                  ∙ ap (λ (st : Stage K). st.name) e
            ];
          },
        )
