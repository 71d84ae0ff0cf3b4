-- ===== src/Resolver/Keeping.antt =====
-- A property of states that attempts at conditions keep is kept by the methods that make them.
use kubestellar_workload_sta.Base.{
  ◌≡◌, inl, inr, some, List, [], ◌∷◌, Str, str_eq, ◌==◌, if◌then◌else◌, arith,
}
use kubestellar_workload_sta.Base.Dict.{lookup, insert}
use kubestellar_workload_sta.Run.{done, pure, >>-eq_done}
use kubestellar_workload_sta.Api.{Kinds, Binding}
use kubestellar_workload_sta.Cluster.{Cluster}
use kubestellar_workload_sta.Resolver.{PolicyData, State}
use kubestellar_workload_sta.Resolver.Condition.{attempt_condition}
use kubestellar_workload_sta.Resolver.Notes.{
  note_binding, note_combined_status, attempt_matching, first_owner_uid,
}
use kubestellar_workload_sta.Resolver.History.Methods.{
  note_binding-eq_done, note_combined_status-eq_done,
}

module _ {K : Kinds} (C : Cluster K) (Inv : State C → Type 0)
    (attempts : (key : Str) (s s' : State C)
      → attempt_condition C key s ≡ done tt s'
      → Inv s
      → Inv s') where
  pub note_binding-keeps :
      (b : Binding)
      → ((key : Str) (d : PolicyData K) (s : State C)
          → lookup key s.policies ≡ some d
          → d.active_binding_policy_uid ≡ first_owner_uid b.metadata.owner_references
          → Inv s
          → Inv
              (record s { policies = insert key (record d { binding_spec = b.spec }) s.policies }))
      → (s s' : State C) → note_binding C b s ≡ done tt s'
      → Inv s
      → Inv s'
  note_binding-keeps b writes s s' h i = elim (note_binding-eq_done C b s s' h) [
    | inl same ↦ rw same i
    | inr (key, d, _, found, owned, e) ↦ attempts key _ s' e (writes key d s found owned i)
  ]

  attempt_matching-keeps :
      (key : Str) (ks : List Str) (s s' : State C)
      → attempt_matching C key ks s ≡ done tt s'
      → Inv s
      → Inv s'
  unfolding attempt_matching
  attempt_matching-keeps key [] s s' h i = let same : s' ≡ s = ground arith in rw same i
  attempt_matching-keeps key (k ∷ ks) s s' h i =
      let (t, e, rest) =
        >>-eq_done (if k == key then attempt_condition C k else pure tt) (attempt_matching C key ks)
          s s' tt h in
      attempt_matching-keeps key ks t s' rest (elim (str_eq.dec k key) [
        | yes p ↦ attempts k s t (ground arith) i
        | no n ↦ let same : t ≡ s = ground arith in rw same i
      ])

  pub note_combined_status-keeps :
      (cs : C.CombinedStatus) (s s' : State C)
      → note_combined_status C cs s ≡ done tt s'
      → Inv s
      → Inv s'
  note_combined_status-keeps cs s s' h i = elim (note_combined_status-eq_done C cs s s' h) [
    | inl same ↦ rw same i
    | inr (key, _, e) ↦ attempt_matching-keeps key _ s s' e i
  ]
