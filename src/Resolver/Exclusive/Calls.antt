-- ===== src/Resolver/Exclusive/Calls.antt =====
-- What the calls of one step do to the BindingPolicies that live.
use kubestellar_workload_sta.Base.{
  ℕ, ◌≡◌, ◌≢◌, ◌⊎◌, inl, inr, Bool, true, none, some, Str, get_elem?, str_eq, arith, Option-cases,
}
use kubestellar_workload_sta.Base.Dict.{insert}
use kubestellar_workload_sta.Run.{Ensures, Ensures-bind, Ensures-mono, pure}
use kubestellar_workload_sta.Strings.{stage_name}
use kubestellar_workload_sta.Api.{Kinds, Stage, StagedBindingPolicy}
use kubestellar_workload_sta.Cluster.{Cluster, Result-cases}
use kubestellar_workload_sta.Resolver.{PolicyData, State}
use kubestellar_workload_sta.Resolver.Ensure.{
  binding_policy, delete_failure, delete_previous, create_active, update_status,
  ensure_active_stage,
}
use kubestellar_workload_sta.Resolver.Staging.{Outcome, kept, rollout}
use kubestellar_workload_sta.Resolver.Exclusive.{IsApiServer}

module _ {K : Kinds} {C : Cluster K} {lives : C.Server → Str → Bool} (api : IsApiServer C lives)
    (name : Str) (d : PolicyData K) where
  -- The BindingPolicies that live after the calls of a step. If the deletion failed, they lived before, and the
  -- entry is kept. Else the previous stage's is gone, and each is the next stage's or another that lived
  -- before, whatever the creation has returned.
  abbrev pub Effect : Stage K → Stage K → C.Server → Outcome → C.Server → Type 0
  Effect previous next before outcome after =
      ((outcome ≡ kept) × ((m : Str) → lives after m ≡ true → lives before m ≡ true))
      ⊎ ((m : Str)
          → lives after m ≡ true
          → (m ≡ stage_name name next.name)
            ⊎ ((lives before m ≡ true) × (m ≢ stage_name name previous.name)))

  rollout_made :
      (previous next : Stage K) (m : Str) (server : C.Server)
      → delete_failure C (C.delete_binding_policy (stage_name name previous.name) server).0 ≡ none
      → lives (rollout C name d previous next server).1 m ≡ true
      → (m ≡ stage_name name next.name)
        ⊎ ((lives server m ≡ true) × (m ≢ stage_name name previous.name))
  unfolding rollout binding_policy
  rollout_made previous next m server deleted h =
      let n = stage_name name previous.name in
      let s1 = (C.delete_binding_policy n server).1 in
      let p = binding_policy name d next in
      let s2 = (C.create_binding_policy p s1).1 in
      let s3 = (C.get_policy name s2).1 in
      let gone = api.deleted n server deleted in
      let less = api.delete_adds_none n m server in
      let one = api.create_adds_one p m s1 in
      let same = api.get_adds_none name m s2 in
      elim (Result-cases (C.create_binding_policy p s1).0) [
        | inl (e, q) ↦ ground (arith, gone, less, one)
        | inr (uid, q) ↦ elim (Result-cases (C.get_policy name s2).0) [
          | inl (e, g) ↦ ground (arith, gone, less, one, same)
          | inr (sbp, g) ↦
              let updated = record sbp { status = record { active_stage = next.name } } in
              ground (arith, gone, less, one, same, api.update_adds_none updated m s3)
        ]
      ]

  pub rollout-Effect :
      (previous next : Stage K) (server : C.Server)
      → Effect previous next server
          (rollout C name d previous next server).0
          (rollout C name d previous next server).1
  unfolding rollout
  rollout-Effect previous next server =
      let n = stage_name name previous.name in
      elim (Option-cases (delete_failure C (C.delete_binding_policy n server).0)) [
        | inl q ↦ inr (λ m. rollout_made previous next m server q)
        | inr (f, q) ↦ inl (ground arith, λ m l. ground (arith, api.delete_adds_none n m server))
      ]

module _ {K : Kinds} {C : Cluster K} {lives : C.Server → Str → Bool} (api : IsApiServer C lives)
    (name m : Str) where
  update_status_adds_none :
      (i : ℕ) (s : State C)
      → Ensures
          (update_status C name i s)
          (λ e s'. lives s'.server m ≡ true → lives s.server m ≡ true)
  unfolding update_status
  update_status_adds_none i s = grind (
    arith,
    api.get_adds_none name m s.server,
    λ (sbp : StagedBindingPolicy K) (s' : C.Server). api.update_adds_none sbp m s',
  )

  delete_previous_adds_none :
      (d : PolicyData K) (s : State C)
      → Ensures
          (delete_previous C name d s)
          (λ e s'. lives s'.server m ≡ true → lives s.server m ≡ true)
  unfolding delete_previous
  delete_previous_adds_none d s = grind (arith, λ (n : Str). api.delete_adds_none n m s.server)

  -- `m` is the BindingPolicy of the entry's active stage.
  abbrev pub IsActive : PolicyData K → Type 0
  IsActive d =
      (stage : Stage K) × (get_elem? d.stages d.active_index ≡ some stage)
      × (m ≡ stage_name name stage.name)

  create_active_adds_one :
      (d : PolicyData K) (s : State C)
      → Ensures
          (create_active C name d s)
          (λ e s'. lives s'.server m ≡ true → IsActive d ⊎ (lives s.server m ≡ true))
  unfolding create_active binding_policy
  create_active_adds_one d s = elim (Option-cases (get_elem? d.stages d.active_index)) [
    | inl e ↦ ground arith
    | inr (stage, e) ↦
        let p = binding_policy name d stage in
        let server = (C.create_binding_policy p s.server).1 in
        elim (Result-cases (C.create_binding_policy p s.server).0) [
          | inl (x, q) ↦ ground (arith, api.create_adds_one p m s.server)
          | inr (uid, q) ↦
              let s1 : State C = record {
                policies = insert name (record d { active_binding_policy_uid = uid }) s.policies;
                server = server;
              } in
              ground
                (arith, api.create_adds_one p m s.server, update_status_adds_none d.active_index s1)
        ]
  ]

  pub ensure_adds_one :
      (d : PolicyData K) (s : State C)
      → Ensures
          (ensure_active_stage C name d s)
          (λ e s'. lives s'.server m ≡ true → IsActive d ⊎ (lives s.server m ≡ true))
  unfolding ensure_active_stage
  ensure_adds_one d s =
      Ensures-bind (λ e s'. lives s'.server m ≡ true → lives s.server m ≡ true)
        (λ e s'. lives s'.server m ≡ true → IsActive d ⊎ (lives s.server m ≡ true))
        (delete_previous C name d)
        (λ e. elim e [ some f ↦ pure (some f) | none ↦ create_active C name d ]) s
        (delete_previous_adds_none d s)
        (elim [
          | none ↦ λ s' kept.
              Ensures-mono (create_active C name d s') (create_active_adds_one d s')
                (λ e t after now. elim (after now) [ inl a ↦ inl a | inr l ↦ inr (kept l) ])
          | some f ↦ λ s' kept now. inr (kept now)
        ])
