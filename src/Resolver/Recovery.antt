-- ===== src/Resolver/Recovery.antt =====
-- `NoteStagedBindingPolicy`: which stage it takes for the active one, and what it leaves where the
-- BindingPolicy of that stage cannot be created.
use kubestellar_workload_sta.Base.{
  ℕ, zero, suc, ◌+◌, ◌<◌, ◌≡◌, ◌≢◌, refl, inl, inr, some, List, [], ◌∷◌, Str, str_eq, get_elem?,
  arith, In,
}
use kubestellar_workload_sta.Base.Dict.{lookup, insert, lookup-insert}
use kubestellar_workload_sta.Run.{done}
use kubestellar_workload_sta.Api.{Kinds, Stage, StagedBindingPolicy}
use kubestellar_workload_sta.Cluster.{Cluster, err, external}
use kubestellar_workload_sta.Resolver.{State}
use kubestellar_workload_sta.Resolver.Idle.{IsIdle}
use kubestellar_workload_sta.Resolver.Ensure.{
  binding_policy, ensure_active_stage, delete_previous, create_active,
}
use kubestellar_workload_sta.Resolver.Notes.{find_stage, active_stage_index, new_entry, note_policy}

-- No stage before index `k` has the name.
abbrev IsFirst : {K : Kinds} → Str → ℕ → List (Stage K) → Type 0
IsFirst {K} name k stages =
    (j : ℕ) (other : Stage K) → j < k → get_elem? stages j ≡ some other → other.name ≢ name

find_stage_first :
    {K : Kinds} (i k : ℕ) (stages : List (Stage K)) (stage : Stage K)
    → get_elem? stages k ≡ some stage
    → IsFirst stage.name k stages
    → find_stage stage.name i stages ≡ i + k
unfolding find_stage
find_stage_first i k [] stage h first = absurd (ground arith)
find_stage_first i zero (x ∷ stages) stage h first = ground arith
find_stage_first i (suc k) (x ∷ stages) stage h first = ground (
  arith,
  first 0 x,
  find_stage_first (suc i) k stages stage h (λ j other l. first (suc j) other (omega arith)),
)

find_stage_absent :
    {K : Kinds} (name : Str) (i : ℕ) (stages : List (Stage K))
    → ((stage : Stage K) → In stage stages → stage.name ≢ name)
    → find_stage name i stages ≡ 0
unfolding find_stage
find_stage_absent name i [] h = refl
find_stage_absent name i (x ∷ stages) h =
    ground
      (arith, h x (inl refl), find_stage_absent name (suc i) stages (λ stage m. h stage (inr m)))

-- If the status names the stage at index `k`, whose name is not empty and which no earlier stage
-- has, then `NoteStagedBindingPolicy` takes `k` for the active index, whatever else the object holds.
pub new_entry-first :
    {K : Kinds} (sbp : StagedBindingPolicy K) (k : ℕ) (stage : Stage K)
    → get_elem? sbp.spec.stages k ≡ some stage
    → stage.name ≢ []
    → IsFirst stage.name k sbp.spec.stages
    → (new_entry (record sbp { status = record { active_stage = stage.name } })).active_index ≡ k
unfolding new_entry active_stage_index
new_entry-first sbp k stage h n first =
    ground (arith, find_stage_first 0 k sbp.spec.stages stage h first)

-- If the status names no stage of the policy, the first stage is taken for the active one.
new_entry_absent :
    {K : Kinds} (sbp : StagedBindingPolicy K)
    → ((stage : Stage K) → In stage sbp.spec.stages → stage.name ≢ sbp.status.active_stage)
    → (new_entry sbp).active_index ≡ 0
unfolding new_entry active_stage_index
new_entry_absent sbp h =
    ground (arith, find_stage_absent sbp.status.active_stage 0 sbp.spec.stages h)

module _ {K : Kinds} (C : Cluster K) (sbp : StagedBindingPolicy K) (stage : Stage K) (e : C.Error)
    (s : State C) where
  note_policy-eq_refused :
      active_stage_index sbp ≡ 0
      → get_elem? sbp.spec.stages 0 ≡ some stage
      → (C.create_binding_policy
          (binding_policy sbp.metadata.name (new_entry sbp) stage)
          s.server).0
        ≡ err e
      → note_policy C sbp s
        ≡ done (some (external e)) (record {
          policies = insert sbp.metadata.name (new_entry sbp) s.policies;
          server =
              (C.create_binding_policy
                (binding_policy sbp.metadata.name (new_entry sbp) stage)
                s.server).1;
        })
  unfolding note_policy ensure_active_stage delete_previous create_active new_entry
  note_policy-eq_refused i h c = ground arith

  -- A policy at its first stage whose BindingPolicy the API server refuses to create, as it does where
  -- one of that name exists: the method returns the server's error, and the policy is tracked by an
  -- idle entry, with no active BindingPolicy, whatever entry it had before.
  note_policy_refused :
      active_stage_index sbp ≡ 0
      → get_elem? sbp.spec.stages 0 ≡ some stage
      → (C.create_binding_policy
          (binding_policy sbp.metadata.name (new_entry sbp) stage)
          s.server).0
        ≡ err e
      → (s' : State C) × (note_policy C sbp s ≡ done (some (external e)) s')
        × (lookup sbp.metadata.name s'.policies ≡ some (new_entry sbp))
        × IsIdle (new_entry sbp)
  unfolding new_entry
  note_policy_refused i h c = (
    _,
    note_policy-eq_refused i h c,
    ground (arith, lookup-insert sbp.metadata.name sbp.metadata.name (new_entry sbp) s.policies),
    record { no_uid = refl; unbound = refl },
  )
