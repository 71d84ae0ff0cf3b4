-- ===== src/Resolver/Frame.antt =====
-- The resolver's work on one policy leaves the entries of the others alone, whether it returns or panics.
use kubestellar_workload_sta.Base.{◌≡◌, ◌≢◌, Str, str_eq, arith, ℕ}
use kubestellar_workload_sta.Base.Dict.{lookup, lookup-insert}
use kubestellar_workload_sta.Run.{Action, final}
use kubestellar_workload_sta.Api.{Kinds, StagedBindingPolicy}
use kubestellar_workload_sta.Cluster.{Cluster}
use kubestellar_workload_sta.Resolver.{PolicyData, State}
use kubestellar_workload_sta.Resolver.Ensure.{
  delete_previous, create_active, update_status, ensure_active_stage, revert, advance, stage_up,
}
use kubestellar_workload_sta.Resolver.Condition.{attempt_condition, attempt_stage}
use kubestellar_workload_sta.Resolver.Notes.{note_policy}

module _ {K : Kinds} (C : Cluster K) (name j : Str) (other : j ≢ name) where
  -- The entry of `j` after the action is the one before it.
  abbrev Frames : {A : Type 0} → Action (State C) A → Type 0
  Frames m = (s : State C) → lookup j (final (m s)).policies ≡ lookup j s.policies

  update_status-Frames : (i : ℕ) → Frames (update_status C name i)
  unfolding update_status
  update_status-Frames i s = ground arith

  delete_previous-Frames : (d : PolicyData K) → Frames (delete_previous C name d)
  unfolding delete_previous
  delete_previous-Frames d s = ground arith

  create_active-Frames : (d : PolicyData K) → Frames (create_active C name d)
  unfolding create_active
  create_active-Frames d s = grind (arith, lookup-insert, update_status-Frames)

  ensure-Frames : (d : PolicyData K) → Frames (ensure_active_stage C name d)
  unfolding ensure_active_stage
  ensure-Frames d s = grind (arith, delete_previous-Frames, create_active-Frames)

  revert-Frames : Frames (revert C name)
  unfolding revert
  revert-Frames s = grind (arith, lookup-insert)

  advance-Frames : (d : PolicyData K) → Frames (advance C name d)
  unfolding advance
  advance-Frames d s = grind (arith, lookup-insert, ensure-Frames, revert-Frames)

  stage_up-Frames : Frames (stage_up C name)
  unfolding stage_up
  stage_up-Frames s = grind (arith, advance-Frames)

  attempt_condition-Frames : Frames (attempt_condition C name)
  unfolding attempt_condition attempt_stage
  attempt_condition-Frames s = ground (arith, stage_up-Frames s)

module _ {K : Kinds} (C : Cluster K) (j : Str) where
  -- An attempt at the condition of one policy leaves the entry of every other as it was, whether it
  -- returns or panics.
  pub lookup-attempt_condition :
      (name : Str) (s : State C)
      → j ≢ name
      → lookup j (final (attempt_condition C name s)).policies ≡ lookup j s.policies
  lookup-attempt_condition name s other = attempt_condition-Frames C name j other s

  -- Noting a StagedBindingPolicy leaves the entry of every other as it was, whether it returns or
  -- panics.
  pub lookup-note_policy :
      (sbp : StagedBindingPolicy K) (s : State C)
      → j ≢ sbp.metadata.name
      → lookup j (final (note_policy C sbp s)).policies ≡ lookup j s.policies
  unfolding note_policy
  lookup-note_policy sbp s other = grind (
    arith,
    lookup-insert,
    ensure-Frames C sbp.metadata.name j other,
    attempt_condition-Frames C sbp.metadata.name j other,
  )
