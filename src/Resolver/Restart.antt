-- ===== src/Resolver/Restart.antt =====
-- Which stage a restart would take: the one that the policy's status at the API server names.
pub mod Stored
pub mod Attempted
pub mod Noted
pub mod Ensured
pub mod Resumed
use kubestellar_workload_sta.Base.{ℕ, ◌≡◌, ◌≢◌, Option, none, some, [], Str, get_elem?, List}
use kubestellar_workload_sta.Api.{Kinds, Stage, StagedBindingPolicy, BindingPolicy}
use kubestellar_workload_sta.Cluster.{Cluster, ok}

-- What the API server does to the StagedBindingPolicies that it stores. An update of the status changes
-- nothing else of the object; one that fails changes nothing; no other call does.
pub record IsStore {K : Kinds} (C : Cluster K)
    (stored : C.Server → Str → Option (StagedBindingPolicy K)) : Type 0 where
  pub named :
      (n : Str) (s : C.Server) (sbp : StagedBindingPolicy K)
      → stored s n ≡ some sbp
      → sbp.metadata.name ≡ n
  pub got :
      (n : Str) (s : C.Server) (sbp : StagedBindingPolicy K)
      → (C.get_policy n s).0 ≡ ok sbp
      → stored s n ≡ some sbp
  pub delete_keeps :
      (n m : Str) (s : C.Server) → stored (C.delete_binding_policy n s).1 m ≡ stored s m
  pub create_keeps :
      (p : BindingPolicy K) (m : Str) (s : C.Server)
      → stored (C.create_binding_policy p s).1 m ≡ stored s m
  pub get_keeps : (n m : Str) (s : C.Server) → stored (C.get_policy n s).1 m ≡ stored s m
  pub updated :
      (sbp old : StagedBindingPolicy K) (s : C.Server)
      → stored s sbp.metadata.name ≡ some old
      → (C.update_policy_status sbp s).0 ≡ none
      → stored (C.update_policy_status sbp s).1 sbp.metadata.name
        ≡ some (record old { status = sbp.status })
  pub refused_keeps :
      (sbp : StagedBindingPolicy K) (m : Str) (s : C.Server) (e : C.Error)
      → (C.update_policy_status sbp s).0 ≡ some e
      → stored (C.update_policy_status sbp s).1 m ≡ stored s m
  pub update_keeps :
      (sbp : StagedBindingPolicy K) (m : Str) (s : C.Server)
      → m ≢ sbp.metadata.name
      → stored (C.update_policy_status sbp s).1 m ≡ stored s m

-- The stages have names, each another.
pub record AreNamed {K : Kinds} (stages : List (Stage K)) : Type 0 where
  pub nonempty : (k : ℕ) (stage : Stage K) → get_elem? stages k ≡ some stage → stage.name ≢ []
  pub distinct :
      (j k : ℕ) (one other : Stage K)
      → get_elem? stages j ≡ some one
      → get_elem? stages k ≡ some other
      → one.name ≡ other.name
      → j ≡ k
