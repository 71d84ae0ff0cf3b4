-- ===== src/Resolver/Exclusive/Attempts.antt =====
-- What an attempt at a condition does to the BindingPolicies of one policy: of the policy that it is for, and
-- of every other.
use mathlib.Core.Path.{subst}
use kubestellar_workload_sta.Base.{
  ◌+◌, ◌-◌, ◌≡◌, ◌≢◌, ◌⊎◌, inl, inr, sym, ◌∙◌, Bool, true, none, some, Str, get_elem?, str_eq,
  arith, Option-cases, lt_of_get_elem?,
}
use kubestellar_workload_sta.Base.Dict.{lookup, insert, lookup-insert}
use kubestellar_workload_sta.Run.{done}
use kubestellar_workload_sta.Strings.{stage_name}
use kubestellar_workload_sta.Strings.StageName.{IsClean}
use kubestellar_workload_sta.Api.{Kinds, Stage}
use kubestellar_workload_sta.Cluster.{Cluster}
use kubestellar_workload_sta.Resolver.{PolicyData, State}
use kubestellar_workload_sta.Resolver.Ensure.{
  stage_up, advance, ensure_active_stage, delete_previous, create_active, revert,
}
use kubestellar_workload_sta.Resolver.Condition.{attempt_condition}
use kubestellar_workload_sta.Resolver.Staging.{
  Outcome, kept, moved, torn, settle, rollout, stage_up-rollout,
}
use kubestellar_workload_sta.Resolver.Fulfilled.{RangesAll, attempt_condition_cases}
use kubestellar_workload_sta.Resolver.Frame.{lookup-attempt_condition}
use kubestellar_workload_sta.Resolver.Exclusive.{
  IsApiServer, IsPlain, ArePlain-get_elem?, stage_name-injective, EntryIsPlain, AllPlain,
}
use kubestellar_workload_sta.Resolver.Exclusive.Calls.{rollout-Effect}

module _ {K : Kinds} (C : Cluster K) (key : Str) (s s' : State C) where
  -- What an attempt that returns did, if anything: at the last stage only a deletion that failed returns, and
  -- at another the calls of a step were made.
  pub data Went (d : PolicyData K) (previous : Stage K) : Type 0 where
    at_last :
        lookup key s'.policies ≡ some d
        → s'.server ≡ (C.delete_binding_policy (stage_name key previous.name) s.server).1
        → Went d previous
    to_next :
        (next : Stage K)
        → get_elem? d.stages (d.active_index + 1) ≡ some next
        → s'.policies ≡ insert key (settle (rollout C key d previous next s.server).0 d) s.policies
        → s'.server ≡ (rollout C key d previous next s.server).1
        → Went d previous

  Went-last :
      (d : PolicyData K) (previous : Stage K)
      → lookup key s.policies ≡ some d
      → get_elem? d.stages d.active_index ≡ some previous
      → get_elem? d.stages (d.active_index + 1) ≡ none
      → stage_up C key s ≡ done tt s'
      → Went d previous
  unfolding stage_up advance ensure_active_stage delete_previous create_active revert
  Went-last d previous h p n e =
      let d' = record d { active_index = d.active_index + 1 } in
      let written = lookup-insert key key d' s.policies in
      let reverted =
        lookup-insert key key (record d' { active_index = d'.active_index - 1 })
          (insert key d' s.policies) in
      let below = lt_of_get_elem? d.stages d.active_index p in
      at_last (ground (arith, written, reverted)) (ground (arith, written, below))

  Went-next :
      (d : PolicyData K) (previous next : Stage K)
      → lookup key s.policies ≡ some d
      → get_elem? d.stages d.active_index ≡ some previous
      → get_elem? d.stages (d.active_index + 1) ≡ some next
      → stage_up C key s ≡ done tt s'
      → Went d previous
  Went-next d previous next h p n e =
      let step = stage_up-rollout C key d previous next s h p n in
      to_next next n (ground (arith, step)) (ground (arith, step))

  pub attempt_condition-Went :
      RangesAll C
      → attempt_condition C key s ≡ done tt s'
      → (s' ≡ s)
        ⊎ ((d : PolicyData K) × (previous : Stage K) × (lookup key s.policies ≡ some d)
            × (get_elem? d.stages d.active_index ≡ some previous)
            × Went d previous)
  attempt_condition-Went ranges e = elim (attempt_condition_cases C ranges key s) [
    | inl q ↦ inl (ground arith)
    | inr r ↦ elim r [
      | inl q ↦ absurd (ground arith)
      | inr (q, f) ↦
          let e' : stage_up C key s ≡ done tt s' = sym q ∙ e in
          elim (Option-cases (get_elem? f.0.stages (f.0.active_index + 1))) [
            | inl n ↦ inr (f.0, f.1, f.3, f.4, Went-last f.0 f.1 f.3 f.4 n e')
            | inr (next, n) ↦ inr (f.0, f.1, f.3, f.4, Went-next f.0 f.1 next f.3 f.4 n e')
          ]
    ]
  ]

settle-plain :
    {K : Kinds} (key : Str) (o : Outcome) (d : PolicyData K)
    → EntryIsPlain key (some d)
    → EntryIsPlain key (some (settle o d))
settle-plain key kept d h = h
settle-plain key (moved uid) d h = h
settle-plain key (torn uid) d h = h

module _ {K : Kinds} (C : Cluster K) (ranges : RangesAll C) (key : Str) (s s' : State C)
    (e : attempt_condition C key s ≡ done tt s') where
  foreign : (j : Str) → j ≢ key → lookup j s'.policies ≡ lookup j s.policies
  foreign j n = ground (arith, lookup-attempt_condition C j key s n)

  own-plain : AllPlain s → EntryIsPlain key (lookup key s'.policies)
  own-plain plain = elim (attempt_condition-Went C key s s' ranges e) [
    | inl same ↦ rw same (plain key)
    | inr (d, previous, found, at, went) ↦
        let entry : EntryIsPlain key (some d) = subst (EntryIsPlain key) found (plain key) in
        elim went [
          | at_last left _ ↦ rw left entry
          | to_next next n written _ ↦
              let o = (rollout C key d previous next s.server).0 in
              let settled : lookup key s'.policies ≡ some (settle o d) =
                ground (arith, lookup-insert key key (settle o d) s.policies) in
              rw settled (settle-plain key o d entry)
        ]
  ]

  pub attempt_condition-AllPlain : AllPlain s → AllPlain s'
  attempt_condition-AllPlain plain j = elim (str_eq.dec j key) [
    | no n ↦ rw (foreign j n) (plain j)
    | yes p ↦ rw p (own-plain plain)
  ]

  module _ {lives : C.Server → Str → Bool} (api : IsApiServer C lives) where
    -- An attempt at another policy's condition makes none of this policy's BindingPolicies.
    pub attempt_condition_adds_none :
        (name t : Str)
        → AllPlain s
        → name ≢ key
        → IsClean name
        → IsPlain t
        → lives s'.server (stage_name name t) ≡ true
        → lives s.server (stage_name name t) ≡ true
    attempt_condition_adds_none name t plain other clean plain_t h =
        let m = stage_name name t in
        elim (attempt_condition-Went C key s s' ranges e) [
          | inl same ↦ ground arith
          | inr (d, previous, found, at, went) ↦ elim went [
            | at_last _ server ↦
                api.delete_adds_none (stage_name key previous.name) m s.server
                  (subst (λ v. lives v m ≡ true) server h)
            | to_next next n _ server ↦
                let (clean_key, stages) : EntryIsPlain key (some d) =
                  subst (EntryIsPlain key) found (plain key) in
                let plain_next = ArePlain-get_elem? d.stages (d.active_index + 1) stages n in
                elim (rollout-Effect api key d previous next s.server) [
                  | inl (_, less) ↦ less m (subst (λ v. lives v m ≡ true) server h)
                  | inr made ↦ elim (made m (subst (λ v. lives v m ≡ true) server h)) [
                    | inl same ↦ absurd (
                        other
                          (stage_name-injective name key t next.name clean plain_t clean_key
                            plain_next same).0)
                    | inr (l, _) ↦ l
                  ]
                ]
          ]
        ]
