-- ===== src/Resolver/Exclusive/Alone.antt =====
-- The stages of a policy have at most one BindingPolicy that lives, and attempts at the policy's condition
-- keep that.
use mathlib.Core.Path.{subst}
use kubestellar_workload_sta.Base.{
  ◌+◌, ◌≡◌, ◌≢◌, ◌⊎◌, inl, inr, sym, ◌∙◌, ap, Bool, true, some, Str, get_elem?, str_eq, arith,
}
use kubestellar_workload_sta.Base.Dict.{lookup, insert, lookup-insert}
use kubestellar_workload_sta.Run.{done}
use kubestellar_workload_sta.Strings.{stage_name}
use kubestellar_workload_sta.Strings.StageName.{IsClean}
use kubestellar_workload_sta.Api.{Kinds, Stage}
use kubestellar_workload_sta.Cluster.{Cluster}
use kubestellar_workload_sta.Resolver.{PolicyData, State}
use kubestellar_workload_sta.Resolver.Condition.{attempt_condition}
use kubestellar_workload_sta.Resolver.Staging.{Outcome, kept, moved, torn, settle, rollout}
use kubestellar_workload_sta.Resolver.Fulfilled.{RangesAll}
use kubestellar_workload_sta.Resolver.Exclusive.{
  IsApiServer, IsPlain, ArePlain, ArePlain-get_elem?, stage_name-injective,
}
use kubestellar_workload_sta.Resolver.Exclusive.Calls.{Effect, rollout-Effect}
use kubestellar_workload_sta.Resolver.Exclusive.Attempts.{at_last, to_next, attempt_condition-Went}

module _ {K : Kinds} (C : Cluster K) (lives : C.Server → Str → Bool) (name : Str) where
  -- Of all names that the policy's BindingPolicies could have, only that of one stage lives: of the active one
  -- or, after a step that was torn, of the next.
  pub record IsAlone (d : PolicyData K) (server : C.Server) : Type 0 where
    pub stage : Stage K
    pub place :
        (get_elem? d.stages d.active_index ≡ some stage)
        ⊎ (get_elem? d.stages (d.active_index + 1) ≡ some stage)
    pub alone : (t : Str) → IsPlain t → lives server (stage_name name t) ≡ true → t ≡ stage.name

  pub IsAlone-less :
      (d : PolicyData K) (before after : C.Server)
      → ((t : Str)
          → IsPlain t
          → lives after (stage_name name t) ≡ true
          → lives before (stage_name name t) ≡ true)
      → IsAlone d before
      → IsAlone d after
  IsAlone-less d before after less a = record {
    stage = a.stage;
    place = a.place;
    alone = λ t plain l. a.alone t plain (less t plain l);
  }

  -- What is alone does not depend on the entry's UIDs and binding.
  pub IsAlone-of_eq :
      (d d' : PolicyData K) (server : C.Server)
      → d'.stages ≡ d.stages
      → d'.active_index ≡ d.active_index
      → IsAlone d server
      → IsAlone d' server
  IsAlone-of_eq d d' server p q a = record {
    stage = a.stage;
    place = rw (p, q) a.place;
    alone = a.alone;
  }

  -- So it is for the policy's entry.
  abbrev pub EntryIsAlone : State C → Type 0
  EntryIsAlone s = (d : PolicyData K) × (lookup name s.policies ≡ some d) × IsAlone d s.server

module _ {K : Kinds} {C : Cluster K} {lives : C.Server → Str → Bool} (api : IsApiServer C lives)
    (name : Str) (clean : IsClean name) (d : PolicyData K) (stages : ArePlain d.stages) where
  module _ (previous next : Stage K) (before after : C.Server)
      (at : get_elem? d.stages d.active_index ≡ some previous)
      (n : get_elem? d.stages (d.active_index + 1) ≡ some next)
      (a : IsAlone C lives name d before) where
    -- What lives after a step that made something is the next stage's.
    only_next :
        (t : Str)
        → IsPlain t
        → (stage_name name t ≡ stage_name name next.name)
          ⊎ ((lives before (stage_name name t) ≡ true)
              × (stage_name name t ≢ stage_name name previous.name))
        → t ≡ next.name
    only_next t plain (inl same) =
        (stage_name-injective name name t next.name clean plain clean
          (ArePlain-get_elem? d.stages (d.active_index + 1) stages n) same).1
    only_next t plain (inr (l, other)) =
        let e = a.alone t plain l in
        elim a.place [
          | inl p ↦
              let same : a.stage ≡ previous = ground arith in
              absurd (other (ap (λ u. stage_name name u) (e ∙ ap (λ (st : Stage K). st.name) same)))
          | inr p ↦
              let same : a.stage ≡ next = ground arith in e ∙ ap (λ (st : Stage K). st.name) same
        ]

    settle-IsAlone :
        (o : Outcome)
        → Effect api name d previous next before o after
        → IsAlone C lives name (settle o d) after
    settle-IsAlone o (inl (same, less)) =
        rw same (IsAlone-less C lives name d before after (λ t plain. less (stage_name name t)) a)
    settle-IsAlone kept (inr made) = record {
      stage = next;
      place = inr n;
      alone = λ t plain l. only_next t plain (made (stage_name name t) l);
    }
    settle-IsAlone (moved uid) (inr made) = record {
      stage = next;
      place = inl n;
      alone = λ t plain l. only_next t plain (made (stage_name name t) l);
    }
    settle-IsAlone (torn uid) (inr made) = record {
      stage = next;
      place = inr n;
      alone = λ t plain l. only_next t plain (made (stage_name name t) l);
    }

module _ {K : Kinds} (C : Cluster K) (ranges : RangesAll C) (name : Str) (s s' : State C)
    (e : attempt_condition C name s ≡ done tt s') {lives : C.Server → Str → Bool}
    (api : IsApiServer C lives) where
  -- An attempt at the policy's own condition.
  pub attempt_condition-IsAlone :
      IsClean name
      → (d : PolicyData K) → ArePlain d.stages
      → lookup name s.policies ≡ some d
      → IsAlone C lives name d s.server
      → EntryIsAlone C lives name s'
  attempt_condition-IsAlone clean d stages found a =
      elim (attempt_condition-Went C name s s' ranges e) [
        | inl same ↦ rw same (d, found, a)
        | inr (d1, previous, found1, at, went) ↦
            let same : d1 ≡ d = ground arith in
            let at' : get_elem? d.stages d.active_index ≡ some previous = ground arith in
            elim went [
              | at_last left server ↦ (
                d,
                left ∙ ap some same,
                IsAlone-less C lives name d s.server s'.server
                    (λ t plain l.
                      api.delete_adds_none (stage_name name previous.name) (stage_name name t)
                        s.server (subst (λ v. lives v (stage_name name t) ≡ true) server l))
                    a,
              )
              | to_next next n written server ↦
                  let n' : get_elem? d.stages (d.active_index + 1) ≡ some next = ground arith in
                  let run = rollout C name d previous next s.server in
                  let server' : s'.server ≡ run.1 =
                    server ∙ ap (λ x. (rollout C name x previous next s.server).1) same in
                  let written' : s'.policies ≡ insert name (settle run.0 d) s.policies =
                    written
                    ∙ ap
                        (λ x.
                          insert name (settle (rollout C name x previous next s.server).0 x)
                            s.policies)
                        same in
                  (
                    settle run.0 d,
                    ground (arith, lookup-insert name name (settle run.0 d) s.policies),
                    settle-IsAlone api name clean d stages previous next s.server s'.server at' n' a
                        run.0
                        (subst (Effect api name d previous next s.server run.0) (sym server')
                          (rollout-Effect api name d previous next s.server)),
                  )
            ]
      ]
