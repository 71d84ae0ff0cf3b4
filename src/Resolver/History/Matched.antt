-- ===== src/Resolver/History/Matched.antt =====
-- The history of an entry over the attempts that a combined status makes.
use mathlib.Core.List.{append_assoc}
use kubestellar_workload_sta.Base.{
  ◌≡◌, ◌≢◌, sym, ◌∙◌, ap, some, List, [], ◌∷◌, ◌++◌, Str, str_eq, ◌==◌, arith, if◌then◌else◌,
}
use kubestellar_workload_sta.Base.Dict.{lookup}
use kubestellar_workload_sta.Run.{done, pure, >>-eq_done}
use kubestellar_workload_sta.Strings.{split, stage_separator}
use kubestellar_workload_sta.Api.{Kinds}
use kubestellar_workload_sta.Cluster.{Cluster}
use kubestellar_workload_sta.Resolver.{State}
use kubestellar_workload_sta.Resolver.Condition.{attempt_condition, label_binding_policy}
use kubestellar_workload_sta.Resolver.Notes.{
  note_combined_status, attempt_matching, keys, without_suffix, or_empty,
}
use kubestellar_workload_sta.Resolver.Fulfilled.{RangesAll}
use kubestellar_workload_sta.Resolver.Frame.{lookup-attempt_condition}
use kubestellar_workload_sta.Resolver.Reach.{combined_status}
use kubestellar_workload_sta.Resolver.History.{History, History-append, History_of_eq}
use kubestellar_workload_sta.Resolver.History.Attempt.{attempt_condition-History}

module _ {K : Kinds} (C : Cluster K) (key : Str) where
  attempt_matching-append :
      (ks js : List Str) (s t u : State C)
      → attempt_matching C key ks s ≡ done tt t
      → attempt_matching C key js t ≡ done tt u
      → attempt_matching C key (ks ++ js) s ≡ done tt u
  unfolding attempt_matching
  attempt_matching-append [] js s t u h k = ground arith
  attempt_matching-append (x ∷ ks) js s t u h k =
      let (r, e, rest) =
        >>-eq_done (if x == key then attempt_condition C x else pure tt) (attempt_matching C key ks)
          s t tt h in
      let later = attempt_matching-append ks js r t u rest k in ground arith

  -- Attempts at another policy's condition leave the entry of `name`.
  pub lookup-attempt_matching :
      (name : Str) (ks : List Str) (s s' : State C)
      → name ≢ key
      → attempt_matching C key ks s ≡ done tt s'
      → lookup name s'.policies ≡ lookup name s.policies
  unfolding attempt_matching
  lookup-attempt_matching name [] s s' n h = ground arith
  lookup-attempt_matching name (k ∷ ks) s s' n h =
      let (t, e, rest) =
        >>-eq_done (if k == key then attempt_condition C k else pure tt) (attempt_matching C key ks)
          s s' tt h in
      lookup-attempt_matching name ks t s' n rest ∙ elim (str_eq.dec k key) [
        | yes p ↦
            let at_k : attempt_condition C k s ≡ done tt t = ground arith in
            let own : attempt_condition C key s ≡ done tt t = rw (← p) at_k in
            ground (arith, lookup-attempt_condition C name key s n)
        | no m ↦
            let same : s ≡ t = ground arith in
            ap (λ (x : State C). lookup name x.policies) (sym same)
      ]

module _ {K : Kinds} (C : Cluster K) (ranges : RangesAll C) (name : Str) {s s' : State C}
    (cs : C.CombinedStatus) (h : note_combined_status C cs s ≡ done tt s')
    (label : without_suffix
        (split (or_empty (lookup label_binding_policy (C.status_labels cs))) stage_separator)
      ≡ some name) where
  pub attempt_matching-History :
      (first ks : List Str) (v w : State C)
      → C.range_names (keys C s.policies) ≡ first ++ ks
      → attempt_matching C name first s ≡ done tt v
      → attempt_matching C name ks v ≡ done tt w
      → History C name (combined_status cs h) (lookup name v.policies) (lookup name w.policies)
  unfolding attempt_matching
  attempt_matching-History first [] v w r a b =
      History_of_eq C name (combined_status cs h) (ground arith)
  attempt_matching-History first (k ∷ ks) v w r a b =
      let st = combined_status cs h in
      let (t, e, rest) =
        >>-eq_done (if k == name then attempt_condition C k else pure tt)
          (attempt_matching C name ks) v w tt b in
      let one : attempt_matching C name (k ∷ []) v ≡ done tt t = ground arith in
      History-append C name st
        (elim (str_eq.dec k name) [
          | yes p ↦
              attempt_condition-History C name st ranges v t
                (first, ks, label, r ∙ ap (λ x. first ++ x ∷ ks) p, a) (ground arith)
          | no n ↦ History_of_eq C name st (ground arith)
        ])
        (attempt_matching-History (first ++ k ∷ []) ks t w
          (r ∙ sym (append_assoc first (k ∷ []) ks))
          (attempt_matching-append C name first (k ∷ []) s v t a one) rest)
