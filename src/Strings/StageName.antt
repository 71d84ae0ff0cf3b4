-- ===== src/Strings/StageName.antt =====
-- Which names with a stage suffix split into the policy's name and the stage's.
use mathlib.Core.List.{append_assoc}
use kubestellar_workload_sta.Base.{
  ℕ, ◌≡◌, ◌∙◌, false, none, some, [], ◌∷◌, ◌++◌, Str, codes, arith, nat_eq,
}
use kubestellar_workload_sta.Strings.{
  strip_prefix, cut, contains, split, stage_separator, stage_name,
}
use kubestellar_workload_sta.Strings.Cut.{cut-append, contains-cons, cut-cons, cut-eq-none}
use kubestellar_workload_sta.Strings.Split.{split-cons, split-eq_self}

abbrev dot : Str
dot = codes "."

-- No separator begins inside the policy's name, the dot of the suffix included.
abbrev pub IsClean : Str → Type 0
IsClean name = contains (name ++ dot) stage_separator ≡ false

-- Before the suffix no occurrence of the separator begins.
no_early_separator :
    (c : ℕ) (a b : Str)
    → strip_prefix stage_separator ((c ∷ a) ++ dot) ≡ none
    → strip_prefix stage_separator (c ∷ stage_name a b) ≡ none
unfolding strip_prefix
no_early_separator c [] b h = ground arith
no_early_separator c (c1 ∷ []) b h = ground arith
no_early_separator c (c1 ∷ c2 ∷ []) b h = ground arith
no_early_separator c (c1 ∷ c2 ∷ c3 ∷ []) b h = ground arith
no_early_separator c (c1 ∷ c2 ∷ c3 ∷ c4 ∷ []) b h = ground arith
no_early_separator c (c1 ∷ c2 ∷ c3 ∷ c4 ∷ c5 ∷ []) b h = ground arith
no_early_separator c (c1 ∷ c2 ∷ c3 ∷ c4 ∷ c5 ∷ c6 ∷ a) b h = ground arith

cut-stage_name :
    (sbp stage : Str) → IsClean sbp → cut stage_separator (stage_name sbp stage) ≡ some (sbp, stage)
cut-stage_name [] stage h = cut-append _ _ stage
cut-stage_name (c ∷ a) stage h =
    let (first, later) = contains-cons stage_separator c (a ++ dot) h in
    cut-cons stage_separator c (stage_name a stage) a stage (no_early_separator c a stage first)
      (cut-stage_name a stage later)

-- If the policy's name followed by a dot does not contain the separator ".stage.", and the
-- stage's name does not contain it, then the name of the stage's BindingPolicy splits into
-- exactly the policy's name and the stage's name.
pub split-stage_name :
    (sbp stage : Str)
    → IsClean sbp
    → contains stage stage_separator ≡ false
    → split (stage_name sbp stage) stage_separator ≡ sbp ∷ stage ∷ []
split-stage_name sbp stage h k =
    split-cons _ _ (stage_name sbp stage) sbp stage (cut-stage_name sbp stage h)
    ∙ rw (split-eq_self stage_separator stage (cut-eq-none stage_separator stage k))

abbrev pub bare_suffix : Str
bare_suffix = codes ".stage"

-- A policy whose own name ends in ".stage" is taken for another one: the name of its stage's
-- BindingPolicy splits into the name without that ending, and "stage." before the stage's name.
-- The name without the ending is clean, and "stage." with the stage's name holds no separator.
pub split-stage_name_misread :
    (sbp stage : Str)
    → IsClean sbp
    → contains (codes "stage." ++ stage) stage_separator ≡ false
    → split (stage_name (sbp ++ bare_suffix) stage) stage_separator
      ≡ sbp ∷ (codes "stage." ++ stage) ∷ []
split-stage_name_misread sbp stage h k =
    rw (append_assoc sbp bare_suffix (stage_separator ++ stage))
      (split-stage_name sbp (codes "stage." ++ stage) h k)
