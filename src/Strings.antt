-- ===== src/Strings.antt =====
-- Go's `strings.Split` and `strings.Contains` on byte strings, as pkg/staged-binding-policy/resolver.go
-- uses them, and the names that it builds with the separator ".stage.".
pub mod Cut
pub mod Split
pub mod StageName
use kubestellar_workload_sta.Base.{
  ℕ, zero, suc, Bool, true, false, Option, none, some, List, [], ◌∷◌, ◌++◌, Str, codes, length,
  ◌==◌, nat_eq, if◌then◌else◌,
}

-- What follows the prefix, if `s` begins with it.
unfoldable pub strip_prefix : Str → Str → Option Str
strip_prefix [] s = some s
strip_prefix (p ∷ ps) [] = none
strip_prefix (p ∷ ps) (c ∷ s) = if p == c then strip_prefix ps s else none

abbrev cons_first : ℕ → Option (Str × Str) → Option (Str × Str)
cons_first c none = none
cons_first c (some (a, b)) = some (c ∷ a, b)

-- The parts of `s` before and after the first `sep` (`strings.Index`).
unfoldable pub cut : Str → Str → Option (Str × Str)
unfolding strip_prefix
cut sep [] = elim (strip_prefix sep []) [ some r ↦ some ([], r) | none ↦ none ]
cut sep (c ∷ s) =
    let rest = cons_first c (cut sep s) in
    elim (strip_prefix sep (c ∷ s)) [ some r ↦ some ([], r) | none ↦ rest ]

abbrev found : Option (Str × Str) → Bool
found none = false
found (some _) = true

-- `strings.Contains(s, sub)`
unfoldable pub contains : Str → Str → Bool
unfolding cut
contains s sub = found (cut sub s)

-- The loop of `strings.Split`, on fuel: `Split.split_fuel-enough` shows that the length suffices.
unfoldable pub split_fuel : ℕ → Str → Str → List Str
split_fuel zero sep s = s ∷ []
split_fuel (suc n) sep s = elim (cut sep s) [ none ↦ s ∷ [] | some (a, b) ↦ a ∷ split_fuel n sep b ]

-- `strings.Split(s, sep)` for a `sep` that is not empty
unfoldable pub split : Str → Str → List Str
unfolding split_fuel cut
split s sep = split_fuel (suc (length s)) sep s

abbrev pub stage_separator : Str
stage_separator = codes ".stage."

-- `sbpName + ".stage." + stage.Name`
abbrev pub stage_name : Str → Str → Str
stage_name sbp stage = sbp ++ (stage_separator ++ stage)
