-- ===== src/Strings/Split.antt =====
-- `strings.Split` in general: its fuel, and what it returns by what one cut returns.
use kubestellar_workload_sta.Base.{
  ℕ, zero, suc, ◌<◌, ◌≡◌, none, some, [], ◌∷◌, Str, length, arith, Option-cases, inl, inr, ap,
}
use kubestellar_workload_sta.Strings.{cut, split, split_fuel}
use kubestellar_workload_sta.Strings.Cut.{cut_shorter}

-- More fuel than the text has bytes changes nothing.
split_fuel-enough :
    (c : ℕ) (sep : Str) (n m : ℕ) (s : Str)
    → length s < n
    → length s < m
    → split_fuel n (c ∷ sep) s ≡ split_fuel m (c ∷ sep) s
unfolding split_fuel
split_fuel-enough c sep zero m s h k = absurd (omega arith)
split_fuel-enough c sep (suc n) zero s h k = absurd (omega arith)
split_fuel-enough c sep (suc n) (suc m) s h k = elim (Option-cases (cut (c ∷ sep) s)) [
  | inl e ↦ rw (e, split_fuel)
  | inr (p, e) ↦
      rw (e, split_fuel)
        (ap (λ rest. p.0 ∷ rest)
          (split_fuel-enough c sep n m p.1 (omega (arith, cut_shorter c sep s p.0 p.1 e))
            (omega (arith, cut_shorter c sep s p.0 p.1 e))))
]

pub split-cons :
    (c : ℕ) (sep s a b : Str)
    → cut (c ∷ sep) s ≡ some (a, b)
    → split s (c ∷ sep) ≡ a ∷ split b (c ∷ sep)
unfolding split
split-cons c sep s a b e =
    rw (e, split_fuel)
      (ap (λ rest. a ∷ rest)
        (split_fuel-enough c sep (length s) (suc (length b)) b (cut_shorter c sep s a b e)
          (omega arith)))

pub split-eq_self : (sep s : Str) → cut sep s ≡ none → split s sep ≡ s ∷ []
unfolding split
split-eq_self sep s e = rw (e, split_fuel)
