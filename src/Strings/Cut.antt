-- ===== src/Strings/Cut.antt =====
-- What one cut at a separator returns.
use kubestellar_workload_sta.Base.{
  ℕ, ◌+◌, ◌<◌, ◌≡◌, refl, false, Option, none, some, [], ◌∷◌, ◌++◌, Str, length, arith,
}
use kubestellar_workload_sta.Strings.{strip_prefix, cut, contains}

abbrev IsStripped : Str → Str → Option Str → Type 0
IsStripped p s none = Unit
IsStripped p s (some r) = s ≡ p ++ r

abbrev IsCut : Str → Str → Option (Str × Str) → Type 0
IsCut sep s none = Unit
IsCut sep s (some (a, b)) = s ≡ a ++ (sep ++ b)

strip_prefix-append : (p s : Str) → strip_prefix p (p ++ s) ≡ some s
unfolding strip_prefix
strip_prefix-append [] s = refl
strip_prefix-append (c ∷ p) s = ground (arith, strip_prefix-append p s)

-- A text that begins with the separator is cut there.
pub cut-append : (c : ℕ) (sep s : Str) → cut (c ∷ sep) ((c ∷ sep) ++ s) ≡ some ([], s)
unfolding cut
cut-append c sep s = ground (arith, strip_prefix-append sep s)

strip_prefix-IsStripped : (p s : Str) → IsStripped p s (strip_prefix p s)
unfolding strip_prefix
strip_prefix-IsStripped [] s = refl
strip_prefix-IsStripped (c ∷ p) [] = tt
strip_prefix-IsStripped (c ∷ p) (d ∷ s) = ground (arith, strip_prefix-IsStripped p s)

cut-IsCut : (sep s : Str) → IsCut sep s (cut sep s)
unfolding cut
cut-IsCut sep [] = ground (arith, strip_prefix-IsStripped sep [])
cut-IsCut sep (c ∷ s) = ground (arith, strip_prefix-IsStripped sep (c ∷ s), cut-IsCut sep s)

-- The parts and the separator between them make up the text.
cut_sound : (sep s a b : Str) → cut sep s ≡ some (a, b) → s ≡ a ++ (sep ++ b)
cut_sound sep s a b h = ground (arith, cut-IsCut sep s)

length-append : (a b : Str) → length (a ++ b) ≡ length a + length b
length-append [] b = omega arith
length-append (c ∷ a) b = omega (arith, length-append a b)

-- With a separator that is not empty, what is left is shorter.
pub cut_shorter : (c : ℕ) (sep s a b : Str) → cut (c ∷ sep) s ≡ some (a, b) → length b < length s
cut_shorter c sep s a b h =
    rw (cut_sound (c ∷ sep) s a b h)
      (omega (arith, length-append a ((c ∷ sep) ++ b), length-append sep b))

-- A text that does not contain the separator neither begins with it nor contains it later.
pub contains-cons :
    (sep : Str) (c : ℕ) (s : Str)
    → contains (c ∷ s) sep ≡ false
    → (strip_prefix sep (c ∷ s) ≡ none) × (contains s sep ≡ false)
unfolding contains
contains-cons sep c s h = ground arith

pub cut-cons :
    (sep : Str) (c : ℕ) (s a b : Str)
    → strip_prefix sep (c ∷ s) ≡ none
    → cut sep s ≡ some (a, b)
    → cut sep (c ∷ s) ≡ some (c ∷ a, b)
unfolding cut
cut-cons sep c s a b h k = ground arith

pub cut-eq-none : (sep s : Str) → contains s sep ≡ false → cut sep s ≡ none
unfolding contains
cut-eq-none sep s h = ground arith
