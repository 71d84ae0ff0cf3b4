-- ===== src/DeepCopy/Copier.antt =====
-- What a deep copy promises, and that copies of pointers and of arrays keep the promise of their parts.
use kubestellar_workload_sta.Base.{
  ℕ, suc, zero, ◌≡◌, refl, Option, none, some, List, [], ◌∷◌, ◌++◌, length, get_elem?, arith,
}
use kubestellar_workload_sta.DeepCopy.{Address, Copy, Region}

-- Every cell of `xs` is in `ys` as it was.
pub KeepsCells : {A : Type 0} → List A → List A → Type 0
KeepsCells {A} xs ys = (p : ℕ) (a : A) → get_elem? xs p ≡ some a → get_elem? ys p ≡ some a

module _ {A : Type 0} where
  pub KeepsCells_self : (xs : List A) → KeepsCells xs xs
  unfolding KeepsCells
  KeepsCells_self xs p a h = h

  pub KeepsCells_trans :
      (xs ys zs : List A) → KeepsCells xs ys → KeepsCells ys zs → KeepsCells xs zs
  unfolding KeepsCells
  KeepsCells_trans xs ys zs k l p a h = l p a (k p a h)

  pub KeepsCells_push : (xs : List A) (b : A) → KeepsCells xs (xs ++ b ∷ [])
  unfolding KeepsCells
  KeepsCells_push [] b p a h = absurd (cc)
  KeepsCells_push (x ∷ xs) b zero a h = h
  KeepsCells_push (x ∷ xs) b (suc p) a h = KeepsCells_push xs b p a h

  pub get_elem?-push : (xs : List A) (b : A) → get_elem? (xs ++ b ∷ []) (length xs) ≡ some b
  get_elem?-push [] b = refl
  get_elem?-push (x ∷ xs) b = get_elem?-push xs b

  pub get_elem?-length : (xs : List A) → get_elem? xs (length xs) ≡ none
  get_elem?-length [] = refl
  get_elem?-length (x ∷ xs) = get_elem?-length xs

  pub kept :
      (xs ys : List A) (p : ℕ) {a : A}
      → KeepsCells xs ys
      → get_elem? xs p ≡ some a
      → get_elem? ys p ≡ some a
  unfolding KeepsCells
  kept xs ys p {a} k h = k p a h

  -- An address that is free in a later memory was free before.
  pub free_of_KeepsCells :
      (xs ys : List A) (p : ℕ) → KeepsCells xs ys → get_elem? ys p ≡ none → get_elem? xs p ≡ none
  unfolding KeepsCells
  free_of_KeepsCells xs ys p k h = go (get_elem? xs p) refl
    where
      go : (o : Option A) → get_elem? xs p ≡ o → get_elem? xs p ≡ none
      go none e = e
      go (some a) e = absurd (ground (arith, k p a e))

-- How a memory holds objects `A` that stand for values `V`: what an object reads as, and that all addresses
-- which it leads to in the second memory are free in the first.
pub record View (M A V : Type 0) : Type 1 where
  pub Reads : M → A → V → Type 0
  pub IsFresh : M → M → A → Type 0

-- A relation between a memory and a later one.
pub record IsKeeping {M : Type 0} (Keeps : M → M → Type 0) : Type 0 where
  pub self : (m : M) → Keeps m m
  pub trans : (m1 m2 m3 : M) → Keeps m1 m2 → Keeps m2 m3 → Keeps m1 m3

module _ {M : Type 0} (Keeps : M → M → Type 0) where
  -- A deep copy of an object that reads as a value is a fresh object that reads as the same value, and
  -- keeps all that was there.
  pub record IsCopier {A V : Type 0} (view : View M A V) (copy : A → Copy M A) : Type 0 where
    pub copies :
        (m : M) (a : A) (v : V)
        → view.Reads m a v
        → (a' : A) × (m' : M) × (copy a m ≡ some (a', m'))
          × view.Reads m' a' v
          × view.IsFresh m m' a'
          × Keeps m m'
    pub stable : (m m' : M) (a : A) (v : V) → Keeps m m' → view.Reads m a v → view.Reads m' a v
    pub fresh_stable :
        (m m1 m2 : M) (a : A) → Keeps m1 m2 → view.IsFresh m m1 a → view.IsFresh m m2 a
    pub fresh_older :
        (m0 m m1 : M) (a : A) → Keeps m0 m → view.IsFresh m m1 a → view.IsFresh m0 m1 a

  pub record IsRegion {A : Type 0} (R : Region M A) : Type 0 where
    pub cells-push : (m : M) (a : A) → R.cells (R.push a m) ≡ R.cells m ++ a ∷ []
    pub push-Keeps : (m : M) (a : A) → Keeps m (R.push a m)
    pub Keeps-cells : (m m' : M) → Keeps m m' → KeepsCells (R.cells m) (R.cells m')

-- A nil pointer reads as nothing, another as what its cell reads as.
abbrev pub PointerReads :
    {M A V : Type 0} → Region M A → View M A V → M → Address → Option V → Type 0
PointerReads R view m none none = Unit
PointerReads {A = A} R view m (some p) (some v) =
    (a : A) × (get_elem? (R.cells m) p ≡ some a) × view.Reads m a v
PointerReads R view m _ _ = ⊥

abbrev pub PointerIsFresh : {M A V : Type 0} → Region M A → View M A V → M → M → Address → Type 0
PointerIsFresh R view m m' none = Unit
PointerIsFresh {A = A} R view m m' (some p) =
    (a : A) × (get_elem? (R.cells m) p ≡ none)
    × (get_elem? (R.cells m') p ≡ some a)
    × view.IsFresh m m' a

abbrev pub pointer_view : {M A V : Type 0} → Region M A → View M A V → View M Address (Option V)
pointer_view R view = record { Reads = PointerReads R view; IsFresh = PointerIsFresh R view }

abbrev pub ElementsRead : {M A V : Type 0} → View M A V → M → List A → List V → Type 0
ElementsRead view m [] [] = Unit
ElementsRead view m (a ∷ rest) (v ∷ vs) = view.Reads m a v × ElementsRead view m rest vs
ElementsRead view m _ _ = ⊥

abbrev pub ElementsAreFresh : {M A V : Type 0} → View M A V → M → M → List A → Type 0
ElementsAreFresh view m m' [] = Unit
ElementsAreFresh view m m' (a ∷ rest) = view.IsFresh m m' a × ElementsAreFresh view m m' rest

abbrev pub elements_view : {M A V : Type 0} → View M A V → View M (List A) (List V)
elements_view view = record { Reads = ElementsRead view; IsFresh = ElementsAreFresh view }

-- An object that is its own value and has no address.
abbrev pub value_view : {M A : Type 0} → View M A A
value_view = record { Reads = λ m a v. a ≡ v; IsFresh = λ m m' a. Unit }
