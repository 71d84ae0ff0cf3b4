-- ===== src/Run.antt =====
-- Methods that mutate a Go object and may panic: the state that a panic leaves is kept.
use kubestellar_workload_sta.Base.{ℕ, ◌≡◌, refl, none, some, List, get_elem?, arith}

pub data Panic : Type 0 where
  index_out_of_range nil_dereference interface_conversion : Panic

pub data Run (S A : Type 0) : Type 0 where
  done : A → S → Run S A
  panicked : Panic → S → Run S A

abbrev pub Action : Type 0 → Type 0 → Type 0
Action S A = S → Run S A

abbrev pub pure : {S A : Type 0} → A → Action S A
pure a s = done a s

infixl 5 ◌>>=◌ ◌>>◌
abbrev pub ◌>>=◌ : {S A B : Type 0} → Action S A → (A → Action S B) → Action S B
◌>>=◌ m f s = elim (m s) [ done a s' ↦ f a s' | panicked p s' ↦ panicked p s' ]

abbrev pub ◌>>◌ : {S B : Type 0} → Action S (Unit {0}) → Action S B → Action S B
m >> k = m >>= λ _. k

-- `xs[i]`
abbrev pub index : {S A : Type 0} → List A → ℕ → Action S A
index xs i s = elim (get_elem? xs i) [ none ↦ panicked index_out_of_range s | some x ↦ done x s ]

-- The state in which a run ends, by a return or a panic.
abbrev pub final : {S A : Type 0} → Run S A → S
final (done a s) = s
final (panicked p s) = s

-- The run returns, in a state and with a value that satisfy `P`.
abbrev pub Returns : {S A : Type 0} → Run S A → (A → S → Type 0) → Type 0
Returns (done a s) P = P a s
Returns (panicked p s) P = ⊥

-- If the run returns, its state and value satisfy `P`.
abbrev pub Ensures : {S A : Type 0} → Run S A → (A → S → Type 0) → Type 0
Ensures (done a s) P = P a s
Ensures (panicked p s) P = Unit

-- The rest of a block runs in a state and with a value that the first step ensures.
pub Ensures-bind :
    {S A B : Type 0} (P : A → S → Type 0) (Q : B → S → Type 0) (m : Action S A) (f : A → Action S B)
    (s : S)
    → Ensures (m s) P
    → ((a : A) (s' : S) → P a s' → Ensures (f a s') Q)
    → Ensures ((m >>= f) s) Q
Ensures-bind {S} {A} P Q m f s h k = go (m s) h
  where
    go :
        (r : Run S A)
        → Ensures r P
        → Ensures (elim r [ done a s' ↦ f a s' | panicked p s' ↦ panicked p s' ]) Q
    go (done a s') h = k a s' h
    go (panicked p s') h = tt

-- What holds of the run's own result holds of its value and state.
pub Ensures_self :
    {S A : Type 0} (r : Run S A) (P : A → S → Type 0)
    → ((a : A) (s : S) → r ≡ done a s → P a s)
    → Ensures r P
Ensures_self (done a s) P h = h a s refl
Ensures_self (panicked p s) P h = tt

-- What a run ensures may be weakened.
pub Ensures-mono :
    {S A : Type 0} (r : Run S A) {P Q : A → S → Type 0}
    → Ensures r P
    → ((a : A) (s : S) → P a s → Q a s)
    → Ensures r Q
Ensures-mono (done a s) h k = k a s h
Ensures-mono (panicked p s) h k = tt

-- A block that returns has a first step that returns.
pub >>-eq_done :
    {S B : Type 0} (m : Action S (Unit {0})) (k : Action S B) (s s' : S) (b : B)
    → (m >> k) s ≡ done b s'
    → (t : S) × (m s ≡ done tt t) × (k t ≡ done b s')
>>-eq_done {S} {B} m k s s' b h = go (m s) refl
  where
    go : (r : Run S (Unit {0})) → m s ≡ r → (t : S) × (m s ≡ done tt t) × (k t ≡ done b s')
    go (done a t) e = (t, e, ground arith)
    go (panicked p t) e = absurd (ground arith)
