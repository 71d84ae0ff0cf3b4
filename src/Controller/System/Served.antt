-- ===== src/Controller/System/Served.antt =====
-- No reference is lost: from the queue to a reconciliation that returned no error.
use mathlib.Core.Path.{subst}
use kubestellar_workload_sta.Base.{
  ℕ, ◌≡◌, inl, inr, refl, sym, Option, none, some, nat_eq, arith, str_eq,
}
use kubestellar_workload_sta.Api.{Kinds}
use kubestellar_workload_sta.Cluster.{Cluster, Failure}
use kubestellar_workload_sta.Controller.{WorkQueue, Item}
use kubestellar_workload_sta.Controller.System.{
  Call, taken, calling, returned, look_up, System, Move, look, after, Trace, start, move,
}
use kubestellar_workload_sta.Controller.System.Kept.{
  Keeps, Waits-after, taken-after, calling-after, returned-after,
}

module _ {K : Kinds} (C : Cluster K) (W : WorkQueue) (item : Item) (s : System C W) where
  -- Since `s` the worker has read the caches for the reference.
  abbrev pub HasLooked : ℕ → System C W → Type 0
  HasLooked w t =
      (a : System C W) × (p : a.phase w ≡ taken item) × Trace C W s a
      × Trace C W (after C W a (look w item p)) t

  -- What has become by `t` of a reference that was waiting in `s`. In the last case a reconciliation returned
  -- no error, by a worker that has read the caches since `s`.
  pub data Kept (Waits : Item → W.Queue → Type 0) (t : System C W) : Type 0 where
    waiting : Waits item t.queue → Kept Waits t
    in_hand : (w : ℕ) → t.phase w ≡ taken item → Kept Waits t
    under_way : (w : ℕ) (c : Call C) → HasLooked w t → t.phase w ≡ calling item c → Kept Waits t
    failing :
        (w : ℕ) (f : Failure C.Error)
        → HasLooked w t
        → t.phase w ≡ returned item (some f)
        → Kept Waits t
    served :
        (w : ℕ) (b : System C W)
        → HasLooked w b
        → b.phase w ≡ returned item none
        → Trace C W b t
        → Kept Waits t

module _ {K : Kinds} {C : Cluster K} {W : WorkQueue} {Waits : Item → W.Queue → Type 0}
    (keeps : Keeps W Waits) (item : Item) (s : System C W) where
  HasLooked-after :
      (w : ℕ) (t : System C W) (m : Move C W t)
      → HasLooked C W item s w t
      → HasLooked C W item s w (after C W t m)
  HasLooked-after w t m (a, p, before, since) = (a, p, before, move since m refl)

  look-phase :
      (w : ℕ) (t : System C W) (q : t.phase w ≡ taken item)
      → (after C W t (look w item q)).phase w ≡ calling item (look_up C item t.resolver.server)
  unfolding after
  look-phase w t q = ground arith

  on_return :
      (w : ℕ) (t : System C W) (e : Option (Failure C.Error))
      → HasLooked C W item s w t
      → t.phase w ≡ returned item e
      → Kept C W item s Waits t
  on_return w t none looked h = served w t looked h start
  on_return w t (some f) looked h = failing w f looked h

  Kept-after :
      (t : System C W) (m : Move C W t)
      → Trace C W s t
      → Kept C W item s Waits t
      → Kept C W item s Waits (after C W t m)
  Kept-after t m p (waiting h) = elim (Waits-after C keeps item t m h) [
    | inl l ↦ waiting l
    | inr (w, l) ↦ in_hand w l
  ]
  Kept-after t m p (in_hand w h) = elim (taken-after item t m w h) [
    | inl l ↦ in_hand w l
    | inr (q, l) ↦
        subst (Kept C W item s Waits) (sym l)
          (under_way w (look_up C item t.resolver.server) (t, q, p, start) (look-phase w t q))
  ]
  Kept-after t m p (under_way w c looked h) = elim (calling-after item t m w c h) [
    | inl l ↦ under_way w c (HasLooked-after w t m looked) l
    | inr (e, l) ↦ on_return w (after C W t m) e (HasLooked-after w t m looked) l
  ]
  Kept-after t m p (failing w f looked h) = elim (returned-after item t m w f h) [
    | inl l ↦ failing w f (HasLooked-after w t m looked) l
    | inr l ↦ waiting (subst (Waits item) (sym l) (keeps.added_back item t.queue))
  ]
  Kept-after t m p (served w b looked h since) = served w b looked h (move since m refl)

  -- No reference is lost: one that waits in the queue at some time still waits later, or a worker has it in
  -- hand, or it has been reconciled without an error by a worker that read the caches after that time,
  -- whatever the workers, the event handlers and the cluster do in between, in whatever order. The queue is
  -- not shut down, and keeps what is added until it is taken.
  pub never_lost : (t : System C W) → Waits item s.queue → Trace C W s t → Kept C W item s Waits t
  never_lost t h start = waiting h
  never_lost t h (move {t = u} p m e) =
      subst (Kept C W item s Waits) (sym e) (Kept-after u m p (never_lost u h p))
