-- ===== src/PriorityScheduler/Members.antt =====
-- Which contexts the queues hold after the due ones were woken, and queues under a change of one
-- context that is in neither.
use mathlib.Core.Path.{subst}
use rtas2021_artifact.Base.{
  ℕ, ◌+◌, ◌≡◌, refl, true, false, ◌||◌, List, [], ◌∷◌, arith, has, length, ◌==◌, leb, Bool-cases,
  inl, inr, sym, ap,
}
use rtas2021_artifact.Store.{Ptr, Context, next_of, write}
use rtas2021_artifact.Queue.{Priority, Heap}
use rtas2021_artifact.Queue.Chain.{Holds, IsChain-frame}
use rtas2021_artifact.Queue.Sorted.{NoneAbove, IsSorted, insert_by, has-insert_by, length-insert_by}
use rtas2021_artifact.Image.{Image}
use rtas2021_artifact.Kernel.{Kernel}
use rtas2021_artifact.PriorityScheduler.{Policy, waiting, ready}
use rtas2021_artifact.PriorityScheduler.Queues.{Queues, key}
use rtas2021_artifact.PriorityScheduler.Wake.{woken, still_waiting}

-- No context is lost or made by waking.
module _ (policy : Policy) (keys dates : Ptr → ℕ) (t : ℕ) where
  pub has-woken :
      (a : Ptr) (rs ws : List Ptr)
      → (has a (woken policy keys dates t rs ws) || has a (still_waiting policy keys dates t ws))
        ≡ (has a rs || has a ws)
  has-woken a rs [] = refl
  has-woken a rs (x ∷ ws) = elim (Bool-cases (leb (dates x) t)) [
    | inl due ↦ rw due (
        ground (
          arith,
          has-woken a (insert_by (ready policy) keys x rs) ws,
          has-insert_by (ready policy) keys a x rs,
        ))
    | inr early ↦ rw early refl
  ]

  pub length-woken :
      (rs ws : List Ptr)
      → length (woken policy keys dates t rs ws) + length (still_waiting policy keys dates t ws)
        ≡ length rs + length ws
  length-woken rs [] = refl
  length-woken rs (x ∷ ws) = elim (Bool-cases (leb (dates x) t)) [
    | inl due ↦ rw due (
        omega (
          arith,
          length-woken (insert_by (ready policy) keys x rs) ws,
          length-insert_by (ready policy) keys x rs,
        ))
    | inr early ↦ rw early refl
  ]

-- The order depends on the keys of the members alone.
pub NoneAbove-frame :
    (o : Priority) (f g : Ptr → ℕ) (b : ℕ) (xs : List Ptr)
    → ((a : Ptr) → has a xs ≡ true → g a ≡ f a)
    → NoneAbove o f b xs
    → NoneAbove o g b xs
NoneAbove-frame o f g b [] same n = tt
NoneAbove-frame o f g b (x ∷ xs) same n = (
  subst (λ y. o.is_gt_priority y b ≡ false) (sym (same x (ground arith))) n.0,
  NoneAbove-frame o f g b xs (λ a i. same a (ground arith)) n.1,
)

pub IsSorted-frame :
    (o : Priority) (f g : Ptr → ℕ) (xs : List Ptr)
    → ((a : Ptr) → has a xs ≡ true → g a ≡ f a)
    → IsSorted o f xs
    → IsSorted o g xs
IsSorted-frame o f g [] same s = tt
IsSorted-frame o f g (x ∷ xs) same s = (
  subst (λ y. NoneAbove o g y xs) (sym (same x (ground arith)))
      (NoneAbove-frame o f g (f x) xs (λ a i. same a (ground arith)) s.0),
  IsSorted-frame o f g xs (λ a i. same a (ground arith)) s.1,
)

-- A context in neither queue can be written.
module _ (image : Image) (policy : Policy) (k : Kernel) (p : Ptr) (c : Context)
    (rs ws : List Ptr) where
  pub write-other :
      (a : Ptr) (xs : List Ptr) → has p xs ≡ false → has a xs ≡ true → write k.mem p c a ≡ k.mem a
  unfolding write
  write-other a xs out i = elim (Bool-cases (a == p)) [
    | inl at ↦ let e : a ≡ p = ground arith in absurd (ground (arith, ap (λ b. has b xs) e))
    | inr off ↦ rw off refl
  ]

  Holds-other :
      (h : Heap) (xs : List Ptr)
      → has p xs ≡ false
      → Holds k.mem h xs
      → Holds (write k.mem p c) h xs
  Holds-other h xs out is = record {
    chain =
        IsChain-frame k.mem (write k.mem p c) h.head xs is.chain
          λ a i. ap next_of (write-other a xs out i);
    size = is.size;
    bounded = is.bounded;
  }

  IsSorted-other :
      (o : Priority) (xs : List Ptr)
      → has p xs ≡ false
      → IsSorted o (key o k.mem) xs
      → IsSorted o (key o (write k.mem p c)) xs
  IsSorted-other o xs out s =
      IsSorted-frame o (key o k.mem) (key o (write k.mem p c)) xs
        (λ a i. ap o.get_priority (write-other a xs out i)) s

  pub Queues-other :
      has p rs ≡ false
      → has p ws ≡ false
      → Queues image policy k rs ws
      → Queues image policy (record k { mem = write k.mem p c }) rs ws
  Queues-other out_r out_w q = record {
    ready_is = Holds-other k.ready_heap rs out_r q.ready_is;
    waiting_is = Holds-other k.waiting_heap ws out_w q.waiting_is;
    ready_sorted = IsSorted-other (ready policy) rs out_r q.ready_sorted;
    waiting_sorted = IsSorted-other waiting ws out_w q.waiting_sorted;
    apart = q.apart;
    room = q.room;
  }
