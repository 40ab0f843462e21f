-- ===== src/PriorityScheduler/Best.antt =====
-- The priority of the context that the scheduler chooses against those of the others
-- (educrtos/priority_scheduler.c).
use mathlib.Core.Path.{subst}
use rtas2021_artifact.Base.{
  ℕ, ◌≡◌, true, false, ◌||◌, List, [], ◌∷◌, arith, has, ◌==◌, Bool-cases, inl, inr,
}
use rtas2021_artifact.Store.{Ptr}
use rtas2021_artifact.Queue.{Priority}
use rtas2021_artifact.Queue.Sorted.{NoneAbove, gt_refl, insert_by, has-insert_by}
use rtas2021_artifact.PriorityScheduler.{Policy, ready}
use rtas2021_artifact.PriorityScheduler.Choose.{first_or, others, runs, stays_ready, gives_way}

pub NoneAbove-has :
    (o : Priority) (f : Ptr → ℕ) (b : ℕ) (a : Ptr) (xs : List Ptr)
    → NoneAbove o f b xs
    → has a xs ≡ true
    → o.is_gt_priority (f a) b ≡ false
NoneAbove-has o f b a [] n i = absurd (ground arith)
NoneAbove-has o f b a (x ∷ xs) n i = elim (Bool-cases (a == x)) [
  | inl at ↦ let e : x ≡ a = ground arith in subst (λ z. o.is_gt_priority (f z) b ≡ false) e n.0
  | inr off ↦ NoneAbove-has o f b a xs n.1 (ground arith)
]

module _ (policy : Policy) (keys : Ptr → ℕ) where
  abbrev pub IsBest : Ptr → Ptr → Type 0
  IsBest q a = (ready policy).is_gt_priority (keys a) (keys q) ≡ false

  pub same-IsBest : (q a : Ptr) → (a == q) ≡ true → IsBest q a
  same-IsBest q a at =
      let e : q ≡ a = ground arith in subst (λ z. IsBest q z) e (gt_refl (ready policy) (keys q))

  -- Against the choice of the first context, and against the one that runs on or gives way.
  pub first-IsBest :
      (idle a : Ptr) (rs : List Ptr)
      → NoneAbove (ready policy) keys (keys (first_or idle rs)) (others rs)
      → has a rs ≡ true
      → IsBest (first_or idle rs) a
  first-IsBest idle a [] n i = absurd (ground arith)
  first-IsBest idle a (x ∷ xs) n i = elim (Bool-cases (a == x)) [
    | inl at ↦ same-IsBest x a at
    | inr off ↦ NoneAbove-has (ready policy) keys (keys x) a xs n (ground arith)
  ]

  pub runs-IsBest :
      (p a : Ptr) (rs : List Ptr)
      → NoneAbove (ready policy) keys (keys (runs policy keys p rs)) (stays_ready policy keys p rs)
      → ((a == p) || has a rs) ≡ true
      → IsBest (runs policy keys p rs) a
  runs-IsBest p a [] n i = same-IsBest p a (ground arith)
  runs-IsBest p a (x ∷ xs) n i = elim (Bool-cases (gives_way policy keys p (x ∷ xs))) [
    | inl higher ↦ elim (Bool-cases (a == x)) [
      | inl at ↦ rw higher (same-IsBest x a at)
      | inr off ↦ rw higher (
          NoneAbove-has (ready policy) keys (keys x) a (insert_by (ready policy) keys p xs)
            (rw higher at n) (ground (arith, has-insert_by (ready policy) keys a p xs)))
    ]
    | inr lower ↦ elim (Bool-cases (a == p)) [
      | inl at ↦ rw lower (same-IsBest p a at)
      | inr off ↦
          rw lower
            (NoneAbove-has (ready policy) keys (keys p) a (x ∷ xs) (rw lower at n) (ground arith))
    ]
  ]

pub first-busy :
    (idle q a : Ptr) (rs : List Ptr)
    → has idle rs ≡ false
    → has a rs ≡ true
    → (first_or q rs == idle) ≡ false
first-busy idle q a [] out i = absurd (ground arith)
first-busy idle q a (x ∷ xs) out i = ground arith

pub runs-busy :
    (policy : Policy) (keys : Ptr → ℕ) (idle p : Ptr) (rs : List Ptr)
    → has idle rs ≡ false
    → (p == idle) ≡ false
    → (runs policy keys p rs == idle) ≡ false
runs-busy policy keys idle p [] out busy = busy
runs-busy policy keys idle p (x ∷ xs) out busy =
    elim (Bool-cases (gives_way policy keys p (x ∷ xs))) [
      | inl higher ↦ rw higher (ground arith)
      | inr lower ↦ rw lower busy
    ]
