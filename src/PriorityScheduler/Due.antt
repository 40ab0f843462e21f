-- ===== src/PriorityScheduler/Due.antt =====
-- Which contexts `sched_wake_tasks` (educrtos/priority_scheduler.c) wakes up.
use rtas2021_artifact.Base.{
  ℕ, ◌≡◌, refl, true, false, not, List, [], ◌∷◌, arith, has, ◌==◌, leb, ◌||◌, Bool-cases, inl, inr,
  Returns, weaken, ap,
}
use rtas2021_artifact.Store.{Ptr}
use rtas2021_artifact.Queue.Sorted.{NoneAbove, IsSorted}
use rtas2021_artifact.Image.{Image}
use rtas2021_artifact.Kernel.{Kernel}
use rtas2021_artifact.PriorityScheduler.{Policy, waiting, ready, wake_tasks}
use rtas2021_artifact.PriorityScheduler.Queues.{IsImage, Queues, key}
use rtas2021_artifact.PriorityScheduler.Waiting.{wakeup}
use rtas2021_artifact.PriorityScheduler.Wake.{woken, still_waiting, wake_tasks-Woken}
use rtas2021_artifact.PriorityScheduler.Members.{has-woken}

module _ (policy : Policy) (keys dates : Ptr → ℕ) (t : ℕ) (a : Ptr) where
  abbrev remaining : List Ptr → List Ptr
  remaining = still_waiting policy keys dates t

  -- Nothing in a list with no date before `b` is due, if `b` is not.
  NoneAbove-late :
      (b : ℕ) (ws : List Ptr)
      → NoneAbove waiting dates b ws
      → leb b t ≡ false
      → has a ws ≡ true
      → leb (dates a) t ≡ false
  unfolding waiting
  NoneAbove-late b [] n late i = absurd (ground arith)
  NoneAbove-late b (x ∷ ws) n late i = elim (Bool-cases (a == x)) [
    | inl at ↦ let e : a ≡ x = ground arith in rw e (ground (arith, n.0))
    | inr off ↦ NoneAbove-late b ws n.1 late (ground arith)
  ]

  remaining-late :
      (ws : List Ptr)
      → IsSorted waiting dates ws
      → has a (remaining ws) ≡ true
      → leb (dates a) t ≡ false
  remaining-late [] s i = absurd (ground arith)
  remaining-late (x ∷ ws) s i = elim (Bool-cases (leb (dates x) t)) [
    | inl due ↦ remaining-late ws s.1 (ground arith)
    | inr late ↦ elim (Bool-cases (a == x)) [
      | inl at ↦ let e : a ≡ x = ground arith in rw e late
      | inr off ↦ NoneAbove-late (dates x) ws s.0 late (ground arith)
    ]
  ]

  late-remaining :
      (ws : List Ptr) → has a ws ≡ true → leb (dates a) t ≡ false → has a (remaining ws) ≡ true
  late-remaining [] i late = i
  late-remaining (x ∷ ws) i late = elim (Bool-cases (leb (dates x) t)) [
    | inl due ↦ elim (Bool-cases (a == x)) [
      | inl at ↦
          let e : a ≡ x = ground arith in
          absurd (ground (arith, late, due, ap (λ b. leb (dates b) t) e))
      | inr off ↦ ground (arith, late-remaining ws (ground arith) late)
    ]
    | inr early ↦ ground arith
  ]

  -- Which of the list stay, and that none is added.
  pub remaining_iff :
      (ws : List Ptr)
      → IsSorted waiting dates ws
      → has a ws ≡ true
      → has a (remaining ws) ≡ not (leb (dates a) t)
  remaining_iff ws s i = elim (Bool-cases (leb (dates a) t)) [
    | inl due ↦ ground (arith, due, remaining-late ws s)
    | inr late ↦ ground (arith, late, late-remaining ws i late)
  ]

  pub remaining-new : (ws : List Ptr) → has a ws ≡ false → has a (remaining ws) ≡ false
  remaining-new [] out = refl
  remaining-new (x ∷ ws) out = elim (Bool-cases (leb (dates x) t)) [
    | inl due ↦ ground (arith, due, remaining-new ws (ground arith))
    | inr late ↦ ground (arith, late)
  ]

-- Where the contexts are that waited: those whose date has come in the ready queue, and the others in
-- the waiting queue.
pub record Parted (image : Image) (policy : Policy) (k : Kernel) (t : ℕ) (rs ws : List Ptr)
    (k' : Kernel) : Type 0 where
  pub ready_now : List Ptr
  pub waiting_now : List Ptr
  pub queues : Queues image policy k' ready_now waiting_now
  pub wakes : (a : Ptr) → has a ws ≡ true → has a ready_now ≡ leb (wakeup k.mem a) t
  pub waits : (a : Ptr) → has a ws ≡ true → has a waiting_now ≡ not (leb (wakeup k.mem a) t)
  pub stays : (a : Ptr) → has a rs ≡ true → has a ready_now ≡ true

-- `sched_wake_tasks` returns with sound queues; a context that waited is ready then if and only if its
-- date has come, and otherwise it waits on; those that were ready still are.
pub wake_tasks-Parted :
    (image : Image) (policy : Policy)
    → IsImage image
    → (k : Kernel) (t : ℕ) (rs ws : List Ptr) → Queues image policy k rs ws
    → Returns (Parted image policy k t rs ws) (wake_tasks image policy t k)
unfolding waiting
wake_tasks-Parted image policy ok_image k t rs ws q =
    weaken (wake_tasks-Woken image policy ok_image k t rs ws q) λ k' w. record {
      ready_now = woken policy keys dates t rs ws;
      waiting_now = still_waiting policy keys dates t ws;
      queues = w.queues;
      wakes = λ a i. ground (arith, members a, stays a i, w.queues.apart a, q.apart a);
      waits = stays;
      stays =
          λ a i. ground (arith, members a, remaining-new policy keys dates t a ws (q.apart a i));
    }
  where
    keys : Ptr → ℕ
    keys = key (ready policy) k.mem

    dates : Ptr → ℕ
    dates = wakeup k.mem

    members :
        (a : Ptr)
        → (has a (woken policy keys dates t rs ws) || has a (still_waiting policy keys dates t ws))
          ≡ (has a rs || has a ws)
    members a = has-woken policy keys dates t a rs ws

    stays :
        (a : Ptr)
        → has a ws ≡ true
        → has a (still_waiting policy keys dates t ws) ≡ not (leb (dates a) t)
    stays a i = remaining_iff policy keys dates t a ws q.waiting_sorted i
