-- ===== src/PriorityScheduler/Wake.antt =====
-- `sched_wake_tasks` (educrtos/priority_scheduler.c) on the two lists.
use rtas2021_artifact.Base.{
  ℕ, zero, suc, ◌+◌, ◌<◌, ◌≡◌, true, false, List, [], ◌∷◌, arith, length, ◌==◌, leb, Bool-cases,
  inl, inr, ok, Returns, returns, weaken, bind, if◌then◌else◌,
}
use rtas2021_artifact.Store.{Ptr}
use rtas2021_artifact.Queue.{Heap}
use rtas2021_artifact.Queue.Chain.{Holds, load-ok}
use rtas2021_artifact.Queue.Sorted.{insert_by}
use rtas2021_artifact.Queue.Remove.{get_first-cons, remove_elt-cons}
use rtas2021_artifact.Image.{Image}
use rtas2021_artifact.Kernel.{Kernel}
use rtas2021_artifact.PriorityScheduler.{Policy, ready, wake_tasks, wake_loop, wake_one, is_due}
use rtas2021_artifact.PriorityScheduler.Queues.{
  IsImage, Queues, Requeued, Requeued-refl, Requeued-trans, key, key-same, insert_ready-Queues,
}
use rtas2021_artifact.PriorityScheduler.Waiting.{wakeup, wakeup-same}

-- The specification: the lists after the contexts at the front of the waiting list whose date has
-- come were inserted into the ready list, one after the other.
module _ (policy : Policy) (keys dates : Ptr → ℕ) (curtime : ℕ) where
  abbrev pub woken : List Ptr → List Ptr → List Ptr
  woken rs [] = rs
  woken rs (x ∷ ws) =
      let rest = woken (insert_by (ready policy) keys x rs) ws in
      if leb (dates x) curtime then rest else rs

  abbrev pub still_waiting : List Ptr → List Ptr
  still_waiting [] = []
  still_waiting (x ∷ ws) =
      let rest = still_waiting ws in if leb (dates x) curtime then rest else x ∷ ws

module _ (image : Image) (policy : Policy) (ok_image : IsImage image) where
  pub record Woken (k : Kernel) (curtime : ℕ) (rs ws : List Ptr) (k' : Kernel) : Type 0 where
    pub queues :
        Queues image policy k'
          (woken policy (key (ready policy) k.mem) (wakeup k.mem) curtime rs ws)
          (still_waiting policy (key (ready policy) k.mem) (wakeup k.mem) curtime ws)
    pub requeued : Requeued k k'

  module _ (k : Kernel) (rs ws : List Ptr) where
    is_due-nil : Queues image policy k rs [] → (t : ℕ) → is_due image policy t k ≡ ok false
    unfolding is_due
    is_due-nil q t = rw q.waiting_is.size

    is_due-cons :
        (x : Ptr)
        → Queues image policy k rs (x ∷ ws)
        → (t : ℕ) → is_due image policy t k ≡ ok (leb (wakeup k.mem x) t)
    unfolding is_due
    is_due-cons x q t = rw (
      more,
      get_first-cons k.mem k.waiting_heap x ws q.waiting_is,
      load-ok x k.mem q.waiting_is.chain.1,
    )
      where
        more : (k.waiting_heap.size == 0) ≡ false
        more = ground (arith, q.waiting_is.size)

    -- The first waiting context moves to the ready queue.
    wake_one-Queues :
        (x : Ptr)
        → Queues image policy k rs (x ∷ ws)
        → Returns
            (λ k'.
              Queues image policy k' (insert_by (ready policy) (key (ready policy) k.mem) x rs) ws
              × Requeued k k')
            (wake_one image policy k)
    unfolding wake_one
    wake_one-Queues x q =
        bind (remove_elt-cons k.mem k.waiting_heap x ws q.waiting_is) λ (p, h) (e, is).
          rw (e, fits)
            (weaken
              (insert_ready-Queues image policy ok_image (record k { waiting_heap = h }) x rs ws
                q.waiting_is.chain.1 (ground (arith, q.apart x)) q.waiting_is.chain.2
                (omega (arith, q.room)) (popped h is))
              λ k' (queues, r). (queues, record { rest = r.rest; kept = r.kept }))
      where
        fits : leb k.ready_heap.size image.nb_contexts ≡ true
        fits = ground (arith, q.ready_is.size, q.room)

        popped :
            (h : Heap)
            → Holds k.mem h ws
            → Queues image policy (record k { waiting_heap = h }) rs ws
        popped h is = record {
          ready_is = q.ready_is;
          waiting_is = is;
          ready_sorted = q.ready_sorted;
          waiting_sorted = q.waiting_sorted.1;
          apart = λ a i. ground (arith, q.apart a);
          room = omega (arith, q.room);
        }

  Woken-cons :
      (k k' k'' : Kernel) (t : ℕ) (x : Ptr) (rs ws : List Ptr)
      → leb (wakeup k.mem x) t ≡ true
      → Requeued k k'
      → Woken k' t (insert_by (ready policy) (key (ready policy) k.mem) x rs) ws k''
      → Woken k t rs (x ∷ ws) k''
  Woken-cons k k' k'' t x rs ws due r w = record {
    queues = rw due (
        rw (key-same (ready policy) k.mem k'.mem r.kept, wakeup-same k.mem k'.mem r.kept) at
          w.queues);
    requeued = Requeued-trans k k' k'' r w.requeued;
  }

  wake_loop-Woken :
      (fuel : ℕ) (k : Kernel) (t : ℕ) (rs ws : List Ptr)
      → length ws < fuel
      → Queues image policy k rs ws
      → Returns (Woken k t rs ws) (wake_loop image policy fuel t k)
  unfolding wake_loop
  wake_loop-Woken zero k t rs ws enough q = absurd (omega arith)
  wake_loop-Woken (suc fuel) k t rs [] enough q =
      rw (is_due-nil k rs [] q t) (returns (record { queues = q; requeued = Requeued-refl k }))
  wake_loop-Woken (suc fuel) k t rs (x ∷ ws) enough q =
      rw (is_due-cons k rs ws x q t) (elim (Bool-cases (leb (wakeup k.mem x) t)) [
        | inl due ↦ rw due (
            bind (wake_one-Queues k rs ws x q) λ k' (queues, r).
              weaken (wake_loop-Woken fuel k' t _ ws (omega arith) queues)
                λ k'' w. Woken-cons k k' k'' t x rs ws due r w)
        | inr early ↦
            rw early (returns (record { queues = rw early q; requeued = Requeued-refl k }))
      ])

  -- `sched_wake_tasks` returns, and moves to the ready queue exactly the contexts at the front of
  -- the waiting queue whose wakeup date has come; all else stays as it was but the links.
  pub wake_tasks-Woken :
      (k : Kernel) (t : ℕ) (rs ws : List Ptr)
      → Queues image policy k rs ws
      → Returns (Woken k t rs ws) (wake_tasks image policy t k)
  unfolding wake_tasks
  wake_tasks-Woken k t rs ws q =
      wake_loop-Woken (k.waiting_heap.size + 1) k t rs ws (omega (arith, q.waiting_is.size)) q
