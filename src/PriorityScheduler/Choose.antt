-- ===== src/PriorityScheduler/Choose.antt =====
-- `sched_choose_next` and `sched_maybe_preempt` (educrtos/priority_scheduler.c) on the two lists.
use mathlib.Core.Path.{subst}
use rtas2021_artifact.Base.{
  ℕ, suc, ◌+◌, ◌<◌, ◌≡◌, refl, ◌≢◌, Bool, true, false, List, [], ◌∷◌, arith, has, length, ◌==◌,
  Bool-cases, inl, inr, Returns, returns, weaken, bind, if◌then◌else◌,
}
use rtas2021_artifact.Store.{Ptr, null, Store}
use rtas2021_artifact.Queue.Chain.{load-ok}
use rtas2021_artifact.Queue.Sorted.{NoneAbove, NoneAbove-trans, insert_by, insert_by-below}
use rtas2021_artifact.Queue.Remove.{get_first-cons, remove_elt-cons}
use rtas2021_artifact.Image.{Image}
use rtas2021_artifact.Kernel.{Kernel, context_is_idle, context_idle}
use rtas2021_artifact.PriorityScheduler.{
  Policy, ready, choose_next, remove_ready, maybe_preempt, ready_is_gt_priority, ready_get_priority,
}
use rtas2021_artifact.PriorityScheduler.Queues.{
  IsImage, Queues, Requeued, Requeued-refl, Requeued-trans, key, key-same, insert_ready-Queues,
}

-- The first of a list, or the idle context; and the others.
abbrev pub first_or : Ptr → List Ptr → Ptr
first_or idle [] = idle
first_or idle (x ∷ xs) = x

abbrev pub others : List Ptr → List Ptr
others [] = []
others (x ∷ xs) = xs

module _ (image : Image) (policy : Policy) (ok_image : IsImage image) (k : Kernel)
    (ws : List Ptr) where
  -- The context to run next, and the queues without it: none of those that are left ready has a
  -- higher priority.
  pub record Chosen (next : Ptr) (rs : List Ptr) (r : Ptr × Kernel) : Type 0 where
    pub next_is : r.0 ≡ next
    pub queues : Queues image policy r.1 rs ws
    pub requeued : Requeued k r.1
    pub highest :
        NoneAbove (ready policy) (key (ready policy) k.mem) (key (ready policy) k.mem next) rs

  remove_ready-Chosen :
      (x : Ptr) (xs : List Ptr)
      → Queues image policy k (x ∷ xs) ws
      → Returns (Chosen x xs) (remove_ready image policy k)
  unfolding remove_ready
  remove_ready-Chosen x xs q =
      bind (remove_elt-cons k.mem k.ready_heap x xs q.ready_is) λ (p, h) (e, is). returns (record {
        next_is = e;
        queues = record {
          ready_is = is;
          waiting_is = q.waiting_is;
          ready_sorted = q.ready_sorted.1;
          waiting_sorted = q.waiting_sorted;
          apart = λ a i. q.apart a (ground arith);
          room = omega (arith, q.room);
        };
        requeued = record { rest = refl; kept = λ a. refl };
        highest = q.ready_sorted.0;
      })

  -- `sched_choose_next` returns the first ready context and takes it off the queue, or the idle
  -- context if none is ready; no context that stays ready has a higher priority.
  pub choose_next-Chosen :
      (rs : List Ptr)
      → Queues image policy k rs ws
      → Returns (Chosen (first_or (context_idle image) rs) (others rs)) (choose_next image policy k)
  unfolding choose_next
  choose_next-Chosen [] q =
      rw none_ready
        (returns (record { next_is = refl; queues = q; requeued = Requeued-refl k; highest = tt }))
    where
      none_ready : (k.ready_heap.size == 0) ≡ true
      none_ready = ground (arith, q.ready_is.size)
  choose_next-Chosen (x ∷ xs) q = rw more (remove_ready-Chosen x xs q)
    where
      more : (k.ready_heap.size == 0) ≡ false
      more = ground (arith, q.ready_is.size)

-- Whether the running context gives way to the first ready one, what runs then, and what is ready.
module _ (policy : Policy) (keys : Ptr → ℕ) (p : Ptr) where
  abbrev pub gives_way : List Ptr → Bool
  gives_way [] = false
  gives_way (x ∷ xs) = ready_is_gt_priority policy (keys x) (keys p)

  abbrev pub runs : List Ptr → Ptr
  runs rs = if gives_way rs then first_or p rs else p

  abbrev pub stays_ready : List Ptr → List Ptr
  stays_ready rs = if gives_way rs then insert_by (ready policy) keys p (others rs) else rs

ready_parts :
    (policy : Policy)
    → ((m : Store) (q : Ptr) → ready_get_priority policy (m q) ≡ key (ready policy) m q)
      × ((a b : ℕ) → ready_is_gt_priority policy a b ≡ (ready policy).is_gt_priority a b)
unfolding ready
ready_parts policy = (λ m q. refl, λ a b. refl)

module _ (image : Image) (policy : Policy) (ok_image : IsImage image) (k : Kernel) (p : Ptr)
    (ws : List Ptr) where
  abbrev keys : Ptr → ℕ
  keys = key (ready policy) k.mem

  maybe_preempt-cons :
      (x : Ptr) (xs : List Ptr)
      → (p == image.idle_ctx_array) ≡ false
      → p ≢ null
      → has p (x ∷ xs) ≡ false
      → has p ws ≡ false
      → suc (length xs) + length ws < image.nb_contexts
      → Queues image policy k (x ∷ xs) ws
      → Returns
          (Chosen image policy ok_image k ws
            (runs policy keys p (x ∷ xs))
            (stays_ready policy keys p (x ∷ xs)))
          (maybe_preempt image policy p k)
  unfolding maybe_preempt context_is_idle
  maybe_preempt-cons x xs busy np new_r new_w room q =
      rw
        (
          busy,
          more,
          load-ok p k.mem np,
          get_first-cons k.mem k.ready_heap x xs q.ready_is,
          load-ok x k.mem q.ready_is.chain.1,
          (ready_parts policy).0 k.mem p,
          (ready_parts policy).0 k.mem x,
        )
        (elim (Bool-cases above) [
          | inl higher ↦ rw higher (
              bind (insert_ready-Queues image policy ok_image k p (x ∷ xs) ws np new_r new_w room q)
                λ k' (q', r). swap higher k' q' r)
          | inr lower ↦ rw lower (
              returns (record {
                next_is = refl;
                queues = q;
                requeued = Requeued-refl k;
                highest = settled lower;
              }))
        ])
    where
      more : (k.ready_heap.size == 0) ≡ false
      more = ground (arith, q.ready_is.size)

      above : Bool
      above = ready_is_gt_priority policy (keys x) (keys p)

      settled : above ≡ false → NoneAbove (ready policy) keys (keys p) (x ∷ xs)
      settled lower =
          let below = rw ((ready_parts policy).1 (keys x) (keys p)) at lower in
          (below, NoneAbove-trans (ready policy) keys (keys x) (keys p) xs below q.ready_sorted.0)

      swap :
          above ≡ true
          → (k' : Kernel) → Queues image policy k' (insert_by (ready policy) keys p (x ∷ xs)) ws
          → Requeued k k'
          → Returns
              (Chosen image policy ok_image k ws x (insert_by (ready policy) keys p xs))
              (remove_ready image policy k')
      swap higher k' q' r =
          let passed = rw ((ready_parts policy).1 (keys x) (keys p)) at higher in
          let behind =
            insert_by-below (ready policy) keys p x xs
              ((ready policy).gt_asym (keys x) (keys p) passed) in
          let same = key-same (ready policy) k.mem k'.mem r.kept in
          weaken
            (remove_ready-Chosen image policy ok_image k' ws x (insert_by (ready policy) keys p xs)
              (rw behind at q'))
            λ out c. record {
              next_is = c.next_is;
              queues = c.queues;
              requeued = Requeued-trans k k' out.1 r c.requeued;
              highest =
                  subst (λ f. NoneAbove (ready policy) f (f x) (insert_by (ready policy) keys p xs))
                    same c.highest;
            }

  -- `sched_maybe_preempt` of a context that is not idle and in no queue returns it, or the first
  -- ready context if that has a higher priority, and then queues the context; none that is ready
  -- has a higher priority than the one returned.
  pub maybe_preempt-Chosen :
      (rs : List Ptr)
      → (p == image.idle_ctx_array) ≡ false
      → p ≢ null
      → has p rs ≡ false
      → has p ws ≡ false
      → length rs + length ws < image.nb_contexts
      → Queues image policy k rs ws
      → Returns
          (Chosen image policy ok_image k ws (runs policy keys p rs) (stays_ready policy keys p rs))
          (maybe_preempt image policy p k)
  unfolding maybe_preempt context_is_idle
  maybe_preempt-Chosen [] busy np new_r new_w room q =
      rw (busy, none_ready)
        (returns (record { next_is = refl; queues = q; requeued = Requeued-refl k; highest = tt }))
    where
      none_ready : (k.ready_heap.size == 0) ≡ true
      none_ready = ground (arith, q.ready_is.size)
  maybe_preempt-Chosen (x ∷ xs) busy np new_r new_w room q =
      maybe_preempt-cons x xs busy np new_r new_w room q
