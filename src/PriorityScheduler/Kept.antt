-- ===== src/PriorityScheduler/Kept.antt =====
-- A context whose part for the scheduler stays the same can be written, wherever it is.
use mathlib.Core.Path.{fun_ext}
use rtas2021_artifact.Base.{◌≡◌, refl, List, arith, ◌==◌, Bool-cases, inl, inr, sym, ap, ◌∙◌}
use rtas2021_artifact.Store.{Ptr, Context, Store, write}
use rtas2021_artifact.Queue.{Heap}
use rtas2021_artifact.Queue.Chain.{Holds, IsChain-frame}
use rtas2021_artifact.Image.{Image}
use rtas2021_artifact.Kernel.{Kernel}
use rtas2021_artifact.PriorityScheduler.{
  Policy, edf, fp, waiting, ready, ready_get_priority, waiting_get_priority,
}
use rtas2021_artifact.PriorityScheduler.Queues.{Queues, key}

-- The priorities depend on that part alone.
pub ready_priority-sched :
    (policy : Policy) (c d : Context)
    → c.sched_context ≡ d.sched_context
    → (ready policy).get_priority c ≡ (ready policy).get_priority d
unfolding ready ready_get_priority
ready_priority-sched edf c d e = ap (λ s. s.deadline) e
ready_priority-sched fp c d e = ap (λ s. s.priority) e

waiting_priority-sched :
    (c d : Context)
    → c.sched_context ≡ d.sched_context
    → waiting.get_priority c ≡ waiting.get_priority d
unfolding waiting waiting_get_priority
waiting_priority-sched c d e = ap (λ s. s.wakeup_date) e

module _ (m : Store) (a : Ptr) (c : Context) (same : c.sched_context ≡ (m a).sched_context) where
  pub write-sched : (q : Ptr) → (write m a c q).sched_context ≡ (m q).sched_context
  unfolding write
  write-sched q = elim (Bool-cases (q == a)) [
    | inl at ↦ let e : q ≡ a = ground arith in rw at (same ∙ ap (λ b. (m b).sched_context) (sym e))
    | inr off ↦ rw off refl
  ]

  pub ready-key-kept : (policy : Policy) → key (ready policy) (write m a c) ≡ key (ready policy) m
  ready-key-kept policy =
      fun_ext λ q. ready_priority-sched policy (write m a c q) (m q) (write-sched q)

  waiting-key-kept : key waiting (write m a c) ≡ key waiting m
  waiting-key-kept = fun_ext λ q. waiting_priority-sched (write m a c q) (m q) (write-sched q)

  Holds-kept : (h : Heap) (xs : List Ptr) → Holds m h xs → Holds (write m a c) h xs
  Holds-kept h xs is = record {
    chain =
        IsChain-frame m (write m a c) h.head xs is.chain λ q i. ap (λ s. s.next) (write-sched q);
    size = is.size;
    bounded = is.bounded;
  }

pub Queues-kept :
    (image : Image) (policy : Policy) (k : Kernel) (a : Ptr) (c : Context) (rs ws : List Ptr)
    → c.sched_context ≡ (k.mem a).sched_context
    → Queues image policy k rs ws
    → Queues image policy (record k { mem = write k.mem a c }) rs ws
Queues-kept image policy k a c rs ws same q = record {
  ready_is = Holds-kept k.mem a c same k.ready_heap rs q.ready_is;
  waiting_is = Holds-kept k.mem a c same k.waiting_heap ws q.waiting_is;
  ready_sorted = rw (ready-key-kept k.mem a c same policy) q.ready_sorted;
  waiting_sorted = rw (waiting-key-kept k.mem a c same) q.waiting_sorted;
  apart = q.apart;
  room = q.room;
}
