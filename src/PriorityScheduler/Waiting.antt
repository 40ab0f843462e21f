-- ===== src/PriorityScheduler/Waiting.antt =====
-- `sched_set_waiting` (educrtos/priority_scheduler.c) on the waiting list, and the timer.
use mathlib.Core.Path.{fun_ext, ap}
use rtas2021_artifact.Base.{
  ℕ, suc, ◌+◌, ◌≤◌, ◌<◌, ◌≡◌, refl, ◌≢◌, true, false, List, [], ◌∷◌, arith, has, length, leb, ok,
  Returns, returns, bind,
}
use rtas2021_artifact.Store.{Ptr, null, Store, SameButNext}
use rtas2021_artifact.Queue.{Heap, get_first}
use rtas2021_artifact.Queue.Chain.{Holds, load-ok}
use rtas2021_artifact.Queue.Sorted.{IsSorted, NoneAbove, insert_by, length-insert_by}
use rtas2021_artifact.Queue.Insert.{insert_elt-Inserted}
use rtas2021_artifact.Queue.Remove.{get_first-cons}
use rtas2021_artifact.Image.{Image}
use rtas2021_artifact.Kernel.{Kernel, timer_wake_at}
use rtas2021_artifact.PriorityScheduler.{
  Policy, waiting, set_waiting, waiting_get_priority, waiting_is_gt_priority,
}
use rtas2021_artifact.PriorityScheduler.Queues.{IsImage, Queues, Queues-blocked, key}

-- The date at which a context is to be woken up.
abbrev pub wakeup : Store → Ptr → ℕ
wakeup m q = (m q).sched_context.wakeup_date

pub wakeup-same : (m m' : Store) → SameButNext m m' → wakeup m' ≡ wakeup m
wakeup-same m m' same = fun_ext λ q. ap (λ c. c.sched_context.wakeup_date) (same q)

-- `date` is the least wakeup date of the contexts.
abbrev pub NoneBefore : Store → ℕ → List Ptr → Type 0
NoneBefore m date [] = Unit
NoneBefore m date (x ∷ xs) = (date ≤ wakeup m x) × NoneBefore m date xs

NoneBefore-NoneAbove :
    (m : Store) (date : ℕ) (xs : List Ptr)
    → NoneAbove waiting (key waiting m) date xs
    → NoneBefore m date xs
unfolding waiting waiting_get_priority waiting_is_gt_priority
NoneBefore-NoneAbove m date [] n = tt
NoneBefore-NoneAbove m date (x ∷ xs) n = (ground arith, NoneBefore-NoneAbove m date xs n.1)

key-wakeup : (m : Store) (q : Ptr) → key waiting m q ≡ wakeup m q
unfolding waiting waiting_get_priority
key-wakeup m q = refl

-- The queues after a context was blocked, with the timer at the earliest wakeup date of all that
-- wait: it is the date of one that waits, and none has an earlier one.
pub record Blocked (image : Image) (policy : Policy) (k : Kernel) (x : Ptr) (rs ws : List Ptr)
    (k' : Kernel) : Type 0 where
  pub queues : Queues image policy k' rs (insert_by waiting (key waiting k.mem) x ws)
  pub kept : SameButNext k.mem k'.mem
  pub rest : k' ≡ record k {
    waiting_heap = k'.waiting_heap;
    mem = k'.mem;
    next_wake_date = k'.next_wake_date;
  }
  pub first : Ptr
  pub first_waits : has first (insert_by waiting (key waiting k.mem) x ws) ≡ true
  pub date_of_first : k'.next_wake_date ≡ wakeup k'.mem first
  pub earliest : NoneBefore k'.mem k'.next_wake_date (insert_by waiting (key waiting k.mem) x ws)

first_of :
    (m : Store) (h : Heap) (xs : List Ptr) (n : ℕ)
    → Holds m h xs
    → length xs ≡ suc n
    → IsSorted waiting (key waiting m) xs
    → (x : Ptr) × (get_first h ≡ ok x)
      × (x ≢ null)
      × (has x xs ≡ true)
      × NoneBefore m (wakeup m x) xs
first_of m h [] n is e s = absurd (omega arith)
first_of m h (x ∷ xs) n is e s = (
  x,
  get_first-cons m h x xs is,
  is.chain.1,
  ground arith,
  (omega arith, rw (key-wakeup m x) at (NoneBefore-NoneAbove m (key waiting m x) xs s.0)),
)

module _ (image : Image) (policy : Policy) (ok_image : IsImage image) (k : Kernel) (x : Ptr)
    (rs ws : List Ptr) where
  set_waiting_rest :
      (h : Heap) (m : Store)
      → Queues image policy
          (record k { waiting_heap = h; mem = m })
          rs
          (insert_by waiting (key waiting k.mem) x ws)
      → (f : Ptr) × (get_first h ≡ ok f)
        × (f ≢ null)
        × (has f (insert_by waiting (key waiting k.mem) x ws) ≡ true)
        × NoneBefore m (wakeup m f) (insert_by waiting (key waiting k.mem) x ws)
  set_waiting_rest h m q =
      first_of m h (insert_by waiting (key waiting k.mem) x ws) (length ws) q.waiting_is
        (length-insert_by waiting (key waiting k.mem) x ws) q.waiting_sorted

  -- `sched_set_waiting` of a context that is in no queue returns, puts it into the waiting queue
  -- behind those that wake up no later, leaves the ready queue alone, and sets the timer to the
  -- earliest wakeup date of all that wait then: the date of one of them, and none has an earlier one.
  pub set_waiting-Blocked :
      x ≢ null
      → has x rs ≡ false
      → has x ws ≡ false
      → length rs + length ws < image.nb_contexts
      → Queues image policy k rs ws
      → Returns (Blocked image policy k x rs ws) (set_waiting image policy x k)
  unfolding set_waiting timer_wake_at
  set_waiting-Blocked nx new_r new_w room q = rw fits (
      bind
        (insert_elt-Inserted waiting k.mem k.waiting_heap x ws nx new_w
          (omega (arith, ok_image.small)) q.waiting_is)
        λ (h, m) i.
          let queues = Queues-blocked image policy ok_image k x rs ws nx new_r new_w room q h m i in
          let (f, first, nf, among, least) = set_waiting_rest h m queues in
          rw (first, load-ok f m nf)
            (returns (record {
              queues = record {
                ready_is = queues.ready_is;
                waiting_is = queues.waiting_is;
                ready_sorted = queues.ready_sorted;
                waiting_sorted = queues.waiting_sorted;
                apart = queues.apart;
                room = queues.room;
              };
              kept = i.kept;
              rest = refl;
              first = f;
              first_waits = among;
              date_of_first = refl;
              earliest = least;
            })))
    where
      fits : leb k.waiting_heap.size image.nb_contexts ≡ true
      fits = ground (arith, q.waiting_is.size)
