-- ===== src/PriorityScheduler.antt =====
-- The earliest-deadline-first and fixed-priority schedulers (educrtos/priority_scheduler.c), over
-- the linked queues.
pub mod Queues
pub mod Waiting
pub mod Choose
pub mod Wake
pub mod Due
pub mod Best
pub mod Members
pub mod Kept
pub mod States
pub mod Given
pub mod Forked
pub mod Sound
pub mod Readied
pub mod Start
pub mod Started
use rtas2021_artifact.Base.{
  ℕ, zero, suc, ◌+◌, ◌-◌, ◌≡◌, refl, Bool, true, false, not, arith, ltb, leb, ◌==◌, if◌then◌else◌,
  Run, ok, out_of_fuel, ◌>>=◌, ◌>>◌, assert, codes, [],
}
use rtas2021_artifact.Store.{Ptr, Context, Store, load, store, with_next, with_priority}
use rtas2021_artifact.Queue.{Priority, Heap, heap_init, insert_elt, remove_elt, get_first}
use rtas2021_artifact.Image.{Image, task_at}
use rtas2021_artifact.Kernel.{Kernel, Scheduler, context_idle, context_is_idle, timer_wake_at}

-- EDF_SCHEDULING or FP_SCHEDULING.
pub data Policy : Type 0 where
  edf fp : Policy

-- `defined(EDF_SCHEDULING)`.
unfoldable pub is_edf : Policy → Bool
is_edf edf = true
is_edf fp = false

unfoldable pub waiting_get_priority : Context → ℕ
waiting_get_priority c = c.sched_context.wakeup_date

unfoldable pub waiting_is_gt_priority : ℕ → ℕ → Bool
waiting_is_gt_priority a b = ltb a b

pub ready_get_priority : Policy → Context → ℕ
ready_get_priority edf c = c.sched_context.deadline
ready_get_priority fp c = c.sched_context.priority

pub ready_is_gt_priority : Policy → ℕ → ℕ → Bool
ready_is_gt_priority edf a b = ltb a b
ready_is_gt_priority fp a b = ltb b a

lt_asym : (a b : ℕ) → ltb a b ≡ true → ltb b a ≡ false
lt_asym a b h = ground arith

ge_trans : (a b c : ℕ) → ltb b a ≡ false → ltb c b ≡ false → ltb c a ≡ false
ge_trans a b c h k = ground arith

-- INSTANTIATE_HEAP(waiting): sorted by wakeup date, the earliest first.
unfoldable pub waiting : Priority
unfolding waiting_get_priority waiting_is_gt_priority lt_asym ge_trans
waiting = record {
  get_priority = waiting_get_priority;
  is_gt_priority = waiting_is_gt_priority;
  priority-next = λ q c. refl;
  gt_asym = lt_asym;
  ge_trans = ge_trans;
}

ready_priority-next :
    (policy : Policy) (q : Ptr) (c : Context)
    → ready_get_priority policy (with_next q c) ≡ ready_get_priority policy c
unfolding ready_get_priority
ready_priority-next edf q c = refl
ready_priority-next fp q c = refl

ready_asym :
    (policy : Policy) (a b : ℕ)
    → ready_is_gt_priority policy a b ≡ true
    → ready_is_gt_priority policy b a ≡ false
unfolding ready_is_gt_priority
ready_asym edf a b h = ground arith
ready_asym fp a b h = ground arith

ready_trans :
    (policy : Policy) (a b c : ℕ)
    → ready_is_gt_priority policy b a ≡ false
    → ready_is_gt_priority policy c b ≡ false
    → ready_is_gt_priority policy c a ≡ false
unfolding ready_is_gt_priority
ready_trans edf a b c h k = ground arith
ready_trans fp a b c h k = ground arith

-- INSTANTIATE_HEAP(ready): sorted by deadline, the earliest first, or by priority, the highest first.
pub ready : Policy → Priority
unfolding ready_get_priority ready_is_gt_priority
ready policy = record {
  get_priority = ready_get_priority policy;
  is_gt_priority = ready_is_gt_priority policy;
  priority-next = ready_priority-next policy;
  gt_asym = ready_asym policy;
  ge_trans = ready_trans policy;
}

module _ (image : Image) (policy : Policy) where
  pub insert_ready : Ptr → Kernel → Run Kernel
  insert_ready ctx k = do
    (h, m) ← insert_elt (ready policy) ctx k.ready_heap k.mem
    ok (record k { ready_heap = h; mem = m })

  pub remove_ready : Kernel → Run (Ptr × Kernel)
  remove_ready k = do
    (ctx, h) ← remove_elt k.ready_heap k.mem
    ok (ctx, record k { ready_heap = h })

  pub set_waiting : Ptr → Kernel → Run Kernel
  set_waiting ctx k = do
    assert (leb k.waiting_heap.size image.nb_contexts)
        (codes "Assertion waiting_heap.size <= user_tasks_image.nb_contexts failed")
    (h, m) ← insert_elt waiting ctx k.waiting_heap k.mem
    first ← get_first h
    c ← load first m
    ok (timer_wake_at c.sched_context.wakeup_date (record k { waiting_heap = h; mem = m }))

  -- Whether the loop of `sched_wake_tasks` goes on.
  pub is_due : ℕ → Kernel → Run Bool
  is_due curtime k = if k.waiting_heap.size == 0 then ok false else do
    first ← get_first k.waiting_heap
    c ← load first k.mem
    ok (leb c.sched_context.wakeup_date curtime)

  pub wake_one : Kernel → Run Kernel
  wake_one k = do
    (ctx, h) ← remove_elt k.waiting_heap k.mem
    assert (leb k.ready_heap.size image.nb_contexts)
        (codes "Assertion ready_heap.size <= user_tasks_image.nb_contexts failed")
    insert_ready ctx (record k { waiting_heap = h })

  pub wake_loop : ℕ → ℕ → Kernel → Run Kernel
  wake_loop zero curtime k = out_of_fuel
  wake_loop (suc fuel) curtime k = do
    due ← is_due curtime k
    let onwards = wake_one k >>= wake_loop fuel curtime
    if due then onwards else ok k

  pub wake_tasks : ℕ → Kernel → Run Kernel
  wake_tasks curtime k = wake_loop (k.waiting_heap.size + 1) curtime k

  pub maybe_preempt : Ptr → Kernel → Run (Ptr × Kernel)
  maybe_preempt ctx k = do
    assert (not (context_is_idle image ctx)) (codes "Assertion !(context_is_idle(ctx)) failed")
    if k.ready_heap.size == 0 then ok (ctx, k) else do
      c ← load ctx k.mem
      first ← get_first k.ready_heap
      f ← load first k.mem
      if ready_is_gt_priority policy (ready_get_priority policy f) (ready_get_priority policy c)
          then insert_ready ctx k >>= remove_ready
          else ok (ctx, k)

  pub choose_next : Kernel → Run (Ptr × Kernel)
  choose_next k = if k.ready_heap.size == 0 then ok (context_idle image, k) else remove_ready k

  unfoldable pub insert_duplicated_context : Ptr → Ptr → Kernel → Run Kernel
  insert_duplicated_context orig new k = insert_ready new k

  -- The idle context gets the lowest priority under FP_SCHEDULING.
  pub lower_idle : Policy → Kernel → Run Kernel
  lower_idle edf k = ok k
  lower_idle fp k = do
    c ← load image.idle_ctx_array k.mem
    m ← store image.idle_ctx_array (with_priority 0 c) k.mem
    ok (record k { mem = m })

  pub take_priority : Policy → Ptr → ℕ → Kernel → Run Kernel
  take_priority edf ctx priority k = ok k
  take_priority fp ctx priority k = do
    c ← load ctx k.mem
    m ← store ctx (with_priority priority c) k.mem
    ok (record k { mem = m })

  -- The loop over the tasks from `i` on, with the inline assembly's check of the index.
  pub ready_tasks : ℕ → ℕ → Kernel → Run Kernel
  ready_tasks zero i k = ok k
  ready_tasks (suc rounds) i k = do
    assert (ltb i image.nb_tasks) []
    task ← task_at image i
    k' ← take_priority policy task.context task.priority k
    k'' ← insert_ready task.context k'
    ready_tasks rounds (i + 1) k''

  pub init : Kernel → Run Kernel
  init k = do
    k' ← lower_idle policy (record k { ready_heap = heap_init; waiting_heap = heap_init })
    ready_tasks image.nb_tasks 0 k'

  -- The implementation of scheduler.h.
  abbrev pub priority_scheduler : Scheduler
  priority_scheduler = record {
    edf_scheduling = is_edf policy;
    sched_set_waiting = set_waiting;
    sched_wake_tasks = wake_tasks;
    sched_maybe_preempt = maybe_preempt;
    sched_choose_next = choose_next;
    sched_insert_duplicated_context = insert_duplicated_context;
    scheduler_init = init;
  }
