-- ===== src/RoundRobin.antt =====
-- The round-robin scheduler (educrtos/round_robin_scheduler.c): a circular list of contexts.
pub mod Ring
pub mod Forked
pub mod Sound
pub mod Links
pub mod Turns
pub mod Started
pub mod Booted
use rtas2021_artifact.Base.{
  ℕ, zero, suc, false, ◌+◌, ◌-◌, [], ltb, ◌==◌, Run, ok, ◌>>=◌, ◌>>◌, assert, codes,
}
use rtas2021_artifact.Store.{Ptr, Store, load, set_next}
use rtas2021_artifact.Image.{Image, task_at}
use rtas2021_artifact.Kernel.{Kernel, Scheduler}

pub set_waiting : Ptr → Kernel → Run Kernel
set_waiting ctx k = ok k

pub wake_tasks : ℕ → Kernel → Run Kernel
wake_tasks curtime k = ok k

pub maybe_preempt : Ptr → Kernel → Run (Ptr × Kernel)
maybe_preempt ctx k = ok (ctx, k)

unfoldable pub choose_next : Kernel → Run (Ptr × Kernel)
choose_next k = do
  c ← load k.current k.mem
  ok (c.sched_context.next, record k { current = c.sched_context.next })

pub insert_duplicated_context : Ptr → Ptr → Kernel → Run Kernel
insert_duplicated_context orig new k = do
  o ← load orig k.mem
  n ← load new k.mem
  assert (o.sched_context.next == n.sched_context.next)
      (codes "Assertion orig->sched_context.next == new->sched_context.next failed")
  m ← set_next orig new k.mem
  ok (record k { mem = m })

module _ (image : Image) where
  -- The loop over the tasks from `i` on: `prev->next = task->context; prev = task->context`.
  unfoldable pub link_tasks : ℕ → ℕ → Ptr → Store → Run Store
  link_tasks zero i prev m = ok m
  link_tasks (suc rounds) i prev m = do
    assert (ltb i image.nb_tasks) []
    task ← task_at image i
    m' ← set_next prev task.context m
    link_tasks rounds (i + 1) task.context m'

  -- With no task `tasks[nb_tasks - 1]` is out of the array.
  unfoldable pub init : Kernel → Run Kernel
  init k = do
    last ← task_at image (image.nb_tasks - 1)
    m ← link_tasks image.nb_tasks 0 last.context k.mem
    first ← task_at image 0
    ok (record k { mem = m; current = first.context })

  abbrev pub round_robin_scheduler : Scheduler
  round_robin_scheduler = record {
    edf_scheduling = false;
    sched_set_waiting = set_waiting;
    sched_wake_tasks = wake_tasks;
    sched_maybe_preempt = maybe_preempt;
    sched_choose_next = choose_next;
    sched_insert_duplicated_context = insert_duplicated_context;
    scheduler_init = init;
  }
