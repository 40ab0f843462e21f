-- ===== src/HighLevel.antt =====
-- The part of the kernel that does not depend on the hardware (educrtos/high_level.c), under
-- DYNAMIC_TASK_CREATION, DEBUG_PRINTING and no INJECT_BUG, over either scheduler. Functions that do
-- not return end by a switch to a context; their result is the kernel after that switch.
use rtas2021_artifact.Base.{
  ℕ, zero, suc, Bool, ◌+◌, ◌-◌, [], ◌∷◌, ltb, ◌==◌, if◌then◌else◌, Run, ok, halt, ◌>>=◌, ◌>>◌,
  assert, codes,
}
use rtas2021_artifact.Bits.{◌<<<◌, u8, u32, u64}
use rtas2021_artifact.Store.{Ptr, Context, Store, load, store, set_next}
use rtas2021_artifact.Image.{Image, task_at, reserve_at, dynamic_task_initial_height}
use rtas2021_artifact.Kernel.{Kernel, Scheduler, context_is_idle, date_far_away}
use rtas2021_artifact.Terminal.{terminal_putchar, terminal_write}
use rtas2021_artifact.Format.{fatal, word}
use rtas2021_artifact.LowLevel.{
  hw_context_init, hw_context_set_return1, hw_context_switch, hw_context_switch_no_idle,
}

-- The system calls of educrtos/user_tasks.h, with their numbers.
pub data Syscall : Type 0 where
  syscall_yield syscall_putchar syscall_dup_thread syscall_trigger_bug : Syscall

abbrev pub syscall_number : ℕ
syscall_number = 4

-- `copy_context(dest, src)` copies every word of the context.
unfoldable pub copy_context : Ptr → Ptr → Store → Run Store
copy_context dest src m = do c ← load src m; store dest c m

-- context_init(ctx, idx, pc, start, end) on the context's value.
unfoldable pub context_init : Context → (idx pc start end : ℕ) → Context
context_init c idx pc start end =
    let pid = u32 (idx <<< dynamic_task_initial_height) in
    record c {
      range = 1 <<< dynamic_task_initial_height;
      pid = pid;
      hw_context = hw_context_init c.hw_context pc pid start end;
    }

-- Both 32-bit halves of a duration.
abbrev pub from_halves : ℕ → ℕ → ℕ
from_halves high low = u64 (u64 (high <<< 32) + low)

-- The dates of a context after `yield`; the deadline exists under EDF_SCHEDULING only.
unfoldable pub yield_dates :
    (edf_scheduling : Bool) (wakeup_high wakeup_low deadline_high deadline_low : ℕ)
    → Context
    → Context
yield_dates edf_scheduling wakeup_high wakeup_low deadline_high deadline_low c =
    let wakeup_date = u64 (c.sched_context.wakeup_date + from_halves wakeup_high wakeup_low) in
    record c {
      sched_context = record c.sched_context {
        wakeup_date = wakeup_date;
        deadline =
            if edf_scheduling
            then u64 (wakeup_date + from_halves deadline_high deadline_low)
            else c.sched_context.deadline;
      };
    }

module _ (image : Image) (scheduler : Scheduler) where
  open scheduler use {
    sched_set_waiting, sched_wake_tasks, sched_maybe_preempt, sched_choose_next,
    sched_insert_duplicated_context, scheduler_init, edf_scheduling,
  }

  -- c_syscall_yield(ctx, next_wakeup_high, next_wakeup_low, next_deadline_high, next_deadline_low).
  unfoldable pub c_syscall_yield :
      Ptr → (wakeup_high wakeup_low deadline_high deadline_low : ℕ) → Kernel → Run Kernel
  c_syscall_yield ctx wakeup_high wakeup_low deadline_high deadline_low k = do
    c ← load ctx k.mem
    m ←
        store ctx (yield_dates edf_scheduling wakeup_high wakeup_low deadline_high deadline_low c)
          k.mem
    k' ← sched_set_waiting ctx (record k { mem = m })
    (new_ctx, k'') ← sched_choose_next k'
    hw_context_switch new_ctx k''

  -- syscall_putchar(ctx, arg1).
  unfoldable pub putchar_handler : Ptr → ℕ → Kernel → Run Kernel
  putchar_handler ctx arg1 k = do
    screen ← terminal_putchar (u8 arg1) k.screen
    hw_context_switch_no_idle ctx (record k { screen = screen })

  -- syscall_trigger_bug(ctx, arg1, arg2, arg3), where no bug is injected.
  unfoldable pub trigger_bug_handler : Ptr → Kernel → Run Kernel
  trigger_bug_handler ctx k = hw_context_switch_no_idle ctx k

  -- The allocation from the reserve: `ctx2` and the kernel with `ctx2->range = 0`.
  unfoldable pub take_reserve : Kernel → Run (Ptr × Kernel)
  take_reserve k =
      if k.idx_reserve == 0 then fatal 0 (codes "Not enough ctx in reserve\n") [] else do
        let ctx2 = reserve_at image (k.idx_reserve - 1)
        c2 ← load ctx2 k.mem
        m ← store ctx2 (record c2 { range = 0 }) k.mem
        ok (ctx2, record k { mem = m; idx_reserve = k.idx_reserve - 1 })

  -- `hw_context_set_return1(&ctx->hw_context, ret1)`.
  unfoldable pub set_return1 : Ptr → ℕ → Store → Run Store
  set_return1 ctx ret1 m = do
    c ← load ctx m
    store ctx (record c { hw_context = hw_context_set_return1 c.hw_context ret1 }) m

  -- syscall_dup_thread(ctx).
  unfoldable pub dup_thread_handler : Ptr → Kernel → Run Kernel
  dup_thread_handler ctx k = do
    c ← load ctx k.mem
    if c.range == 0
        then fatal 0 (codes "This thread (%x) cannot create another thread") (word ctx ∷ [])
        else do
          (ctx2, k1) ← take_reserve k
          m ← copy_context ctx2 ctx k1.mem
          k2 ← sched_insert_duplicated_context ctx ctx2 (record k1 { mem = m })
          m' ← set_return1 ctx 1 k2.mem
          m'' ← set_return1 ctx2 0 m'
          hw_context_switch_no_idle ctx (record k2 { mem = m'' })

  -- The entry `number` of syscall_array, jumped to with the registers of the call: `edx`, `ecx`,
  -- `esi` and `edi` of the saved context. A number that is out of the array stops the machine.
  unfoldable pub dispatch : Syscall → Ptr → Kernel → Run Kernel
  dispatch syscall_yield ctx k = do
    c ← load ctx k.mem
    let r = c.hw_context.regs
    c_syscall_yield ctx r.edx r.ecx r.esi r.edi k
  dispatch syscall_putchar ctx k = do
    c ← load ctx k.mem
    putchar_handler ctx c.hw_context.regs.edx k
  dispatch syscall_dup_thread ctx k = dup_thread_handler ctx k
  dispatch syscall_trigger_bug ctx k = trigger_bug_handler ctx k

  unfoldable pub syscall_array : ℕ → Ptr → Kernel → Run Kernel
  syscall_array zero = dispatch syscall_yield
  syscall_array (suc zero) = dispatch syscall_putchar
  syscall_array (suc (suc zero)) = dispatch syscall_dup_thread
  syscall_array (suc (suc (suc zero))) = dispatch syscall_trigger_bug
  syscall_array (suc (suc (suc (suc n)))) = λ ctx k. halt []

  -- high_level_timer_interrupt_handler(cur_hw_ctx, curtime).
  unfoldable pub high_level_timer_interrupt_handler : Ptr → ℕ → Kernel → Run Kernel
  high_level_timer_interrupt_handler cur_ctx curtime k = do
    k' ← sched_wake_tasks curtime k
    (new_ctx, k'') ←
        if context_is_idle image cur_ctx
        then sched_choose_next k'
        else sched_maybe_preempt cur_ctx k'
    hw_context_switch new_ctx k''

  -- The loop of `high_level_init` over the tasks from `i` on.
  unfoldable pub init_tasks : ℕ → ℕ → Store → Run Store
  init_tasks zero i m = ok m
  init_tasks (suc rounds) i m = do
    assert (ltb i image.nb_tasks) []
    task ← task_at image i
    c ← load task.context m
    m' ← store task.context (context_init c i task.start_pc task.task_begin task.task_end) m
    init_tasks rounds (i + 1) m'

  -- The loop of `init_reserve` over the contexts in reserve from `i` on.
  unfoldable pub init_reserve_from : ℕ → ℕ → Store → Run Store
  init_reserve_from zero i m = ok m
  init_reserve_from (suc rounds) i m = do
    task0 ← task_at image 0
    c ← load (reserve_at image i) m
    m' ←
        store (reserve_at image i) (context_init c 0 task0.start_pc task0.task_begin task0.task_end)
          m
    m'' ← set_next (reserve_at image i) (reserve_at image 0) m'
    init_reserve_from rounds (i + 1) m''

  unfoldable pub init_reserve : Store → Run Store
  init_reserve m = init_reserve_from 10 0 m

  -- The loop over the processors, of which there is one.
  unfoldable pub init_idle : Store → Run Store
  init_idle m = do
    let idle = image.idle_ctx_array
    c ← load idle m
    let c' = context_init c 0 0 image.idle_start image.idle_end
    store idle
        (record c' {
          sched_context = record c'.sched_context {
            next = idle;
            wakeup_date = 0;
            deadline = if edf_scheduling then date_far_away else c'.sched_context.deadline;
          };
        })
        m

  unfoldable pub high_level_init : Kernel → Run Kernel
  high_level_init k = do
    m ← init_tasks image.nb_tasks 0 k.mem
    m' ← init_reserve m
    m'' ← init_idle m'
    scheduler_init (record k { mem = m'' })

  unfoldable pub boot : Kernel → Run Kernel
  boot k = do
    k' ← high_level_init k
    (new_ctx, k'') ← sched_choose_next k'
    screen ← terminal_write (codes "Switching to userspace\n") k''.screen
    hw_context_switch new_ctx (record k'' { screen = screen })
