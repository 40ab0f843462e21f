-- ===== src/Kernel.antt =====
-- The state of the kernel: its static variables and what it has loaded into the processor.
use rtas2021_artifact.Base.{ℕ, ◌-◌, ◌^◌, List, Bool, Run, ◌==◌}
use rtas2021_artifact.Store.{Ptr, Store}
use rtas2021_artifact.Queue.{Heap}
use rtas2021_artifact.Terminal.{Terminal}
use rtas2021_artifact.Image.{Image}

-- `struct system_gdt` under DYNAMIC_DESCRIPTORS, with its one TSS descriptor.
pub record SystemGdt : Type 0 where
  pub null_entry : ℕ
  pub kernel_code : ℕ
  pub kernel_data : ℕ
  pub user_code : ℕ
  pub user_data : ℕ
  pub tss : ℕ

-- What the kernel has loaded into the processor and its devices: the limits of the GDT and IDT
-- registers, the IDT, `esp0` and `ss0` of the TSS, the code segment, the data segments, `ds`, the
-- task register, the bytes written to ports (the last one first), and the context that `popa; iret`
-- resumed.
pub record Processor : Type 0 where
  pub gdtr_limit : ℕ
  pub idtr_limit : ℕ
  pub idt : ℕ → ℕ
  pub esp0 : ℕ
  pub ss0 : ℕ
  pub cs : ℕ
  pub data_segments : ℕ
  pub ds : ℕ
  pub tr : ℕ
  pub ports : List (ℕ × ℕ)
  pub running : Ptr

-- `mem` is the memory of the contexts; `ready_heap` and `waiting_heap` are the static variables of
-- priority_scheduler.c, `current` that of round_robin_scheduler.c, `current_time`, `next_wake_date`
-- and `count` those of pit_timer.c, and `idx_reserve` that of syscall_dup_thread.
pub record Kernel : Type 0 where
  pub mem : Store
  pub ready_heap : Heap
  pub waiting_heap : Heap
  pub current : Ptr
  pub current_time : ℕ
  pub next_wake_date : ℕ
  pub count : ℕ
  pub idx_reserve : ℕ
  pub system_gdt : SystemGdt
  pub processor : Processor
  pub screen : Terminal

abbrev pub date_far_away : ℕ
date_far_away = 2 ^ 64 - 1

-- context_idle() and context_is_idle(ctx), on the one processor.
unfoldable pub context_idle : Image → Ptr
context_idle image = image.idle_ctx_array

unfoldable pub context_is_idle : Image → Ptr → Bool
context_is_idle image ctx = ctx == image.idle_ctx_array

-- timer_wake_at(next_wakeup) and timer_dont_wake() of pit_timer.c.
unfoldable pub timer_wake_at : ℕ → Kernel → Kernel
timer_wake_at next_wakeup k = record k { next_wake_date = next_wakeup }

unfoldable pub timer_dont_wake : Kernel → Kernel
timer_dont_wake k = record k { next_wake_date = date_far_away }

unfoldable pub timer_current_time : Kernel → ℕ
timer_current_time k = k.current_time

-- The operations of educrtos/scheduler.h, which both schedulers implement.
pub record Scheduler : Type 0 where
  pub edf_scheduling : Bool
  pub sched_set_waiting : Ptr → Kernel → Run Kernel
  pub sched_wake_tasks : ℕ → Kernel → Run Kernel
  pub sched_maybe_preempt : Ptr → Kernel → Run (Ptr × Kernel)
  pub sched_choose_next : Kernel → Run (Ptr × Kernel)
  pub sched_insert_duplicated_context : Ptr → Ptr → Kernel → Run Kernel
  pub scheduler_init : Kernel → Run Kernel
