-- ===== src/Handlers/Tick.antt =====
-- The timer interrupt (educrtos/pit_timer.c, educrtos/high_level.c).
use mathlib.Core.Path.{subst}
use rtas2021_artifact.Base.{
  ℕ, ◌+◌, ◌≡◌, refl, leb, if◌then◌else◌, Bool-cases, inl, inr, Returns, returns, bind, sym, ◌∙◌,
}
use rtas2021_artifact.Store.{Ptr, Pusha, InterPrivilegeInterruptFrame}
use rtas2021_artifact.Bits.{u32, u64}
use rtas2021_artifact.Image.{Image}
use rtas2021_artifact.Kernel.{Kernel, Scheduler, context_is_idle, timer_dont_wake}
use rtas2021_artifact.Terminal.Bounds.{IsOnScreen, terminal_putchar-Printed, Printed-IsOnScreen}
use rtas2021_artifact.HighLevel.{high_level_timer_interrupt_handler}
use rtas2021_artifact.Timer.{
  timer_interrupt_handler, asm_timer_interrupt_handler, count_tick, is_tenth, outb, actual_tick,
}
use rtas2021_artifact.Contract.{Contract, SameSchedule}
use rtas2021_artifact.Handlers.Entry.{IsUser, switch-IsUser, interrupt_prologue-Entered}

SameSchedule-refl : (k : Kernel) → SameSchedule k k
SameSchedule-refl k = record {
  mem = refl;
  ready_heap = refl;
  waiting_heap = refl;
  current = refl;
  idx_reserve = refl;
}

-- Counting a tick may print, and leaves the scheduler's data alone.
count_tick-SameSchedule :
    (k : Kernel)
    → IsOnScreen k.screen
    → Returns (λ k'. SameSchedule k k' × IsOnScreen k'.screen) (count_tick k)
unfolding count_tick
count_tick-SameSchedule k v = elim (Bool-cases (is_tenth (u32 (k.count + 1)))) [
  | inl tenth ↦ rw tenth (
      bind (terminal_putchar-Printed _ k.screen v) λ screen printed. returns (
        record {
          mem = refl;
          ready_heap = refl;
          waiting_heap = refl;
          current = refl;
          idx_reserve = refl;
        },
        Printed-IsOnScreen b'&' k.screen screen v printed,
      ))
  | inr no_mark ↦ rw no_mark (
      returns (
        record {
          mem = refl;
          ready_heap = refl;
          waiting_heap = refl;
          current = refl;
          idx_reserve = refl;
        },
        v,
      ))
]

module _ (image : Image) (s : Scheduler) (c : Contract image s) where
  -- The tasks whose date has come are woken, and the one that is to run next runs.
  pub high_level_timer_interrupt_handler-IsUser :
      (p : Ptr) (curtime : ℕ) (k : Kernel)
      → IsOnScreen k.screen
      → c.Running p k
      → Returns (IsUser image s c) (high_level_timer_interrupt_handler image s p curtime k)
  unfolding high_level_timer_interrupt_handler
  high_level_timer_interrupt_handler-IsUser p curtime k v r =
      bind (c.wakes p k curtime r) λ k' (runs, same).
        bind (next k' runs) λ (q, k'') (next_runs, same').
          switch-IsUser image s c q k'' (subst (λ t. IsOnScreen t) (sym (same' ∙ same)) v) next_runs
    where
      next :
          (k' : Kernel)
          → c.Held p k'
          → Returns
              (λ (q, k''). c.Running q k'' × (k''.screen ≡ k'.screen))
              (if context_is_idle image p
                then s.sched_choose_next k'
                else s.sched_maybe_preempt p k')
      next k' runs = elim (Bool-cases (context_is_idle image p)) [
        | inl idle ↦ rw idle (c.chooses k' (c.idle_between p k' runs idle))
        | inr busy ↦ rw busy (c.preempts p k' busy runs)
      ]

  timer_interrupt_handler-IsUser :
      (p : Ptr) (k : Kernel)
      → IsOnScreen k.screen
      → c.Running p k
      → Returns (IsUser image s c) (timer_interrupt_handler image s p k)
  unfolding timer_interrupt_handler outb timer_dont_wake
  timer_interrupt_handler-IsUser p k v r = bind (count_tick-SameSchedule _ v) λ k' (same, v').
      elim (Bool-cases (leb k'.next_wake_date (u64 (k.current_time + actual_tick)))) [
        | inl due ↦ rw due (
            high_level_timer_interrupt_handler-IsUser p _ _ v' (
              c.stable p k _
                (record {
                  mem = same.mem;
                  ready_heap = same.ready_heap;
                  waiting_heap = same.waiting_heap;
                  current = same.current;
                  idx_reserve = same.idx_reserve;
                })
                r))
        | inr early ↦ rw early (
            switch-IsUser image s c p k' v' (
              c.stable p k k'
                (record {
                  mem = same.mem;
                  ready_heap = same.ready_heap;
                  waiting_heap = same.waiting_heap;
                  current = same.current;
                  idx_reserve = same.idx_reserve;
                })
                r))
      ]

  -- The timer interrupts a running task, the idle one or another: the interrupt returns to a user
  -- context, with the scheduler's data sound.
  pub asm_timer_interrupt_handler-IsUser :
      (regs : Pusha) (frame : InterPrivilegeInterruptFrame) (k : Kernel)
      → IsUser image s c k
      → Returns (IsUser image s c) (asm_timer_interrupt_handler image s regs frame k)
  unfolding asm_timer_interrupt_handler
  asm_timer_interrupt_handler-IsUser regs frame k u =
      bind (interrupt_prologue-Entered image s c regs frame k u)
        λ (ctx, k') e. timer_interrupt_handler-IsUser ctx k' e.screen e.runs
