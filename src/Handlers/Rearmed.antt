-- ===== src/Handlers/Rearmed.antt =====
-- The timer behind `yield` (educrtos/high_level.c, educrtos/priority_scheduler.c), and the interrupt of it
-- that follows (educrtos/pit_timer.c).
use mathlib.Core.Path.{subst}
use rtas2021_artifact.Base.{ℕ, ◌+◌, ◌≡◌, true, false, arith, has, Returns, weaken, both}
use rtas2021_artifact.Bits.{u64}
use rtas2021_artifact.Store.{Ptr}
use rtas2021_artifact.Queue.Chain.{IsChain-unique}
use rtas2021_artifact.Image.{Image}
use rtas2021_artifact.Kernel.{Kernel, context_is_idle}
use rtas2021_artifact.Terminal.Bounds.{IsOnScreen}
use rtas2021_artifact.HighLevel.{c_syscall_yield}
use rtas2021_artifact.Timer.{timer_interrupt_handler, actual_tick}
use rtas2021_artifact.PriorityScheduler.{Policy, priority_scheduler}
use rtas2021_artifact.PriorityScheduler.Queues.{IsImage}
use rtas2021_artifact.PriorityScheduler.States.{Governs}
use rtas2021_artifact.PriorityScheduler.Sound.{priority_contract}
use rtas2021_artifact.Handlers.Calls.{c_syscall_yield-IsUser}
use rtas2021_artifact.Handlers.Yielded.{c_syscall_yield-Yielded}
use rtas2021_artifact.Handlers.Punctual.{Punctual}
use rtas2021_artifact.Handlers.OnTime.{IsArmed, timer_interrupt_handler-Punctual}

module _ (image : Image) (policy : Policy) (ok_image : IsImage image) where
  -- A user context runs by right, the context `p` waits, and the timer is set in time for all that wait;
  -- if the next interrupt is that of the timer, its handler returns, to a context than which none that
  -- can run at the new date has a higher priority.
  pub record IsRearmed (p : Ptr) (k : Kernel) : Type 0 where
    pub governs : Governs image policy k.processor.running k
    pub asleep : has p governs.held.ws ≡ true
    pub armed : IsArmed k governs.held.ws
    pub next_tick :
        Returns
          (Punctual image policy ok_image k.processor.running k
            (u64 (k.current_time + actual_tick))
            governs.held.rs
            governs.held.ws)
          (timer_interrupt_handler image (priority_scheduler image policy) k.processor.running k)

  rearmed :
      (p : Ptr) (k : Kernel) (g : Governs image policy k.processor.running k)
      → IsOnScreen k.screen
      → has p g.held.ws ≡ true
      → IsArmed k g.held.ws
      → IsRearmed p k
  rearmed p k g v asleep armed = record {
    governs = g;
    asleep = asleep;
    armed = armed;
    next_tick =
        timer_interrupt_handler-Punctual image policy ok_image k.processor.running k g v armed;
  }

  -- A context that is not idle has the processor by right and calls `yield`. Then the call returns with
  -- it asleep and the timer set in time for all that wait; and if the next interrupt is that of the
  -- timer, it returns to a context than which none that can run at its date has a higher priority, be it
  -- one that was ready, one that waited for a date that has come, the caller among them, or the one that
  -- was interrupted; and to the idle context only if none can run.
  pub c_syscall_yield-IsRearmed :
      (p : Ptr) (k : Kernel) (wakeup_high wakeup_low deadline_high deadline_low : ℕ)
      → context_is_idle image p ≡ false
      → IsOnScreen k.screen
      → Governs image policy p k
      → Returns (IsRearmed p) (
          c_syscall_yield image
            (priority_scheduler image policy)
            p
            wakeup_high
            wakeup_low
            deadline_high
            deadline_low
            k)
  unfolding priority_contract
  c_syscall_yield-IsRearmed p k wh wl dh dl busy v g =
      weaken
        (both (c_syscall_yield-Yielded image policy ok_image p k wh wl dh dl g.held busy) (
          c_syscall_yield-IsUser image (priority_scheduler image policy)
            (priority_contract image policy ok_image) p wh wl dh dl k busy v g))
        λ k' (y, u).
          let same =
            IsChain-unique k'.mem k'.waiting_heap.head y.waits u.runs.held.ws
              y.queues.waiting_is.chain u.runs.held.queues.waiting_is.chain in
          rearmed p k' u.runs u.screen
            (subst (λ ws. has p ws ≡ true) same (ground (arith, y.sleepers p)))
            (subst (IsArmed k') same y.alarm)
