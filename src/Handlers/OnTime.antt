-- ===== src/Handlers/OnTime.antt =====
-- Who runs behind the whole interrupt handler of the timer (educrtos/pit_timer.c) with the priority
-- scheduler.
use mathlib.Core.Path.{subst}
use rtas2021_artifact.Base.{
  ℕ, ◌+◌, ◌≤◌, ◌≡◌, true, false, arith, leb, has, if◌then◌else◌, Bool-cases, inl, inr, Run, Returns,
  returns, weaken, bind, sym, List,
}
use rtas2021_artifact.Bits.{u64}
use rtas2021_artifact.Store.{Ptr}
use rtas2021_artifact.Image.{Image}
use rtas2021_artifact.Kernel.{Kernel, context_is_idle, timer_dont_wake}
use rtas2021_artifact.Terminal.Bounds.{IsOnScreen}
use rtas2021_artifact.LowLevel.{hw_context_switch}
use rtas2021_artifact.HighLevel.{high_level_timer_interrupt_handler}
use rtas2021_artifact.Timer.{timer_interrupt_handler, outb, actual_tick}
use rtas2021_artifact.PriorityScheduler.{Policy, ready, priority_scheduler}
use rtas2021_artifact.PriorityScheduler.Queues.{IsImage, key}
use rtas2021_artifact.PriorityScheduler.Waiting.{wakeup}
use rtas2021_artifact.PriorityScheduler.States.{HasProcessor, Governs}
use rtas2021_artifact.PriorityScheduler.Best.{IsBest, NoneAbove-has, same-IsBest}
use rtas2021_artifact.Handlers.Disarmed.{count_tick-counted}
use rtas2021_artifact.Handlers.Punctual.{
  Punctual, IsRunnable, high_level_timer_interrupt_handler-Punctual,
}
use rtas2021_artifact.Handlers.Entry.{hw_context_switch_no_idle-ok}

-- The timer is set to a date no later than the wakeup date of any context of the list.
abbrev pub IsArmed : Kernel → List Ptr → Type 0
IsArmed k ws = (a : Ptr) → has a ws ≡ true → k.next_wake_date ≤ wakeup k.mem a

module _ (image : Image) (policy : Policy) (ok_image : IsImage image) (p : Ptr) (k : Kernel)
    (g : Governs image policy p k) where
  abbrev cur : ℕ
  cur = u64 (k.current_time + actual_tick)

  abbrev keys : Ptr → ℕ
  keys = key (ready policy) k.mem

  -- Before the date of the timer nobody has to be woken, and the one that runs is the best still.
  nobody_due :
      IsArmed k g.held.ws
      → leb k.next_wake_date cur ≡ false
      → (a : Ptr) → IsRunnable image policy ok_image p k cur g.held.rs g.held.ws a
      → IsBest policy keys p a × (context_is_idle image p ≡ false)
  nobody_due armed early a (inl is_ready) = (
    NoneAbove-has (ready policy) keys (keys p) a g.held.rs g.highest is_ready,
    elim (Bool-cases (context_is_idle image p)) [
      | inl idle ↦
          absurd (ground (arith, subst (λ rs. has a rs ≡ true) (g.idle_alone idle) is_ready))
      | inr busy ↦ busy
    ],
  )
  nobody_due armed early a (inr (inl (waits, due))) =
      absurd (ground (arith, armed a waits, early, due))
  nobody_due armed early a (inr (inr (at, busy))) =
      (same-IsBest policy keys p a (ground (arith, at)), busy)

  -- While a context has the processor, and by right, and the timer is set in time for all that wait: the
  -- interrupt handler of the timer, be the timer's date reached or not, returns to a context than which
  -- none that can run at the new date has a higher priority, be it one that was ready, one that waited
  -- for a date that has come, or the one that was interrupted; and to the idle context only if none can
  -- run.
  pub timer_interrupt_handler-Punctual :
      IsOnScreen k.screen
      → IsArmed k g.held.ws
      → Returns
          (Punctual image policy ok_image p k cur g.held.rs g.held.ws)
          (timer_interrupt_handler image (priority_scheduler image policy) p k)
  unfolding timer_interrupt_handler outb timer_dont_wake hw_context_switch
  timer_interrupt_handler-Punctual v armed = bind (count_tick-counted _ v) λ k' (n, screen, e).
      subst (λ j. Returns (Punctual image policy ok_image p k cur g.held.rs g.held.ws) (rest j))
        (sym e)
        (elim (Bool-cases (leb k.next_wake_date cur)) [
          | inl due ↦ rw due (
              weaken
                (high_level_timer_interrupt_handler-Punctual image policy ok_image p _ cur (record {
                  rs = h.rs;
                  ws = h.ws;
                  queues = record {
                    ready_is = h.queues.ready_is;
                    waiting_is = h.queues.waiting_is;
                    ready_sorted = h.queues.ready_sorted;
                    waiting_sorted = h.queues.waiting_sorted;
                    apart = h.queues.apart;
                    room = h.queues.room;
                  };
                  tasks = h.tasks;
                  not_null = h.not_null;
                  address = h.address;
                  outside = h.outside;
                  no_spare = h.no_spare;
                  room = h.room;
                  own_room = h.own_room;
                }))
                λ k'' q. record { best = q.best; busy = q.busy })
          | inr early ↦
              rw (early, hw_context_switch_no_idle-ok p _ g.held.not_null)
                (returns (record {
                  best = λ a i. (nobody_due armed early a i).0;
                  busy = λ a i. (nobody_due armed early a i).1;
                }))
        ])
    where
      h : HasProcessor image policy p k
      h = g.held

      rest : Kernel → Run Kernel
      rest j =
          if leb j.next_wake_date cur
          then high_level_timer_interrupt_handler image (priority_scheduler image policy) p cur
              (timer_dont_wake j)
          else hw_context_switch p j
