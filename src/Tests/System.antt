-- ===== src/Tests/System.antt =====
-- Examples of the theorems on the running system.
use rtas2021_artifact.Base.{◌+◌, inl, [], ◌∷◌, refl, arith, Returns}
use rtas2021_artifact.Kernel.{Kernel, context_is_idle}
use rtas2021_artifact.PriorityScheduler.{fp, priority_scheduler}
use rtas2021_artifact.PriorityScheduler.States.{HasProcessor, Governs}
use rtas2021_artifact.PriorityScheduler.Sound.{priority_contract}
use rtas2021_artifact.Bits.{u64}
use rtas2021_artifact.Timer.{timer_interrupt_handler, actual_tick}
use rtas2021_artifact.Handlers.Rearmed.{IsRearmed, c_syscall_yield-IsRearmed}
use rtas2021_artifact.Handlers.OnTime.{timer_interrupt_handler-Punctual}
use rtas2021_artifact.Handlers.Disarmed.{IsDisarmed, timer_interrupt_handler-IsDisarmed}
use rtas2021_artifact.HighLevel.{c_syscall_yield}
use rtas2021_artifact.Handlers.Yielded.{Yielded, c_syscall_yield-Yielded}
use rtas2021_artifact.Handlers.Punctual.{Punctual}
use rtas2021_artifact.System.{call, respond, respond-IsSound, IsSound, IsEnabled}
use rtas2021_artifact.Tests.Sample.{image, queue, empty, kernel, registers, frame, context}
use rtas2021_artifact.Tests.Queues.{image-IsImage, waiting-Queues}

-- 16 runs, and 32 waits.
abbrev pub sample : Kernel
sample = kernel empty (queue 32)

sample-HasProcessor : HasProcessor image fp 16 sample
sample-HasProcessor = record {
  rs = [];
  ws = 32 ∷ [];
  queues = waiting-Queues;
  tasks = record {
    addresses = λ a i. ground arith;
    no_idle = refl;
    few = omega arith;
    fresh = λ i l. ground arith;
  };
  not_null = ground arith;
  address = omega arith;
  outside = refl;
  no_spare = λ i l. ground arith;
  room = omega arith;
  own_room = λ busy. omega arith;
}

pub sample-Governs : Governs image fp 16 sample
unfolding context_is_idle sample-HasProcessor
sample-Governs = record { held = sample-HasProcessor; highest = tt; idle_alone = λ idle. refl }

pub sample-IsSound : IsSound image fp image-IsImage sample
unfolding priority_contract
sample-IsSound = record {
  runs = sample-Governs;
  saved_in = refl;
  screen = record { row = omega arith; column = omega arith };
}

enabled : IsEnabled image (priority_scheduler image fp) (call registers frame) sample
unfolding context_is_idle
enabled = (refl, omega arith, inl (ground arith))

respond-IsSound_example :
    Returns
      (IsSound image fp image-IsImage)
      (respond image (priority_scheduler image fp) (call registers frame) sample)
respond-IsSound_example =
    respond-IsSound image fp image-IsImage (call registers frame) sample enabled sample-IsSound

-- 16 runs and is alone in its ring, which its link closes.
abbrev turning : Kernel
turning = record sample {
  mem = λ a. record context { sched_context = record context.sched_context { next = 16 } };
}

-- 32 waits for the date 10^9, and the timer is set to a date that has passed.
abbrev waiting_for_long : Kernel
waiting_for_long = record sample {
  mem = λ a. record context {
    sched_context = record context.sched_context { wakeup_date = 1000000000 };
  };
}

long-HasProcessor : HasProcessor image fp 16 waiting_for_long
long-HasProcessor = record {
  rs = [];
  ws = 32 ∷ [];
  queues = record {
    ready_is = record { chain = refl; size = refl; bounded = omega arith };
    waiting_is = record {
      chain = (refl, ground arith, refl, refl);
      size = refl;
      bounded = omega arith;
    };
    ready_sorted = tt;
    waiting_sorted = (tt, tt);
    apart = λ a i. ground arith;
    room = omega arith;
  };
  tasks = record {
    addresses = λ a i. ground arith;
    no_idle = refl;
    few = omega arith;
    fresh = λ i l. ground arith;
  };
  not_null = ground arith;
  address = omega arith;
  outside = refl;
  no_spare = λ i l. ground arith;
  room = omega arith;
  own_room = λ busy. omega arith;
}

-- One context still waits behind the tick, with the timer off.
timer_interrupt_handler-IsDisarmed_example :
    Returns
      (IsDisarmed 1)
      (timer_interrupt_handler image (priority_scheduler image fp) 16 waiting_for_long)
unfolding long-HasProcessor
timer_interrupt_handler-IsDisarmed_example =
    timer_interrupt_handler-IsDisarmed image fp image-IsImage 16 waiting_for_long long-HasProcessor
      (record { row = omega arith; column = omega arith }) (omega arith)

timer_interrupt_handler-Punctual_example :
    Returns
      (Punctual image fp image-IsImage 16 sample (u64 (0 + actual_tick)) [] (32 ∷ []))
      (timer_interrupt_handler image (priority_scheduler image fp) 16 sample)
unfolding sample-Governs sample-HasProcessor context_is_idle
timer_interrupt_handler-Punctual_example =
    timer_interrupt_handler-Punctual image fp image-IsImage 16 sample sample-Governs
      (record { row = omega arith; column = omega arith }) (λ a i. omega arith)

c_syscall_yield-Yielded_example :
    Returns
      (Yielded image fp image-IsImage 16 sample 0 7 0 9 [] (32 ∷ []))
      (c_syscall_yield image (priority_scheduler image fp) 16 0 7 0 9 sample)
unfolding sample-HasProcessor context_is_idle
c_syscall_yield-Yielded_example =
    c_syscall_yield-Yielded image fp image-IsImage 16 sample 0 7 0 9 sample-HasProcessor refl

c_syscall_yield-IsRearmed_example :
    Returns
      (IsRearmed image fp image-IsImage 16)
      (c_syscall_yield image (priority_scheduler image fp) 16 0 7 0 9 sample)
unfolding context_is_idle
c_syscall_yield-IsRearmed_example =
    c_syscall_yield-IsRearmed image fp image-IsImage 16 sample 0 7 0 9 refl
      (record { row = omega arith; column = omega arith }) sample-Governs
