-- ===== src/System.antt =====
-- The running system: tasks of a kernel with either scheduler make system calls, and the timer
-- interrupts them, in any order.
pub mod Start
use rtas2021_artifact.Base.{◌<◌, ◌≡◌, false, Run, ok, Returns, result, ok-inj, sym, ◌∙◌}
use mathlib.Core.Path.{subst}
use rtas2021_artifact.Store.{Pusha, InterPrivilegeInterruptFrame}
use rtas2021_artifact.Image.{Image}
use rtas2021_artifact.Image.Reserve.{HasReserve}
use rtas2021_artifact.Kernel.{Kernel, Scheduler, context_is_idle}
use rtas2021_artifact.PriorityScheduler.{Policy, priority_scheduler}
use rtas2021_artifact.PriorityScheduler.Queues.{IsImage}
use rtas2021_artifact.PriorityScheduler.Sound.{priority_contract}
use rtas2021_artifact.HighLevel.{syscall_number}
use rtas2021_artifact.Timer.{asm_timer_interrupt_handler}
use rtas2021_artifact.UserTasks.{asm_syscall_handler}
use rtas2021_artifact.Contract.{Contract}
use rtas2021_artifact.RoundRobin.{round_robin_scheduler}
use rtas2021_artifact.RoundRobin.Sound.{round_robin_contract}
use rtas2021_artifact.Handlers.Entry.{IsUser}
use rtas2021_artifact.Handlers.Calls.{CanFork, asm_syscall_handler-IsUser}
use rtas2021_artifact.Handlers.Tick.{asm_timer_interrupt_handler-IsUser}

-- What can happen while a task runs, with its registers and its frame at that time: a tick of the
-- timer, or a system call.
pub data Event : Type 0 where
  tick call : Pusha → InterPrivilegeInterruptFrame → Event

module _ (image : Image) (scheduler : Scheduler) where
  unfoldable pub respond : Event → Kernel → Run Kernel
  respond (tick regs frame) k = asm_timer_interrupt_handler image scheduler regs frame k
  respond (call regs frame) k = asm_syscall_handler image scheduler regs frame k

  -- A tick may come at any time. Calls that are described are those of a task that is not the idle
  -- one, with the number of a system call, and `dup_thread` where the reserve is not used up and the
  -- caller has a range that is not 0.
  abbrev pub IsEnabled : Event → Kernel → Type 0
  IsEnabled (tick regs frame) k = Unit
  IsEnabled (call regs frame) k =
      (context_is_idle image k.processor.running ≡ false)
      × (regs.ebx < syscall_number)
      × CanFork regs.ebx k.processor.running k

  -- The kernels that a kernel can become.
  pub data Reaches (k : Kernel) : Kernel → Type 0 where
    start : Reaches k k
    step :
        {k' k'' : Kernel}
        → Reaches k k'
        → (e : Event) → IsEnabled e k'
        → respond e k' ≡ ok k''
        → Reaches k k''

module _ (image : Image) (scheduler : Scheduler) (c : Contract image scheduler) where
  pub respond-IsUser :
      (e : Event) (k : Kernel)
      → IsEnabled image scheduler e k
      → IsUser image scheduler c k
      → Returns (IsUser image scheduler c) (respond image scheduler e k)
  unfolding respond
  respond-IsUser (tick regs frame) k enabled user =
      asm_timer_interrupt_handler-IsUser image scheduler c regs frame k user
  respond-IsUser (call regs frame) k (busy, number, other) user =
      asm_syscall_handler-IsUser image scheduler c regs frame k busy number other user

  pub Reaches-IsUser :
      (k k' : Kernel)
      → Reaches image scheduler k k'
      → IsUser image scheduler c k
      → IsUser image scheduler c k'
  Reaches-IsUser k k' start user = user
  Reaches-IsUser k k'' (step {k'} before e enabled ran) user =
      let (out, same, good) =
        result (respond-IsUser e k' enabled (Reaches-IsUser k k' before user)) in
      subst (IsUser image scheduler c) (ok-inj _ _ (sym same ∙ ran)) good

module _ (image : Image) (policy : Policy) (ok_image : IsImage image) where
  -- A user context runs, and the queues of the priority scheduler are sound.
  abbrev pub IsSound : Kernel → Type 0
  IsSound = IsUser image (priority_scheduler image policy) (priority_contract image policy ok_image)

  -- With the priority scheduler, a timer interrupt of a running task, and a system call of a task that
  -- is not the idle one, `dup_thread` only while the reserve is not used up and the caller's range is
  -- not 0, lead back to a user context: no assertion fails, no null pointer is read and no loop runs
  -- out of rounds. Then the queues are sorted and disjoint and have room for the contexts in reserve;
  -- the running context is in neither of them, no ready context has a higher priority, and none is
  -- ready if it is the idle one; the next interrupt saves its registers into it, and the cursor is on
  -- the screen, as all this was before.
  pub respond-IsSound :
      (e : Event) (k : Kernel)
      → IsEnabled image (priority_scheduler image policy) e k
      → IsSound k
      → Returns IsSound (respond image (priority_scheduler image policy) e k)
  respond-IsSound =
      respond-IsUser image (priority_scheduler image policy)
        (priority_contract image policy ok_image)

  -- With the priority scheduler, any number of timer interrupts and of such system calls, in any
  -- order, lead from a kernel whose queues, running context and cursor are sound to one of which that
  -- is true: in particular no ready context has a higher priority than the running one.
  pub Reaches-IsSound :
      (k k' : Kernel)
      → Reaches image (priority_scheduler image policy) k k'
      → IsSound k
      → IsSound k'
  Reaches-IsSound =
      Reaches-IsUser image (priority_scheduler image policy)
        (priority_contract image policy ok_image)

module _ (image : Image) (reserve : HasReserve image) where
  -- A user context of the ring runs.
  abbrev pub IsTurning : Kernel → Type 0
  IsTurning = IsUser image (round_robin_scheduler image) (round_robin_contract image reserve)

  -- With the round-robin scheduler such an event leads back to a user context too: no assertion
  -- fails and no null pointer is read; the running context and the current one are in a set of
  -- contexts that the links do not leave and that no context in reserve is in, the next interrupt
  -- saves the registers of the running one into it, and the cursor is on the screen, as all this was
  -- before.
  pub respond-IsTurning :
      (e : Event) (k : Kernel)
      → IsEnabled image (round_robin_scheduler image) e k
      → IsTurning k
      → Returns IsTurning (respond image (round_robin_scheduler image) e k)
  respond-IsTurning =
      respond-IsUser image (round_robin_scheduler image) (round_robin_contract image reserve)
