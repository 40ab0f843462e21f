-- ===== src/System/Start.antt =====
-- From the start of the machine to any later time: `_start` of educrtos/low_level.c, `low_level_init`,
-- `boot`, and the events behind it.
use rtas2021_artifact.Base.{
  ℕ, ◌≡◌, ◌≢◌, Run, ok, ◌>>=◌, Returns, returns, bind, both, result, ok-inj, sym, ◌∙◌,
}
use mathlib.Core.Path.{subst}
use rtas2021_artifact.Store.{null}
use rtas2021_artifact.Image.{Image}
use rtas2021_artifact.Image.Reserve.{HasReserve}
use rtas2021_artifact.Image.Tasks.{HasTasks}
use rtas2021_artifact.Kernel.{Kernel, Scheduler}
use rtas2021_artifact.Terminal.Bounds.{IsOnScreen, terminal_initialize-blank}
use rtas2021_artifact.Timer.{timer_init, init_pic, outb}
use rtas2021_artifact.Interrupts.{Handlers, low_level_init, load_tables, init_interrupts}
use rtas2021_artifact.HighLevel.{boot}
use rtas2021_artifact.Contract.{Contract, IsFresh, CanStart}
use rtas2021_artifact.Handlers.Entry.{IsUser}
use rtas2021_artifact.Handlers.Boot.{boot-IsUser}
use rtas2021_artifact.PriorityScheduler.{Policy, priority_scheduler}
use rtas2021_artifact.PriorityScheduler.Queues.{IsImage}
use rtas2021_artifact.PriorityScheduler.Sound.{priority_contract}
use rtas2021_artifact.PriorityScheduler.Started.{priority_starts}
use rtas2021_artifact.RoundRobin.{round_robin_scheduler}
use rtas2021_artifact.RoundRobin.Booted.{IsFirstTurn, boot-IsFirstTurn}
use rtas2021_artifact.RoundRobin.Sound.{round_robin_contract, round_robin_starts}
use rtas2021_artifact.System.{
  Event, IsEnabled, Reaches, respond, IsSound, IsTurning, respond-IsUser, Reaches-IsUser,
}

-- The magic value that a multiboot loader leaves in `eax`.
abbrev pub multiboot_loader_magic : ℕ
multiboot_loader_magic = 0x2BADB002

module _ (handlers : Handlers) (tss_address : ℕ) (image : Image) (scheduler : Scheduler) where
  -- `_start`: low_level_init gets `eax` and `ebx` (which it ignores), and boot does not return.
  unfoldable pub asm_start : ℕ → Kernel → Run Kernel
  asm_start eax k = do k' ← low_level_init handlers tss_address image eax k; boot image scheduler k'

  low_level_init-ready :
      (k : Kernel)
      → IsFresh image k
      → Returns
          (λ k'. IsFresh image k' × IsOnScreen k'.screen)
          (low_level_init handlers tss_address image multiboot_loader_magic k)
  unfolding low_level_init load_tables init_interrupts timer_init init_pic outb
  low_level_init-ready k fresh =
      bind (terminal_initialize-blank k.screen)
        λ screen (v, row, column, blank). returns (record { few = fresh.few; room = fresh.room }, v)

  module _ (c : Contract image scheduler) (can : CanStart image scheduler c) where
    pub start-IsUser :
        (k : Kernel)
        → IsFresh image k
        → Returns (IsUser image scheduler c) (asm_start multiboot_loader_magic k)
    unfolding asm_start
    start-IsUser k fresh =
        bind (low_level_init-ready k fresh)
          λ k' (fresh', v). boot-IsUser image scheduler c can k' fresh' v

    pub started-IsUser :
        (k k' k'' : Kernel) (e : Event)
        → IsFresh image k
        → asm_start multiboot_loader_magic k ≡ ok k'
        → Reaches image scheduler k' k''
        → IsEnabled image scheduler e k''
        → IsUser image scheduler c k''
          × Returns (IsUser image scheduler c) (respond image scheduler e k'')
    started-IsUser k k' k'' e fresh began later enabled =
        let (out, same, good) = result (start-IsUser k fresh) in
        let first = subst (IsUser image scheduler c) (ok-inj _ _ (sym same ∙ began)) good in
        let now = Reaches-IsUser image scheduler c k' k'' later first in
        (now, respond-IsUser image scheduler c e k'' enabled now)

module _ (handlers : Handlers) (tss_address : ℕ) (image : Image) (policy : Policy)
    (ok_image : IsImage image) (tasks : HasTasks image) where
  -- With the priority scheduler, a system description whose tasks have contexts of their own, and
  -- which has an idle context and room for its tasks' contexts and those in reserve, at most 10: from
  -- any other state of the machine, if a multiboot loader leaves its magic value, `_start` leads to a
  -- user context. No assertion fails, no access is out of bounds, no loop runs out of rounds, and the
  -- queues, the place where registers are saved and the cursor are sound: no ready context has a
  -- higher priority than the one that runs.
  pub start-IsSound :
      (k : Kernel)
      → IsFresh image k
      → Returns (IsSound image policy ok_image) (
          asm_start handlers tss_address image
            (priority_scheduler image policy)
            multiboot_loader_magic
            k)
  start-IsSound =
      start-IsUser handlers tss_address image (priority_scheduler image policy)
        (priority_contract image policy ok_image) (priority_starts image policy ok_image tasks)

  -- With the priority scheduler, a system description whose tasks have contexts of their own, and
  -- which has an idle context and room for its tasks' contexts and those in reserve, at most 10: after
  -- `_start`, with the magic value of a multiboot loader, and any number of timer interrupts and of
  -- enabled system calls, in any order, the kernel is sound, in particular no ready context has a higher
  -- priority than the running one; and any further event that is enabled leads back to a user context,
  -- with a sound kernel again. The calls that are enabled are those of a task that is not the idle one
  -- with the number of a system call, `dup_thread` only while the reserve is not used up and the
  -- caller's range is not 0.
  pub started-IsSound :
      (k k' k'' : Kernel) (e : Event)
      → IsFresh image k
      → asm_start handlers tss_address image
          (priority_scheduler image policy)
          multiboot_loader_magic
          k
        ≡ ok k'
      → Reaches image (priority_scheduler image policy) k' k''
      → IsEnabled image (priority_scheduler image policy) e k''
      → IsSound image policy ok_image k''
        × Returns
            (IsSound image policy ok_image)
            (respond image (priority_scheduler image policy) e k'')
  started-IsSound =
      started-IsUser handlers tss_address image (priority_scheduler image policy)
        (priority_contract image policy ok_image) (priority_starts image policy ok_image tasks)

module _ (handlers : Handlers) (tss_address : ℕ) (image : Image) (reserve : HasReserve image)
    (tasks : HasTasks image) (idle : image.idle_ctx_array ≢ null) where
  start-IsFirstTurn :
      (k : Kernel)
      → IsFresh image k
      → Returns (IsFirstTurn image tasks) (
          asm_start handlers tss_address image
            (round_robin_scheduler image)
            multiboot_loader_magic
            k)
  unfolding asm_start
  start-IsFirstTurn k fresh =
      bind (low_level_init-ready handlers tss_address image (round_robin_scheduler image) k fresh)
        λ k' (fresh', v). boot-IsFirstTurn image reserve tasks idle k' v

  -- With the round-robin scheduler, and a system description whose tasks have contexts of their own,
  -- and which has an idle context and room for its tasks' contexts and those in reserve, at most 10:
  -- with the magic value of a multiboot loader `_start` leads from any other state of the machine to a
  -- user context; no assertion fails and no access is out of bounds. The contexts of the tasks are a
  -- ring then, in which each is linked to that of the next task and the last to that of the first, and
  -- the context of the task behind the first, or of the only one, is the current one and runs. The next
  -- interrupt saves its registers into it; the links do not leave a set of contexts that it is in and
  -- that no context in reserve is in.
  pub start-IsTurning :
      (k : Kernel)
      → IsFresh image k
      → Returns
          (λ k'. IsFirstTurn image tasks k' × IsTurning image reserve k')
          (asm_start handlers tss_address image
            (round_robin_scheduler image)
            multiboot_loader_magic
            k)
  start-IsTurning k fresh = both (start-IsFirstTurn k fresh) (
      start-IsUser handlers tss_address image (round_robin_scheduler image)
        (round_robin_contract image reserve) (round_robin_starts image reserve tasks idle) k fresh)

  -- With the round-robin scheduler and a system description whose tasks have contexts of their own, and
  -- which has an idle context and room for its tasks' contexts and those in reserve, at most 10: after
  -- `_start`, with the magic value of a multiboot loader, and any number of timer interrupts and of
  -- enabled system calls, in any order, the links do not leave the set of contexts that the running one
  -- and the current one are in, the next interrupt saves its registers into the running one, and the
  -- cursor is on the screen; and any further event that is enabled leads back to a user context of which
  -- all this is true. The calls that are enabled are as with the priority scheduler.
  pub started-IsTurning :
      (k k' k'' : Kernel) (e : Event)
      → IsFresh image k
      → asm_start handlers tss_address image (round_robin_scheduler image) multiboot_loader_magic k
        ≡ ok k'
      → Reaches image (round_robin_scheduler image) k' k''
      → IsEnabled image (round_robin_scheduler image) e k''
      → IsTurning image reserve k''
        × Returns (IsTurning image reserve) (respond image (round_robin_scheduler image) e k'')
  started-IsTurning =
      started-IsUser handlers tss_address image (round_robin_scheduler image)
        (round_robin_contract image reserve) (round_robin_starts image reserve tasks idle)
