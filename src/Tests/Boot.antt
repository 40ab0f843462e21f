-- ===== src/Tests/Boot.antt =====
-- Examples of the theorems on the start of the kernel.
use rtas2021_artifact.Base.{
  ◌>>=◌, ◌<◌, ◌+◌, ◌*◌, ℕ, zero, suc, List, ◌≡◌, refl, ap, sym, some, arith, get_elem?, ok, result,
  Returns,
}
use rtas2021_artifact.Store.{Ptr}
use rtas2021_artifact.Image.{TaskDescription}
use rtas2021_artifact.Image.Tasks.{HasTasks, some-inj}
use rtas2021_artifact.PriorityScheduler.{fp, priority_scheduler, init}
use rtas2021_artifact.PriorityScheduler.Readied.{AreReady}
use rtas2021_artifact.PriorityScheduler.Start.{init-AreReady}
use rtas2021_artifact.RoundRobin
use rtas2021_artifact.RoundRobin.Booted.{IsFirstTurn}
use rtas2021_artifact.RoundRobin.Turns.{IsFair, turns, init-turns}
use rtas2021_artifact.RoundRobin.{round_robin_scheduler}
use rtas2021_artifact.Kernel.{Kernel, Scheduler}
use rtas2021_artifact.Interrupts.{Handlers, init_interrupts}
use rtas2021_artifact.Interrupts.Gates.{
  gate_offset, gate_selector, gate_type, gate_privilege, gate_present,
}
use rtas2021_artifact.Interrupts.Filled.{AreAddresses, kernel_selector, init_interrupts-gate}
use rtas2021_artifact.Contract.{IsFresh}
use rtas2021_artifact.System.{tick, start, respond, IsSound, IsTurning}
use rtas2021_artifact.System.Start.{
  asm_start, multiboot_loader_magic, start-IsSound, started-IsSound, start-IsTurning,
  started-IsTurning,
}
use rtas2021_artifact.Tests.Sample.{image, empty, queue, kernel, registers, frame}
use rtas2021_artifact.Tests.Queues.{image-IsImage, image-HasReserve}

the_task :
    (i : ℕ) (t : TaskDescription)
    → get_elem? image.tasks i ≡ some t
    → (i < 2) × (t.context ≡ 16 + 16 * i)
the_task zero t e = (omega arith, sym (ap (λ d. d.context) (some-inj _ t e)))
the_task (suc zero) t e = (omega arith, sym (ap (λ d. d.context) (some-inj _ t e)))
the_task (suc (suc i)) t e = absurd (ground arith)

image-HasTasks : HasTasks image
image-HasTasks = record {
  count = refl;
  some_task = omega arith;
  enough = omega arith;
  not_null = λ i t e. ground (arith, (the_task i t e).1);
  address = λ i t e. omega (arith, (the_task i t e).0, (the_task i t e).1);
  not_idle = λ i t e. ground (arith, (the_task i t e).0, (the_task i t e).1);
  not_reserve = λ i j t e l. ground (arith, (the_task i t e).0, (the_task i t e).1);
  distinct = λ i j t u h e f. ground (arith, (the_task i t e).1, (the_task j u f).1);
}

init-AreReady_example :
    Returns
      (λ k'.
        ((rs : List Ptr) × AreReady image fp image-IsImage image-HasTasks 10 (omega arith) 2 rs k')
        × (k'.screen ≡ (kernel empty (queue 32)).screen))
      (init image fp (kernel empty (queue 32)))
init-AreReady_example =
    init-AreReady image fp image-IsImage image-HasTasks 10 (omega arith) (kernel empty (queue 32))
      refl

abbrev handlers : Handlers
handlers = record {
  default_handler = λ n. 4096 + n;
  syscall_handler = 8192;
  timer_handler = 8256;
  unimplemented_handler = 8320;
}

abbrev cold : Kernel
cold = kernel empty empty

cold-IsFresh : IsFresh image cold
cold-IsFresh = record { few = omega arith; room = omega arith }

start-IsSound_example :
    Returns
      (IsSound image fp image-IsImage)
      (asm_start handlers 512 image (priority_scheduler image fp) multiboot_loader_magic cold)
start-IsSound_example =
    start-IsSound handlers 512 image fp image-IsImage image-HasTasks cold cold-IsFresh

started :
    (k : Kernel) × (asm_start handlers 512 image
        (priority_scheduler image fp)
        multiboot_loader_magic
        cold
      ≡ ok k)
    × IsSound image fp image-IsImage k
started =
    result (start-IsSound handlers 512 image fp image-IsImage image-HasTasks cold cold-IsFresh)

started-IsSound_example :
    IsSound image fp image-IsImage started.0
    × Returns
        (IsSound image fp image-IsImage)
        (respond image (priority_scheduler image fp) (tick registers frame) started.0)
started-IsSound_example =
    started-IsSound handlers 512 image fp image-IsImage image-HasTasks cold started.0 started.0
      (tick registers frame) cold-IsFresh started.1 start tt

abbrev turning : Scheduler
turning = round_robin_scheduler image

start-IsTurning_example :
    Returns
      (λ k'. IsFirstTurn image image-HasTasks k' × IsTurning image image-HasReserve k')
      (asm_start handlers 512 image turning multiboot_loader_magic cold)
start-IsTurning_example =
    start-IsTurning handlers 512 image image-HasReserve image-HasTasks (ground arith) cold
      cold-IsFresh

turning_started :
    (k : Kernel) × (asm_start handlers 512 image turning multiboot_loader_magic cold ≡ ok k)
    × (IsFirstTurn image image-HasTasks k × IsTurning image image-HasReserve k)
turning_started = result (
    start-IsTurning handlers 512 image image-HasReserve image-HasTasks (ground arith) cold
      cold-IsFresh)

started-IsTurning_example :
    IsTurning image image-HasReserve turning_started.0
    × Returns
        (IsTurning image image-HasReserve)
        (respond image turning (tick registers frame) turning_started.0)
started-IsTurning_example =
    started-IsTurning handlers 512 image image-HasReserve image-HasTasks (ground arith) cold
      turning_started.0 turning_started.0 (tick registers frame) cold-IsFresh turning_started.1
      start tt

init-turns_example :
    Returns
      (λ (qs, k'). IsFair image image-HasTasks qs)
      (RoundRobin.init image (kernel empty empty) >>= turns image image-HasTasks 2)
init-turns_example = init-turns image image-HasTasks (kernel empty empty)

handlers-AreAddresses : AreAddresses handlers
handlers-AreAddresses = record {
  default_address = λ i h. omega arith;
  syscall_address = omega arith;
  timer_address = omega arith;
  unimplemented_address = omega arith;
}

-- The gate of the system calls.
init_interrupts-gate_example :
    let d = (init_interrupts handlers cold).processor.idt 0x27 in
    (gate_offset d ≡ 8192)
    × (gate_selector d ≡ kernel_selector)
    × (gate_type d ≡ 14)
    × (gate_privilege d ≡ 3)
    × (gate_present d ≡ 1)
init_interrupts-gate_example =
    init_interrupts-gate handlers cold 0x27 handlers-AreAddresses (omega arith)
