-- ===== src/Tests/Calls.antt =====
-- Examples of the theorems on the system calls.
use rtas2021_artifact.Base.{ℕ, List, codes, ◌∷◌, [], ◌≡◌, refl, arith, Returns, halt}
use rtas2021_artifact.Kernel.{Kernel, context_is_idle}
use rtas2021_artifact.PriorityScheduler.{fp, priority_scheduler}
use rtas2021_artifact.PriorityScheduler.Sound.{priority_contract}
use rtas2021_artifact.HighLevel.{dup_thread_handler}
use rtas2021_artifact.UserTasks.{dup_thread, asm_syscall_handler}
use rtas2021_artifact.Interrupts.Vectors.{asm_default_interrupt_handler}
use rtas2021_artifact.Interrupts.Exceptions.{Told}
use rtas2021_artifact.Handlers.Exceptions.{asm_default_interrupt_handler-halt}
use rtas2021_artifact.Image.{reserve_at}
use rtas2021_artifact.Handlers.Duplicate.{Duplicated, dup_thread_handler-Duplicated}
use rtas2021_artifact.Handlers.Entry.{IsUser}
use rtas2021_artifact.Handlers.Calls.{asm_syscall_handler-exhausted}
use rtas2021_artifact.System.{IsSound}
use rtas2021_artifact.Tests.Sample.{image, registers, frame}
use rtas2021_artifact.Tests.Queues.{waiting-Queues, image-IsImage}
use rtas2021_artifact.Tests.System.{sample, sample-Governs, sample-IsSound}

dup_thread_handler-Duplicated_example :
    Returns
      (λ k'.
        IsUser image (priority_scheduler image fp) (priority_contract image fp image-IsImage) k'
        × Duplicated sample 16 (reserve_at image 9) k')
      (dup_thread_handler image (priority_scheduler image fp) 16 sample)
unfolding priority_contract context_is_idle
dup_thread_handler-Duplicated_example =
    dup_thread_handler-Duplicated image (priority_scheduler image fp)
      (priority_contract image fp image-IsImage) sample 16 (ground arith) (ground arith) refl
      (record { row = omega arith; column = omega arith }) sample-Governs

-- 16 runs, 32 waits, and no context is left in reserve.
abbrev spent : Kernel
spent = record sample { idx_reserve = 0 }

spent-IsSound : IsSound image fp image-IsImage spent
unfolding priority_contract context_is_idle
spent-IsSound = record {
  runs = record {
    held = record {
      rs = [];
      ws = 32 ∷ [];
      queues = record {
        ready_is = waiting-Queues.ready_is;
        waiting_is = waiting-Queues.waiting_is;
        ready_sorted = tt;
        waiting_sorted = waiting-Queues.waiting_sorted;
        apart = waiting-Queues.apart;
        room = omega arith;
      };
      tasks = record {
        addresses = λ a i. ground arith;
        no_idle = refl;
        few = omega arith;
        fresh = λ i l. absurd (omega arith);
      };
      not_null = ground arith;
      address = omega arith;
      outside = refl;
      no_spare = λ i l. absurd (omega arith);
      room = omega arith;
      own_room = λ busy. omega arith;
    };
    highest = tt;
    idle_alone = λ idle. refl;
  };
  saved_in = refl;
  screen = record { row = omega arith; column = omega arith };
}

asm_syscall_handler-exhausted_example :
    asm_syscall_handler image (priority_scheduler image fp) (dup_thread registers) frame spent
    ≡ halt (codes "Not enough ctx in reserve\n")
unfolding dup_thread
asm_syscall_handler-exhausted_example =
    asm_syscall_handler-exhausted image (priority_scheduler image fp)
      (priority_contract image fp image-IsImage) (dup_thread registers) frame spent refl
      (ground arith) refl spent-IsSound

-- The vector 0x50 has no message of its own.
asm_default_interrupt_handler-halt_example :
    (text : List ℕ) × (asm_default_interrupt_handler 0 0x50 registers frame sample ≡ halt text)
    × Told 0x50 text
asm_default_interrupt_handler-halt_example =
    asm_default_interrupt_handler-halt image (priority_scheduler image fp)
      (priority_contract image fp image-IsImage) 0 0x50 registers frame sample (omega arith)
      sample-IsSound
