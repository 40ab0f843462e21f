-- ===== src/UserTasks.antt =====
-- The user side of the system calls (educrtos/user_tasks.h, educrtos/low_level.h): what a task puts
-- into its registers before `int`, and the whole way of a call through the kernel.
pub mod Yield
use rtas2021_artifact.Base.{ℕ, bit_and, ltb, if◌then◌else◌, [], Run, halt, ◌>>=◌}
use rtas2021_artifact.Bits.{◌>>>◌, u8, u32}
use rtas2021_artifact.Store.{Pusha, InterPrivilegeInterruptFrame}
use rtas2021_artifact.Image.{Image}
use rtas2021_artifact.Kernel.{Kernel, Scheduler}
use rtas2021_artifact.LowLevel.{interrupt_prologue}
use rtas2021_artifact.HighLevel.{syscall_array, syscall_number}

-- syscall1(arg), syscall1_1(arg), syscall2(arg1, arg2) and syscall5(arg1, …, arg5).
abbrev pub syscall1 : ℕ → Pusha → Pusha
syscall1 arg regs = record regs { ebx = arg }

abbrev pub syscall2 : (arg1 arg2 : ℕ) → Pusha → Pusha
syscall2 arg1 arg2 regs = record regs { ebx = arg1; edx = arg2 }

abbrev pub syscall5 : (arg1 arg2 arg3 arg4 arg5 : ℕ) → Pusha → Pusha
syscall5 arg1 arg2 arg3 arg4 arg5 regs = record regs {
  ebx = arg1;
  edx = arg2;
  ecx = arg3;
  esi = arg4;
  edi = arg5;
}

-- yield(next_wakeup, next_deadline), putchar(x) and dup_thread().
unfoldable pub yield : (next_wakeup next_deadline : ℕ) → Pusha → Pusha
yield next_wakeup next_deadline =
    syscall5 0 (u32 (next_wakeup >>> 32)) (u32 (bit_and next_wakeup 0xFFFFFFFF))
      (u32 (next_deadline >>> 32)) (u32 (bit_and next_deadline 0xFFFFFFFF))

unfoldable pub putchar : ℕ → Pusha → Pusha
putchar x = syscall2 1 (u8 x)

unfoldable pub dup_thread : Pusha → Pusha
dup_thread = syscall1 2

-- asm_syscall_handler: the number in `ebx` is checked, and a wrong one stops the machine.
unfoldable pub asm_syscall_handler :
    Image → Scheduler → Pusha → InterPrivilegeInterruptFrame → Kernel → Run Kernel
asm_syscall_handler image scheduler regs frame k = do
  (ctx, k') ← interrupt_prologue regs frame k
  let call = syscall_array image scheduler regs.ebx ctx k'
  if ltb regs.ebx syscall_number then call else halt []
