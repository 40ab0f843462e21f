-- ===== src/Handlers/Exceptions.antt =====
-- An exception of a running task (asm_default_interrupt_handler_x of educrtos/low_level.c).
use rtas2021_artifact.Base.{ℕ, ◌<◌, ◌≡◌, refl, List, halt, result, arith}
use rtas2021_artifact.Store.{Pusha, InterPrivilegeInterruptFrame}
use rtas2021_artifact.Image.{Image}
use rtas2021_artifact.Kernel.{Kernel, Scheduler}
use rtas2021_artifact.Contract.{Contract}
use rtas2021_artifact.Interrupts.Vectors.{asm_default_interrupt_handler}
use rtas2021_artifact.Interrupts.Exceptions.{Told, default_interrupt_handler-halt}
use rtas2021_artifact.Handlers.Entry.{IsUser, interrupt_prologue-Entered}

-- While a task runs, it is interrupted with any vector, and the processor pushes no error code, as
-- with the instruction `int`: then the handler of that vector which init_interrupts installs by
-- default stops the machine, with the message of the exception if the vector is that of one, and
-- otherwise with a report that gives the number in decimal and in hexadecimal digits that read back as
-- the number.
pub asm_default_interrupt_handler-halt :
    (image : Image) (s : Scheduler) (c : Contract image s) (junk num : ℕ) (regs : Pusha)
    (frame : InterPrivilegeInterruptFrame) (k : Kernel)
    → num < 256
    → IsUser image s c k
    → (text : List ℕ) × (asm_default_interrupt_handler junk num regs frame k ≡ halt text)
      × Told num text
unfolding asm_default_interrupt_handler
asm_default_interrupt_handler-halt image s c junk num regs frame k small user =
    let (r, entered, saved) = result (interrupt_prologue-Entered image s c regs frame k user) in
    let (text, stops, described) = default_interrupt_handler-halt junk num (omega arith) in
    (text, rw (entered, stops) refl, described)
