-- ===== src/Interrupts/Vectors.antt =====
-- The exceptions and their handler (educrtos/low_level.h, educrtos/low_level.c).
use rtas2021_artifact.Base.{
  ℕ, List, [], ◌∷◌, Option, none, some, ◌==◌, if◌then◌else◌, Run, ◌>>=◌, codes,
}
use rtas2021_artifact.Store.{Pusha, InterPrivilegeInterruptFrame}
use rtas2021_artifact.Kernel.{Kernel}
use rtas2021_artifact.Format.{fatal, task_fatal, word}
use rtas2021_artifact.LowLevel.{interrupt_prologue}

-- The exceptions among `enum interrupt_number`.
abbrev pub divide_by_zero_intnum : ℕ
divide_by_zero_intnum = 0x00

abbrev pub debug_intnum : ℕ
debug_intnum = 0x01

abbrev pub non_maskable_interrupt_intnum : ℕ
non_maskable_interrupt_intnum = 0x02

abbrev pub breakpoint_intnum : ℕ
breakpoint_intnum = 0x03

abbrev pub overflow_intnum : ℕ
overflow_intnum = 0x04

abbrev pub bound_range_exceeded_intnum : ℕ
bound_range_exceeded_intnum = 0x05

abbrev pub invalid_opcode_intnum : ℕ
invalid_opcode_intnum = 0x06

abbrev pub device_not_available_intnum : ℕ
device_not_available_intnum = 0x07

abbrev pub double_fault_intnum : ℕ
double_fault_intnum = 0x08

abbrev pub coprocessor_segment_overrun_intnum : ℕ
coprocessor_segment_overrun_intnum = 0x09

abbrev pub invalid_tss_intnum : ℕ
invalid_tss_intnum = 0x0a

abbrev pub segment_not_present_intnum : ℕ
segment_not_present_intnum = 0x0b

abbrev pub stack_segment_fault_intnum : ℕ
stack_segment_fault_intnum = 0x0c

abbrev pub general_protection_fault_intnum : ℕ
general_protection_fault_intnum = 0x0d

abbrev pub page_fault_intnum : ℕ
page_fault_intnum = 0x0e

abbrev pub reserved_intnum : ℕ
reserved_intnum = 0x0f

abbrev pub x87_floating_point_exception_intnum : ℕ
x87_floating_point_exception_intnum = 0x10

abbrev pub alignment_check_intnum : ℕ
alignment_check_intnum = 0x11

abbrev pub machine_check_intnum : ℕ
machine_check_intnum = 0x12

abbrev pub simd_floating_point_exception_intnum : ℕ
simd_floating_point_exception_intnum = 0x13

abbrev pub virtualization_exception_intnum : ℕ
virtualization_exception_intnum = 0x14

abbrev pub security_exception_intnum : ℕ
security_exception_intnum = 0x1e

-- The cases of the switch in default_interrupt_handler.
abbrev pub exception_cases : List (ℕ × List ℕ)
exception_cases =
    (divide_by_zero_intnum, codes "Division by zero exception\n")
    ∷ (debug_intnum, codes "Debug exception\n")
    ∷ (non_maskable_interrupt_intnum, codes "Non maskable interrupt exception\n")
    ∷ (breakpoint_intnum, codes "Breakpoint exception\n")
    ∷ (overflow_intnum, codes "Overflow exception\n")
    ∷ (bound_range_exceeded_intnum, codes "Bound range exceeded exception\n")
    ∷ (invalid_opcode_intnum, codes "Invalid opcode exception\n")
    ∷ (device_not_available_intnum, codes "Device not available exception\n")
    ∷ (double_fault_intnum, codes "Double fault exception\n")
    ∷ (coprocessor_segment_overrun_intnum, codes "Coprocessor segment overrun exception\n")
    ∷ (invalid_tss_intnum, codes "Invalid TSS exception\n")
    ∷ (segment_not_present_intnum, codes "Segment not present exception\n")
    ∷ (stack_segment_fault_intnum, codes "Stack segment fault exception\n")
    ∷ (general_protection_fault_intnum, codes "General protection fault exception\n")
    ∷ (page_fault_intnum, codes "Page fault exception\n")
    ∷ (x87_floating_point_exception_intnum, codes "X86 floating point exception\n")
    ∷ (alignment_check_intnum, codes "Alignment check exception\n")
    ∷ (machine_check_intnum, codes "Machine check exception\n")
    ∷ (simd_floating_point_exception_intnum, codes "SIMD floating point exception\n")
    ∷ (virtualization_exception_intnum, codes "Virtualization exception\n")
    ∷ (security_exception_intnum, codes "Security exception\n")
    ∷ []

unfoldable pub case_of : ℕ → List (ℕ × List ℕ) → Option (List ℕ)
case_of num [] = none
case_of num ((value, text) ∷ cases) = if num == value then some text else case_of num cases

-- The text that default_interrupt_handler prints for an exception of a task.
unfoldable pub exception_text : ℕ → Option (List ℕ)
unfolding case_of
exception_text num = case_of num exception_cases

-- default_interrupt_handler(num): it never returns.
unfoldable pub default_interrupt_handler : ℕ → ℕ → Run Kernel
unfolding exception_text
default_interrupt_handler junk num = elim (exception_text num) [
  | some text ↦ task_fatal junk text []
  | none ↦ fatal junk (codes "Received unexpected interrupt: %d (%x)\n") (word num ∷ word num ∷ [])
]

-- asm_default_interrupt_handler_x, entered from privilege level 3 with no error code pushed, as by the
-- instruction `int x`, or by an exception that has none: the registers are saved, then the handler is called.
unfoldable pub asm_default_interrupt_handler :
    (junk num : ℕ) → Pusha → InterPrivilegeInterruptFrame → Kernel → Run Kernel
unfolding default_interrupt_handler
asm_default_interrupt_handler junk num regs frame k = do
  (ctx, k') ← interrupt_prologue regs frame k
  default_interrupt_handler junk num
