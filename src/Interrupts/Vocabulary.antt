-- ===== src/Interrupts/Vocabulary.antt =====
-- The exceptions of an x86 processor: the vector of each in the processor's manual, and the message
-- that a user of the kernel expects for it.
use rtas2021_artifact.Base.{ℕ, List, codes}

pub data Exception : Type 0 where
  divide_error debug_trap nonmaskable breakpoint_trap overflow_trap bound_range undefined_opcode
        no_coprocessor :
      Exception
  double_fault coprocessor_overrun invalid_tss segment_absent stack_fault general_protection
        page_fault :
      Exception
  x87_error alignment machine_check simd_error virtualization security : Exception

-- The vector of the processor's manual.
unfoldable pub vector : Exception → ℕ
vector divide_error = 0
vector debug_trap = 1
vector nonmaskable = 2
vector breakpoint_trap = 3
vector overflow_trap = 4
vector bound_range = 5
vector undefined_opcode = 6
vector no_coprocessor = 7
vector double_fault = 8
vector coprocessor_overrun = 9
vector invalid_tss = 10
vector segment_absent = 11
vector stack_fault = 12
vector general_protection = 13
vector page_fault = 14
vector x87_error = 16
vector alignment = 17
vector machine_check = 18
vector simd_error = 19
vector virtualization = 20
vector security = 30

unfoldable pub message : Exception → List ℕ
message divide_error = codes "Division by zero exception\n"
message debug_trap = codes "Debug exception\n"
message nonmaskable = codes "Non maskable interrupt exception\n"
message breakpoint_trap = codes "Breakpoint exception\n"
message overflow_trap = codes "Overflow exception\n"
message bound_range = codes "Bound range exceeded exception\n"
message undefined_opcode = codes "Invalid opcode exception\n"
message no_coprocessor = codes "Device not available exception\n"
message double_fault = codes "Double fault exception\n"
message coprocessor_overrun = codes "Coprocessor segment overrun exception\n"
message invalid_tss = codes "Invalid TSS exception\n"
message segment_absent = codes "Segment not present exception\n"
message stack_fault = codes "Stack segment fault exception\n"
message general_protection = codes "General protection fault exception\n"
message page_fault = codes "Page fault exception\n"
message x87_error = codes "X86 floating point exception\n"
message alignment = codes "Alignment check exception\n"
message machine_check = codes "Machine check exception\n"
message simd_error = codes "SIMD floating point exception\n"
message virtualization = codes "Virtualization exception\n"
message security = codes "Security exception\n"
