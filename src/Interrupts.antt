-- ===== src/Interrupts.antt =====
-- The interrupt descriptor table and the initialisation of the processor (educrtos/low_level.c).
pub mod Gates
pub mod Filled
pub mod Vectors
pub mod Vocabulary
pub mod Exceptions
use rtas2021_artifact.Base.{
  ℕ, zero, suc, ◌+◌, ◌*◌, List, [], ◌∷◌, Option, none, some, bit_and, bit_or, ◌==◌, if◌then◌else◌,
  Run, ok, ◌>>=◌, codes,
}
use rtas2021_artifact.Bits.{◌<<<◌, u16, u64}
use rtas2021_artifact.Segment.{
  gdt_segment_selector, create_tss_descriptor, null_descriptor, kernel_code_descriptor,
  kernel_data_descriptor,
}
use rtas2021_artifact.Segment.Load.{lgdt, load_code_segment, load_data_segments, load_tr}
use rtas2021_artifact.Image.{Image}
use rtas2021_artifact.Kernel.{Kernel}
use rtas2021_artifact.Terminal.{terminal_initialize}
use rtas2021_artifact.Format.{fatal, task_fatal, word}
use rtas2021_artifact.LowLevel.{
  kernel_code_segment_index, kernel_data_segment_index, tss_segments_first_index, gdt_size,
  user_task_descriptors_size, tss_size,
}
use rtas2021_artifact.Timer.{init_pic, timer_init, timer_intnum, spurious_timer_intnum}

abbrev pub syscall_intnum : ℕ
syscall_intnum = 0x27

abbrev pub nb_gate_descriptors : ℕ
nb_gate_descriptors = 256

-- create_interrupt_gate_descriptor(func_ptr, code_segment_selector, privilege, size).
unfoldable pub create_interrupt_gate_descriptor : (func_ptr selector privilege size : ℕ) → ℕ
create_interrupt_gate_descriptor func_ptr selector privilege size =
    bit_or (bit_or (bit_and func_ptr 0xFFFF) (selector <<< 16)) (
      u64 (
        bit_or (bit_and func_ptr 0xFFFF0000)
          (bit_or (bit_or (bit_or (1 <<< 15) (privilege <<< 13)) (size <<< 11)) (6 <<< 8))
        <<< 32))

-- The addresses of the handlers in assembly.
pub record Handlers : Type 0 where
  pub default_handler : ℕ → ℕ
  pub syscall_handler : ℕ
  pub timer_handler : ℕ
  pub unimplemented_handler : ℕ

abbrev pub install : ℕ → ℕ → (ℕ → ℕ) → ℕ → ℕ
install x gate idt i = if i == x then gate else idt i

-- FOREACH_256(M) is M(0), and so on up to M(255).
unfoldable pub foreach_below : {A : Type 0} → (ℕ → A → A) → ℕ → A → A
foreach_below m zero a = a
foreach_below m (suc n) a = m n (foreach_below m n a)

unfoldable pub foreach_256 : {A : Type 0} → (ℕ → A → A) → A → A
foreach_256 m a = foreach_below m 256 a

-- FOREACH_256(INSTALL_DEFAULT_HANDLER).
unfoldable pub install_default : Handlers → (ℕ → ℕ) → ℕ → ℕ
unfolding foreach_256
install_default handlers = foreach_256 λ (n : ℕ). install n (
    create_interrupt_gate_descriptor (handlers.default_handler n)
      (gdt_segment_selector 0 kernel_code_segment_index) 3 1)

-- The table that init_interrupts() fills.
unfoldable pub init_idt : Handlers → (ℕ → ℕ) → ℕ → ℕ
unfolding install_default
init_idt handlers idt0 =
    let selector = gdt_segment_selector 0 kernel_code_segment_index in
    let idt1 = install_default handlers idt0 in
    let idt2 =
      install syscall_intnum
        (create_interrupt_gate_descriptor handlers.syscall_handler selector 3 1) idt1 in
    let idt3 =
      install timer_intnum (create_interrupt_gate_descriptor handlers.timer_handler selector 0 1)
        idt2 in
    install spurious_timer_intnum
      (create_interrupt_gate_descriptor handlers.unimplemented_handler selector 0 1) idt3

-- init_interrupts(), with the limit that it gives to `lidt`: sizeof(idt) as a uint16_t.
unfoldable pub init_interrupts : Handlers → Kernel → Kernel
unfolding init_idt
init_interrupts handlers k =
    let k' = init_pic k in
    record k' {
      processor = record k'.processor {
        idt = init_idt handlers k'.processor.idt;
        idtr_limit = u16 (nb_gate_descriptors * 8);
      };
    }

-- The part of low_level_init behind the check of the magic value, with the address of the TSS.
unfoldable pub load_tables : ℕ → Image → Kernel → Kernel
load_tables tss_address image k =
    let described = record k {
      system_gdt = record k.system_gdt {
        null_entry = null_descriptor;
        kernel_code = kernel_code_descriptor;
        kernel_data = kernel_data_descriptor;
        tss = create_tss_descriptor tss_address tss_size 3 0 0;
      };
      processor = record k.processor { ss0 = gdt_segment_selector 0 kernel_data_segment_index };
    } in
    load_tr (gdt_segment_selector 0 tss_segments_first_index) (
      load_data_segments (gdt_segment_selector 0 kernel_data_segment_index) (
        load_code_segment (gdt_segment_selector 0 kernel_code_segment_index)
          (lgdt (gdt_size + image.nb_tasks * user_task_descriptors_size) described)))

-- low_level_init(magic_value, mbi), which ignores `mbi`.
unfoldable pub low_level_init : Handlers → ℕ → Image → ℕ → Kernel → Run Kernel
low_level_init handlers tss_address image magic_value k = do
  screen ← terminal_initialize k.screen
  let k' = record k { screen = screen }
  if magic_value == 0x2BADB002
      then ok (timer_init (init_interrupts handlers (load_tables tss_address image k')))
      else fatal 0 (codes "Not loaded by a multiboot loader") []
