-- ===== src/LowLevel.antt =====
-- Contexts on the hardware (educrtos/low_level.c under DYNAMIC_DESCRIPTORS and UNPRIVILEGED_IDLE):
-- their initialisation, the switch to a context, and the way back into the kernel.
use rtas2021_artifact.Base.{ℕ, ◌+◌, ◌-◌, ◌^◌, Bool, bit_or, ◌==◌, Run, ok, ◌>>=◌}
use rtas2021_artifact.Bits.{◌<<<◌, u32}
use rtas2021_artifact.Segment.{gdt_segment_selector, create_code_descriptor, create_data_descriptor}
use rtas2021_artifact.Segment.Load.{load_ds_reg}
use rtas2021_artifact.Store.{Ptr, HwContext, Pusha, InterPrivilegeInterruptFrame, load, store}
use rtas2021_artifact.Image.{Image}
use rtas2021_artifact.Kernel.{Kernel, context_idle}

-- The indices of `struct system_gdt`: the offsets of its fields divided by 8.
abbrev pub kernel_code_segment_index : ℕ
kernel_code_segment_index = 1

abbrev pub kernel_data_segment_index : ℕ
kernel_data_segment_index = 2

abbrev pub user_code_segment_index : ℕ
user_code_segment_index = 3

abbrev pub user_data_segment_index : ℕ
user_data_segment_index = 4

abbrev pub tss_segments_first_index : ℕ
tss_segments_first_index = 5

-- sizeof(struct system_gdt), sizeof(struct user_task_descriptors), sizeof(struct tss),
-- sizeof(struct pusha) and sizeof(struct inter_privilege_interrupt_frame).
abbrev pub gdt_size : ℕ
gdt_size = 48

abbrev pub user_task_descriptors_size : ℕ
user_task_descriptors_size = 16

abbrev pub tss_size : ℕ
tss_size = 104

abbrev pub pusha_size : ℕ
pusha_size = 32

abbrev pub frame_size : ℕ
frame_size = 20

-- The reserved flag and the interrupt enable flag.
abbrev pub user_flags : ℕ
user_flags = bit_or (1 <<< 1) (1 <<< 9)

-- hw_context_init(ctx, pc, arg, start_address, end_address), not under DEBUG.
unfoldable pub hw_context_init : HwContext → (pc arg start_address end_address : ℕ) → HwContext
unfolding gdt_segment_selector
hw_context_init hw pc arg start_address end_address = record hw {
  regs = record hw.regs { eax = arg };
  iframe = record hw.iframe {
    eip = pc;
    cs = gdt_segment_selector 3 user_code_segment_index;
    flags = user_flags;
    ss = gdt_segment_selector 3 user_data_segment_index;
  };
  start_address = start_address;
  memsize = u32 (end_address + 2 ^ 32 - start_address);
}

-- hw_context_idle_init(ctx), where `idle` is the address of `_idle`.
pub hw_context_idle_init : ℕ → HwContext → HwContext
unfolding gdt_segment_selector
hw_context_idle_init idle hw = record hw {
  iframe = record hw.iframe {
    eip = idle;
    cs = gdt_segment_selector 3 kernel_code_segment_index;
    flags = user_flags;
    ss = gdt_segment_selector 3 user_data_segment_index;
  };
  start_address = 0;
  memsize = 0xFFFFFFFF;
}

unfoldable pub hw_context_set_return1 : HwContext → ℕ → HwContext
hw_context_set_return1 hw ret1 = record hw { regs = record hw.regs { eax = ret1 } }

-- hw_context_switch_no_idle(ctx): it ends by `popa; iret` from the context.
unfoldable pub hw_context_switch_no_idle : Ptr → Kernel → Run Kernel
hw_context_switch_no_idle ctx k = do
  c ← load ctx k.mem
  let hw = c.hw_context
  let switched = record k {
    system_gdt = record k.system_gdt {
      user_code = create_code_descriptor hw.start_address hw.memsize 3 0 1 0 1 1;
      user_data = create_data_descriptor hw.start_address hw.memsize 3 0 1 0 1 1;
    };
    processor = record k.processor { esp0 = u32 (ctx + pusha_size + frame_size); running = ctx };
  }
  ok (load_ds_reg hw.iframe.ss switched)

-- hw_context_switch(ctx), and hw_context_idle(), which switches to the idle context.
unfoldable pub hw_context_switch : Ptr → Kernel → Run Kernel
unfolding hw_context_switch_no_idle
hw_context_switch ctx k = hw_context_switch_no_idle ctx k

pub hw_context_idle : Image → Kernel → Run Kernel
unfolding hw_context_switch context_idle
hw_context_idle image k = hw_context_switch (context_idle image) k

pub hw_context_is_idle : Image → Ptr → Bool
unfolding context_idle
hw_context_is_idle image ctx = ctx == context_idle image

-- INTERRUPT_HANDLER_PROLOGUE, entered from privilege level 3, at which all contexts run, the idle one
-- too under UNPRIVILEGED_IDLE, and not from the kernel, which runs with interrupts disabled: the
-- processor pushes the frame below `esp0`, and `pusha` the registers below that. The handler gets the
-- address where these begin as the pointer to the context.
unfoldable pub interrupt_prologue :
    Pusha → InterPrivilegeInterruptFrame → Kernel → Run (Ptr × Kernel)
interrupt_prologue regs frame k = do
  let ctx = u32 (k.processor.esp0 + 2 ^ 32 - frame_size - pusha_size)
  c ← load ctx k.mem
  m ←
      store ctx (record c { hw_context = record c.hw_context { regs = regs; iframe = frame } })
        k.mem
  ok (
    ctx,
    record k { mem = m; processor = record k.processor { ds = kernel_data_segment_index <<< 3 } },
  )

-- What the task that was resumed finds in its registers.
pub resumed : Kernel → Pusha × InterPrivilegeInterruptFrame
resumed k = let hw = (k.mem k.processor.running).hw_context in (hw.regs, hw.iframe)
