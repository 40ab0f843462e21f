-- ===== src/Tests/Sample.antt =====
-- A small kernel: two contexts, at 16 and 32, and the idle context at 64.
use rtas2021_artifact.Base.{[], ◌∷◌}
use rtas2021_artifact.Store.{Ptr, null, Pusha, InterPrivilegeInterruptFrame, Context, Store}
use rtas2021_artifact.Queue.{Heap}
use rtas2021_artifact.Terminal.{Terminal}
use rtas2021_artifact.Image.{Image}
use rtas2021_artifact.Kernel.{Kernel}

abbrev pub registers : Pusha
registers = record { edi = 0; esi = 0; ebp = 0; esp = 0; ebx = 0; edx = 0; ecx = 0; eax = 0 }

abbrev pub frame : InterPrivilegeInterruptFrame
frame = record { eip = 0; cs = 27; flags = 514; esp = 0; ss = 35 }

abbrev pub context : Context
context = record {
  hw_context = record { regs = registers; iframe = frame; start_address = 4096; memsize = 8192 };
  sched_context = record { wakeup_date = 5; deadline = 9; priority = 1; next = null };
  pid = 0;
  range = 8;
}

abbrev pub mem : Store
mem a = context

abbrev pub image : Image
image = record {
  nb_tasks = 2;
  nb_contexts = 16;
  tasks =
      record { context = 16; start_pc = 0; task_begin = 4096; task_end = 12288; priority = 1 }
      ∷ record { context = 32; start_pc = 0; task_begin = 12288; task_end = 20480; priority = 2 }
      ∷ [];
  idle_start = 4096;
  idle_end = 8192;
  idle_ctx_array = 64;
  reserve = 1024;
  context_size = 88;
}

abbrev pub screen : Terminal
screen = record { row = 24; column = 79; color = 7; buffer = λ j. 0 }

-- `queue h` holds the context `h` alone, and `empty` nothing.
abbrev pub queue : Ptr → Heap
queue h = record { size = 1; head = h }

abbrev pub empty : Heap
empty = record { size = 0; head = null }

abbrev pub kernel : Heap → Heap → Kernel
kernel ready waiting = record {
  mem = mem;
  ready_heap = ready;
  waiting_heap = waiting;
  current = 16;
  current_time = 0;
  next_wake_date = 0;
  count = 0;
  idx_reserve = 10;
  system_gdt = record {
    null_entry = 0;
    kernel_code = 0;
    kernel_data = 0;
    user_code = 0;
    user_data = 0;
    tss = 0;
  };
  processor = record {
    gdtr_limit = 0;
    idtr_limit = 0;
    idt = λ i. 0;
    esp0 = 68;
    ss0 = 0;
    cs = 0;
    data_segments = 0;
    ds = 0;
    tr = 0;
    ports = [];
    running = 16;
  };
  screen = screen;
}
