-- ===== src/Segment/Load.antt =====
-- Loading the segment registers (educrtos/segment.h) and the register of the GDT (lgdt of
-- educrtos/low_level.c).
use rtas2021_artifact.Base.{ℕ}
use rtas2021_artifact.Bits.{u16}
use rtas2021_artifact.Kernel.{Kernel}

abbrev pub load_code_segment : ℕ → Kernel → Kernel
load_code_segment newcs k = record k { processor = record k.processor { cs = u16 newcs } }

-- `ss`, `ds`, `es`, `fs` and `gs`.
abbrev pub load_data_segments : ℕ → Kernel → Kernel
load_data_segments newds k = record k {
  processor = record k.processor { data_segments = u16 newds; ds = u16 newds };
}

abbrev pub load_ds_reg : ℕ → Kernel → Kernel
load_ds_reg newds k = record k { processor = record k.processor { ds = u16 newds } }

abbrev pub load_tr : ℕ → Kernel → Kernel
load_tr ntr k = record k { processor = record k.processor { tr = u16 ntr } }

-- The limit has 16 bits; the base is that of `system_gdt`.
abbrev pub lgdt : ℕ → Kernel → Kernel
lgdt size k = record k { processor = record k.processor { gdtr_limit = u16 size } }
