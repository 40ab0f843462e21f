-- ===== src/Segment.antt =====
-- x86 segment selectors and descriptors (educrtos/segment.h, educrtos/low_level.c) and gate
-- descriptors. All values are bit patterns.
pub mod Fields
pub mod Load
use rtas2021_artifact.Base.{
  ℕ, zero, suc, ◌+◌, ◌-◌, ◌*◌, ◌/◌, ◌%◌, ◌^◌, Bool, true, false, bit_and, bit_or, ltb, leb, ◌==◌,
  if◌then◌else◌,
}
use rtas2021_artifact.Bits.{◌<<<◌, ◌>>>◌, u32, u64, u16}

-- __segment_selector(privilege, in_ldt, index)
unfoldable pub segment_selector : ℕ → Bool → ℕ → ℕ
segment_selector privilege in_ldt index =
    bit_or (bit_or (bit_and privilege 3) ((if in_ldt then 1 else 0) <<< 2)) (index <<< 3)

unfoldable pub gdt_segment_selector : ℕ → ℕ → ℕ
unfolding segment_selector
gdt_segment_selector privilege index = segment_selector privilege false index

pub ldt_segment_selector : ℕ → ℕ → ℕ
unfolding segment_selector
ldt_segment_selector privilege index = segment_selector privilege true index

-- The access byte of `create_descriptor`.
access_byte : (present privilege normal_segment permissions accessed : ℕ) → ℕ
access_byte present privilege normal_segment permissions accessed =
    bit_or
      (bit_or (bit_or (bit_or accessed (permissions <<< 1)) (normal_segment <<< 4))
        (privilege <<< 5))
      (present <<< 7)

-- The upper 32 bits, before the shift.
descriptor_high :
    (base limit present privilege normal_segment permissions accessed granularity size : ℕ) → ℕ
unfolding access_byte
descriptor_high base limit present privilege normal_segment permissions accessed granularity size =
    bit_or
      (bit_or
        (bit_or (bit_or (bit_and limit 0x000F0000) (bit_and (base >>> 16) 0x000000FF))
          (bit_and base 0xFF000000))
        (access_byte present privilege normal_segment permissions accessed <<< 8))
      (bit_or (size <<< 2) (granularity <<< 3) <<< 20)

-- create_descriptor(base, limit, present, privilege, normal_segment, permissions, accessed,
-- granularity, size), for 32-bit `base` and `limit`.
unfoldable pub create_descriptor :
    (base limit present privilege normal_segment permissions accessed granularity size : ℕ) → ℕ
unfolding descriptor_high
create_descriptor base limit present privilege normal_segment permissions accessed granularity
      size =
    bit_or
      (bit_or
        (u64 (
          descriptor_high base limit present privilege normal_segment permissions accessed
            granularity size
          <<< 32))
        (u32 (base <<< 16)))
      (bit_and limit 0x0000FFFF)

unfoldable pub create_code_descriptor :
    (base limit privilege conforming readable accessed granularity size : ℕ) → ℕ
unfolding create_descriptor
create_code_descriptor base limit privilege conforming readable accessed granularity size =
    create_descriptor base limit 1 privilege 1 (bit_or (bit_or 4 (conforming <<< 1)) readable)
      accessed granularity size

unfoldable pub create_data_descriptor :
    (base limit privilege growdown writable accessed granularity size : ℕ) → ℕ
unfolding create_descriptor
create_data_descriptor base limit privilege growdown writable accessed granularity size =
    create_descriptor base limit 1 privilege 1 (bit_or (bit_or 0 (growdown <<< 1)) writable)
      accessed granularity size

unfoldable pub create_tss_descriptor : (base limit privilege busy granularity : ℕ) → ℕ
unfolding create_descriptor
create_tss_descriptor base limit privilege busy granularity =
    create_descriptor base (if leb limit 0x67 then 0x67 else limit) 1 privilege 0
      (bit_or (bit_or 4 (0 <<< 1)) busy) 1 granularity 0

-- The static descriptors of low_level.c.
unfoldable pub null_descriptor : ℕ
unfolding create_descriptor
null_descriptor = create_descriptor 0 0 0 0 0 0 0 0 0

unfoldable pub kernel_code_descriptor : ℕ
unfolding create_code_descriptor
kernel_code_descriptor = create_code_descriptor 0 0xFFFFFFFF 0 0 1 0 1 1

unfoldable pub kernel_data_descriptor : ℕ
unfolding create_data_descriptor
kernel_data_descriptor = create_data_descriptor 0 0xFFFFFFFF 0 0 1 0 1 1

-- How the processor reads a descriptor (the layout that the macros write).
abbrev pub segment_base : ℕ → ℕ
segment_base d = d / 2 ^ 16 % 2 ^ 24 + d / 2 ^ 56 % 2 ^ 8 * 2 ^ 24

abbrev pub segment_limit : ℕ → ℕ
segment_limit d = d % 2 ^ 16 + d / 2 ^ 48 % 2 ^ 4 * 2 ^ 16

abbrev pub segment_permissions : ℕ → ℕ
segment_permissions d = d / 2 ^ 41 % 2 ^ 3

abbrev pub segment_accessed : ℕ → ℕ
segment_accessed d = d / 2 ^ 40 % 2

abbrev pub segment_normal : ℕ → ℕ
segment_normal d = d / 2 ^ 44 % 2

abbrev pub segment_privilege : ℕ → ℕ
segment_privilege d = d / 2 ^ 45 % 2 ^ 2

abbrev pub segment_present : ℕ → ℕ
segment_present d = d / 2 ^ 47 % 2

abbrev pub segment_granularity : ℕ → ℕ
segment_granularity d = d / 2 ^ 55 % 2

-- The bit for 32-bit offsets and operands.
abbrev pub segment_size : ℕ → ℕ
segment_size d = d / 2 ^ 54 % 2

-- The last offset that the segment grants: the limit counts bytes, or blocks of 4096 bytes.
abbrev pub last_offset : ℕ → ℕ
last_offset d =
    if segment_granularity d == 0 then segment_limit d else segment_limit d * 4096 + 4095
