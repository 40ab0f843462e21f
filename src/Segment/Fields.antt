-- ===== src/Segment/Fields.antt =====
-- What the processor reads back out of the descriptors that the macros build.
use rtas2021_artifact.Base.{
  ℕ, Bool, true, false, ◌+◌, ◌*◌, ◌/◌, ◌%◌, ◌^◌, ◌<◌, ◌≡◌, arith, bit_and, bit_or, if◌then◌else◌,
}
use rtas2021_artifact.Bits.{
  ◌<<<◌, ◌>>>◌, bit_and-mask, bit_and-field, bit_or-above, bit_or-below, bit_or-between,
}
use rtas2021_artifact.Segment.{
  access_byte, descriptor_high, create_descriptor, create_code_descriptor, create_data_descriptor,
  segment_selector, segment_base, segment_limit, segment_permissions, segment_accessed,
  segment_normal, segment_size, segment_privilege, segment_present, segment_granularity,
  last_offset,
}

module _ (base limit present privilege normal_segment permissions accessed granularity size : ℕ)
    (hb : base < 2 ^ 32) (hp : present < 2) (hv : privilege < 4) (hn : normal_segment < 2)
    (hm : permissions < 8) (ha : accessed < 2) (hg : granularity < 2) (hs : size < 2) where
  abbrev access : ℕ
  access = present * 128 + privilege * 32 + normal_segment * 16 + permissions * 2 + accessed

  access_byte-sum : access_byte present privilege normal_segment permissions accessed ≡ access
  unfolding access_byte
  access_byte-sum = ground (
    arith,
    bit_or-above 1 permissions accessed,
    bit_or-above 4 normal_segment (permissions * 2 + accessed),
    bit_or-above 5 privilege (normal_segment * 16 + (permissions * 2 + accessed)),
    bit_or-above 7 present (privilege * 32 + (normal_segment * 16 + (permissions * 2 + accessed))),
  )

  -- The fields of the upper half: base bits 16 to 23, base bits 24 to 31, limit bits 16 to 19.
  abbrev base_mid : ℕ
  base_mid = base / 2 ^ 16 % 2 ^ 8

  abbrev base_top : ℕ
  base_top = base / 2 ^ 24

  abbrev limit_top : ℕ
  limit_top = limit / 2 ^ 16 % 2 ^ 4

  masks :
      (bit_and limit 0x000F0000 ≡ limit_top * 2 ^ 16)
      × (bit_and (base >>> 16) 0x000000FF ≡ base_mid)
      × (bit_and base 0xFF000000 ≡ base_top * 2 ^ 24)
      × (bit_or (size <<< 2) (granularity <<< 3) ≡ granularity * 8 + size * 4)
  masks = (
    ground (arith, bit_and-field 16 15 limit, bit_and-mask 4 (limit / 2 ^ 16)),
    bit_and-mask 8 (base / 2 ^ 16),
    ground (arith, bit_and-field 24 255 base, bit_and-mask 8 (base / 2 ^ 24)),
    bit_or-above 3 granularity (size * 4) (omega arith),
  )

  descriptor_high-sum :
      descriptor_high base limit present privilege normal_segment permissions accessed granularity
        size
      ≡ base_top * 2 ^ 24
        + (granularity * 8 + size * 4) * 2 ^ 20
        + limit_top * 2 ^ 16
        + access * 2 ^ 8
        + base_mid
  unfolding descriptor_high
  descriptor_high-sum =
      rw (masks.0, masks.1, masks.2, masks.3, access_byte-sum)
        (ground (
          arith,
          bit_or-below 16 limit_top base_mid,
          bit_or-above 24 base_top (limit_top * 2 ^ 16 + base_mid),
          bit_or-between 8 16 (base_top * 256 + limit_top) base_mid access,
          bit_or-between 20 24 base_top (limit_top * 2 ^ 16 + access * 2 ^ 8 + base_mid)
              (granularity * 8 + size * 4),
        ))

  abbrev high : ℕ
  high =
      base_top * 2 ^ 24
      + (granularity * 8 + size * 4) * 2 ^ 20
      + limit_top * 2 ^ 16
      + access * 2 ^ 8
      + base_mid

  pub create_descriptor-sum :
      create_descriptor base limit present privilege normal_segment permissions accessed granularity
        size
      ≡ high * 2 ^ 32 + base % 2 ^ 16 * 2 ^ 16 + limit % 2 ^ 16
  unfolding create_descriptor
  create_descriptor-sum = rw descriptor_high-sum (
      ground (
        arith,
        bit_and-mask 16 limit,
        bit_or-below 32 high (base % 2 ^ 16 * 2 ^ 16),
        bit_or-below 16 (high * 2 ^ 16 + base % 2 ^ 16) (limit % 2 ^ 16),
      ))

  -- Every field of a descriptor, of nine, reads back as it was given; of the limit, its low 20 bits.
  -- A descriptor has 64 bits.
  pub create_descriptor_fields :
      let d =
        create_descriptor base limit present privilege normal_segment permissions accessed
          granularity size in
      (segment_base d ≡ base)
      × (segment_limit d ≡ limit % 2 ^ 20)
      × (segment_accessed d ≡ accessed)
      × (segment_permissions d ≡ permissions)
      × (segment_normal d ≡ normal_segment)
      × (segment_privilege d ≡ privilege)
      × (segment_present d ≡ present)
      × (segment_size d ≡ size)
      × (segment_granularity d ≡ granularity)
      × (d < 2 ^ 64)
  create_descriptor_fields = omega (arith, create_descriptor-sum)

module _ (base limit privilege readable : ℕ) (hb : base < 2 ^ 32) (hv : privilege < 4)
    (hr : readable < 2) where
  -- A code segment with granularity 1 starts at its base, has its privilege level, is executable
  -- (permission bit 4) and ends a block of 4096 bytes behind each unit of its limit.
  pub create_code_descriptor_fields :
      let d = create_code_descriptor base limit privilege 0 readable 0 1 1 in
      (segment_base d ≡ base)
      × (segment_privilege d ≡ privilege)
      × (segment_permissions d ≡ 4 + readable)
      × (segment_present d ≡ 1)
      × (last_offset d ≡ limit % 2 ^ 20 * 4096 + 4095)
  unfolding create_code_descriptor
  create_code_descriptor_fields =
      let bits : bit_or (bit_or 4 0) readable ≡ 4 + readable = bit_or-below 1 2 readable hr in
      rw bits (
        ground (
          arith,
          create_descriptor_fields base limit 1 privilege 1 (4 + readable) 0 1 1 hb (omega arith) hv
              (omega arith) (omega arith) (omega arith) (omega arith) (omega arith),
        ))

  -- The same of a data segment, which is not executable and is writable if `readable` is 1.
  pub create_data_descriptor_fields :
      let d = create_data_descriptor base limit privilege 0 readable 0 1 1 in
      (segment_base d ≡ base)
      × (segment_privilege d ≡ privilege)
      × (segment_permissions d ≡ readable)
      × (segment_present d ≡ 1)
      × (last_offset d ≡ limit % 2 ^ 20 * 4096 + 4095)
  unfolding create_data_descriptor
  create_data_descriptor_fields =
      let bits : bit_or (bit_or 0 0) readable ≡ readable =
        ground (arith, bit_or-below 1 0 readable) in
      rw bits (
        ground (
          arith,
          create_descriptor_fields base limit 1 privilege 1 readable 0 1 1 hb (omega arith) hv
              (omega arith) (omega arith) (omega arith) (omega arith) (omega arith),
        ))

-- A selector is its index, its table bit and the low two bits of its privilege level.
pub segment_selector-sum :
    (privilege index : ℕ) (in_ldt : Bool)
    → segment_selector privilege in_ldt index
      ≡ index * 8 + (if in_ldt then 4 else 0) + privilege % 4
unfolding segment_selector
segment_selector-sum privilege index true = ground (
  arith,
  bit_and-mask 2 privilege,
  bit_or-above 2 1 (privilege % 4),
  bit_or-above 3 index (4 + privilege % 4),
)
segment_selector-sum privilege index false = ground (
  arith,
  bit_and-mask 2 privilege,
  bit_or-above 2 0 (privilege % 4),
  bit_or-above 3 index (privilege % 4),
)
