-- ===== src/Interrupts/Gates.antt =====
-- The fields of a gate descriptor (create_interrupt_gate_descriptor of educrtos/low_level.c).
use rtas2021_artifact.Base.{ℕ, ◌+◌, ◌*◌, ◌/◌, ◌%◌, ◌^◌, ◌<◌, ◌≡◌, arith, bit_and, bit_or}
use rtas2021_artifact.Bits.{
  ◌<<<◌, u64, bit_and-mask, bit_and-field, bit_or-above, bit_or-below, bit_or-between,
}
use rtas2021_artifact.Interrupts.{create_interrupt_gate_descriptor}

-- Where the processor finds the parts of a gate.
abbrev pub gate_offset : ℕ → ℕ
gate_offset d = d / 2 ^ 48 % 2 ^ 16 * 2 ^ 16 + d % 2 ^ 16

abbrev pub gate_selector : ℕ → ℕ
gate_selector d = d / 2 ^ 16 % 2 ^ 16

abbrev pub gate_type : ℕ → ℕ
gate_type d = d / 2 ^ 40 % 2 ^ 5

abbrev pub gate_privilege : ℕ → ℕ
gate_privilege d = d / 2 ^ 45 % 4

abbrev pub gate_present : ℕ → ℕ
gate_present d = d / 2 ^ 47 % 2

module _ (func_ptr selector privilege size : ℕ) (hf : func_ptr < 2 ^ 32) (hs : selector < 2 ^ 16)
    (hp : privilege < 4) (hz : size < 2) where
  abbrev flags : ℕ
  flags = 2 ^ 15 + privilege * 2 ^ 13 + size * 2 ^ 11 + 6 * 2 ^ 8

  flags-sum : bit_or (bit_or (bit_or (1 <<< 15) (privilege <<< 13)) (size <<< 11)) (6 <<< 8) ≡ flags
  flags-sum =
      let e1 : bit_or (1 <<< 15) (privilege <<< 13) ≡ (4 + privilege) * 2 ^ 13 =
        omega
          (arith, bit_or-between 13 15 1 0 privilege (omega arith) (omega arith) (omega arith)) in
      let e2 : bit_or ((4 + privilege) * 2 ^ 13) (size <<< 11)
          ≡ ((4 + privilege) * 4 + size) * 2 ^ 11 =
        omega (arith, bit_or-below 13 (4 + privilege) (size * 2 ^ 11) (omega arith)) in
      let e3 : bit_or (((4 + privilege) * 4 + size) * 2 ^ 11) (6 <<< 8)
          ≡ ((4 + privilege) * 4 + size) * 2 ^ 11 + 6 * 2 ^ 8 =
        omega (arith, bit_or-below 11 ((4 + privilege) * 4 + size) (6 * 2 ^ 8) (omega arith)) in
      rw (e1, e2, e3) (omega arith)

  gate-sum :
      create_interrupt_gate_descriptor func_ptr selector privilege size
      ≡ func_ptr % 2 ^ 16 + selector * 2 ^ 16 + (func_ptr / 2 ^ 16 * 2 ^ 16 + flags) * 2 ^ 32
  unfolding create_interrupt_gate_descriptor
  gate-sum =
      let low : bit_and func_ptr 0xFFFF ≡ func_ptr % 2 ^ 16 = bit_and-mask 16 func_ptr in
      let high : bit_and func_ptr 0xFFFF0000 ≡ func_ptr / 2 ^ 16 * 2 ^ 16 =
        omega (arith, bit_and-field 16 0xFFFF func_ptr, bit_and-mask 16 (func_ptr / 2 ^ 16)) in
      let upper : bit_or (func_ptr / 2 ^ 16 * 2 ^ 16) flags ≡ func_ptr / 2 ^ 16 * 2 ^ 16 + flags =
        omega (arith, bit_or-below 16 (func_ptr / 2 ^ 16) flags (omega arith)) in
      let fits : u64 ((func_ptr / 2 ^ 16 * 2 ^ 16 + flags) <<< 32)
          ≡ (func_ptr / 2 ^ 16 * 2 ^ 16 + flags) <<< 32 =
        omega arith in
      rw
        (
          low,
          high,
          flags-sum,
          upper,
          fits,
          bit_or-above 16 selector (func_ptr % 2 ^ 16) (omega arith),
        )
        (omega (
          arith,
          bit_or-above 32 (func_ptr / 2 ^ 16 * 2 ^ 16 + flags)
              (selector * 2 ^ 16 + func_ptr % 2 ^ 16) (omega arith),
        ))

  -- A gate descriptor is present, and holds the address of its handler, the selector and the privilege
  -- level that it was made of; its type is that of an interrupt gate, of 32 bits if `size` is 1.
  pub create_interrupt_gate_descriptor_fields :
      let d = create_interrupt_gate_descriptor func_ptr selector privilege size in
      (gate_offset d ≡ func_ptr)
      × (gate_selector d ≡ selector)
      × (gate_type d ≡ 6 + size * 8)
      × (gate_privilege d ≡ privilege)
      × (gate_present d ≡ 1)
      × (d < 2 ^ 64)
  create_interrupt_gate_descriptor_fields = omega (arith, gate-sum)
