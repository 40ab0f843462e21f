-- ===== src/Interrupts/Filled.antt =====
-- The interrupt descriptor table that init_interrupts of educrtos/low_level.c fills.
use rtas2021_artifact.Base.{
  ℕ, zero, suc, ◌<◌, ◌^◌, ◌≡◌, refl, arith, ◌==◌, if◌then◌else◌, Bool-cases, inl, inr, ap,
}
use rtas2021_artifact.Segment.{gdt_segment_selector, segment_selector}
use rtas2021_artifact.Kernel.{Kernel}
use rtas2021_artifact.LowLevel.{kernel_code_segment_index}
use rtas2021_artifact.Timer.{init_pic, timer_intnum, spurious_timer_intnum}
use rtas2021_artifact.Interrupts.{
  Handlers, create_interrupt_gate_descriptor, install, foreach_below, foreach_256, install_default,
  init_idt, init_interrupts, syscall_intnum,
}
use rtas2021_artifact.Interrupts.Gates.{
  gate_offset, gate_selector, gate_type, gate_privilege, gate_present,
  create_interrupt_gate_descriptor_fields,
}

-- The handler of a vector, and the privilege that a task needs to raise it by an instruction.
abbrev pub handler_of : Handlers → ℕ → ℕ
handler_of handlers i =
    if i == spurious_timer_intnum
    then handlers.unimplemented_handler
    else if i == timer_intnum
    then handlers.timer_handler
    else if i == syscall_intnum
    then handlers.syscall_handler
    else handlers.default_handler i

abbrev pub privilege_of : ℕ → ℕ
privilege_of i = if i == spurious_timer_intnum then 0 else if i == timer_intnum then 0 else 3

-- The handlers have addresses of 32 bits.
pub record AreAddresses (handlers : Handlers) : Type 0 where
  pub default_address : (i : ℕ) → i < 256 → handlers.default_handler i < 2 ^ 32
  pub syscall_address : handlers.syscall_handler < 2 ^ 32
  pub timer_address : handlers.timer_handler < 2 ^ 32
  pub unimplemented_address : handlers.unimplemented_handler < 2 ^ 32

-- What is installed for each number below `n` is found there.
foreach_below-install :
    (gate : ℕ → ℕ) (idt : ℕ → ℕ) (n i : ℕ)
    → i < n
    → foreach_below (λ (j : ℕ). install j (gate j)) n idt i ≡ gate i
unfolding foreach_below
foreach_below-install gate idt zero i h = absurd (omega arith)
foreach_below-install gate idt (suc n) i h = elim (Bool-cases (i == n)) [
  | inl at ↦ let e : n ≡ i = ground arith in rw at (ap gate e)
  | inr off ↦ rw off (foreach_below-install gate idt n i (ground (arith, off)))
]

abbrev pub kernel_selector : ℕ
kernel_selector = gdt_segment_selector 0 kernel_code_segment_index

selector_is : kernel_selector ≡ 8
unfolding gdt_segment_selector segment_selector
selector_is = refl

install_default-gate :
    (handlers : Handlers) (idt : ℕ → ℕ) (i : ℕ)
    → i < 256
    → install_default handlers idt i
      ≡ create_interrupt_gate_descriptor (handlers.default_handler i) kernel_selector 3 1
unfolding install_default foreach_256
install_default-gate handlers idt i h =
    foreach_below-install
      (λ j. create_interrupt_gate_descriptor (handlers.default_handler j) kernel_selector 3 1) idt
      256 i h

init_idt-gate :
    (handlers : Handlers) (idt : ℕ → ℕ) (i : ℕ)
    → i < 256
    → init_idt handlers idt i
      ≡ create_interrupt_gate_descriptor (handler_of handlers i) kernel_selector (privilege_of i) 1
unfolding init_idt
init_idt-gate handlers idt i h = elim (Bool-cases (i == spurious_timer_intnum)) [
  | inl spurious ↦ rw spurious refl
  | inr other ↦ elim (Bool-cases (i == timer_intnum)) [
    | inl timer ↦ rw (other, timer) refl
    | inr other' ↦ elim (Bool-cases (i == syscall_intnum)) [
      | inl syscall ↦ rw (other, other', syscall) refl
      | inr other'' ↦ rw (other, other', other'') (install_default-gate handlers idt i h)
    ]
  ]
]

handler_of-address :
    (handlers : Handlers) (i : ℕ) → AreAddresses handlers → i < 256 → handler_of handlers i < 2 ^ 32
handler_of-address handlers i a h =
    ground
      (arith, a.default_address i h, a.syscall_address, a.timer_address, a.unimplemented_address)

privilege_of_small : (i : ℕ) → privilege_of i < 4
privilege_of_small i = ground arith

-- Where the handlers have addresses of 32 bits, `init_interrupts` leaves a table in which each of the
-- 256 vectors has a gate that is present, of 32 bits and clears the interrupt flag, to the handler of
-- that vector in the kernel's code segment: those of the timer, of spurious interrupts and of the
-- system calls to theirs, and all others to the default handler with the vector's number. A task can
-- raise each of them by an instruction, except for the timer's and the spurious ones.
pub init_interrupts-gate :
    (handlers : Handlers) (k : Kernel) (i : ℕ)
    → AreAddresses handlers
    → i < 256
    → let d = (init_interrupts handlers k).processor.idt i in
      (gate_offset d ≡ handler_of handlers i)
      × (gate_selector d ≡ kernel_selector)
      × (gate_type d ≡ 14)
      × (gate_privilege d ≡ privilege_of i)
      × (gate_present d ≡ 1)
unfolding init_interrupts
init_interrupts-gate handlers k i a h =
    let gate = init_idt-gate handlers (init_pic k).processor.idt i h in
    let (offset, selector, type, privilege, present, wide) =
      create_interrupt_gate_descriptor_fields (handler_of handlers i) kernel_selector
        (privilege_of i) 1 (handler_of-address handlers i a h) (omega (arith, selector_is))
        (privilege_of_small i) (omega arith) in
    rw gate (offset, selector, type, privilege, present)
