-- ===== src/Timer.antt =====
-- The interval timer and the interrupt controller (educrtos/pit_timer.c).
use rtas2021_artifact.Base.{
  ℕ, ◌+◌, ◌-◌, ◌*◌, ◌/◌, ◌%◌, ◌^◌, Bool, ◌∷◌, bit_and, ltb, leb, ◌==◌, if◌then◌else◌, Run, ok,
  ◌>>=◌,
}
use rtas2021_artifact.Bits.{◌>>>◌, u8, u32, u64}
use rtas2021_artifact.Store.{Ptr, Pusha, InterPrivilegeInterruptFrame}
use rtas2021_artifact.Image.{Image}
use rtas2021_artifact.Kernel.{Kernel, Scheduler, timer_dont_wake}
use rtas2021_artifact.Terminal.{terminal_putchar}
use rtas2021_artifact.LowLevel.{hw_context_switch, interrupt_prologue}
use rtas2021_artifact.HighLevel.{high_level_timer_interrupt_handler}

abbrev pub one_second : ℕ
one_second = 1000 * (1000 * (1000 * 1))

abbrev pub pit_hz : ℕ
pit_hz = 1193182

abbrev pub wanted_tick : ℕ
wanted_tick = 1000 * (1000 * 1)

abbrev pub divisor : ℕ
divisor = pit_hz * wanted_tick / one_second

abbrev pub actual_tick : ℕ
actual_tick = one_second * divisor / pit_hz

-- outb(port, val) of educrtos/x86/port.h.
unfoldable pub outb : ℕ → ℕ → Kernel → Kernel
outb port val k = record k {
  processor = record k.processor { ports = (port, u8 val) ∷ k.processor.ports };
}

abbrev pub timer_intnum : ℕ
timer_intnum = 0x40

abbrev pub spurious_timer_intnum : ℕ
spurious_timer_intnum = 0x48

-- The ports of the master and the slave controller and of the timer.
abbrev pub master_pic_command : ℕ
master_pic_command = 0x20

abbrev pub master_pic_data : ℕ
master_pic_data = 0x21

abbrev pub slave_pic_command : ℕ
slave_pic_command = 0xA0

abbrev pub slave_pic_data : ℕ
slave_pic_data = 0xA1

abbrev pub pit_command : ℕ
pit_command = 0x43

abbrev pub pit_data : ℕ
pit_data = 0x40

unfoldable pub init_pic : Kernel → Kernel
unfolding outb
init_pic k0 =
    let k1 = outb master_pic_command 0x11 k0 in
    let k2 = outb slave_pic_command 0x11 k1 in
    let k3 = outb master_pic_data timer_intnum k2 in
    let k4 = outb slave_pic_data spurious_timer_intnum k3 in
    let k5 = outb master_pic_data 4 k4 in
    let k6 = outb slave_pic_data 2 k5 in
    let k7 = outb master_pic_data 1 k6 in
    let k8 = outb slave_pic_data 1 k7 in
    let k9 = outb master_pic_data 0xFE k8 in outb slave_pic_data 0xFF k9

unfoldable pub timer_init : Kernel → Kernel
unfolding outb
timer_init k =
    let k1 = outb pit_command 0x34 (record k { current_time = 0 }) in
    let k2 = outb pit_data (bit_and divisor 0xFF) k1 in outb pit_data (divisor >>> 8) k2

-- `++count % 100 == 0`. C leaves undefined what an int does past 2 ^ 31 - 1; here it wraps, as the
-- increment of the processor does. The remainder of a negative number is 0 if that of its magnitude
-- is.
abbrev pub is_tenth : ℕ → Bool
is_tenth count = (if ltb count (2 ^ 31) then count else 2 ^ 32 - count) % 100 == 0

-- The mark that shows time passing, under DEBUG_PRINTING.
unfoldable pub count_tick : Kernel → Run Kernel
count_tick k =
    let counted = record k { count = u32 (k.count + 1) } in
    if is_tenth counted.count
    then (do screen ← terminal_putchar b'&' k.screen; ok (record counted { screen = screen }))
    else ok counted

-- timer_interrupt_handler(cur_hw_ctx). The call of the handler in high_level.c does not return.
unfoldable pub timer_interrupt_handler : Image → Scheduler → Ptr → Kernel → Run Kernel
timer_interrupt_handler image scheduler ctx k0 = do
  let k = outb master_pic_command 0x20 k0
  let cur = u64 (k.current_time + actual_tick)
  k' ← count_tick (record k { current_time = cur })
  if leb k'.next_wake_date cur
      then high_level_timer_interrupt_handler image scheduler ctx cur (timer_dont_wake k')
      else hw_context_switch ctx k'

-- asm_timer_interrupt_handler: the registers are saved, then the handler is called.
unfoldable pub asm_timer_interrupt_handler :
    Image → Scheduler → Pusha → InterPrivilegeInterruptFrame → Kernel → Run Kernel
asm_timer_interrupt_handler image scheduler regs frame k = do
  (ctx, k') ← interrupt_prologue regs frame k
  timer_interrupt_handler image scheduler ctx k'
