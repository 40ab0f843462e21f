-- ===== src/UserTasks/Yield.antt =====
-- The durations of `yield` on their way through the registers (educrtos/user_tasks.h,
-- educrtos/high_level.c).
use rtas2021_artifact.Base.{ℕ, ◌+◌, ◌%◌, ◌^◌, ◌<◌, ◌≡◌, arith, refl, bit_and, true, ap, ◌∙◌}
use rtas2021_artifact.Bits.{◌>>>◌, u32, bit_and-mask}
use rtas2021_artifact.Store.{Pusha, Context}
use rtas2021_artifact.HighLevel.{from_halves, yield_dates}
use rtas2021_artifact.UserTasks.{yield}

halves : (n : ℕ) → n < 2 ^ 64 → from_halves (u32 (n >>> 32)) (u32 (bit_and n 0xFFFFFFFF)) ≡ n
halves n h = omega (arith, bit_and-mask 32 n)

-- The kernel reads from the registers that `yield` fills the durations that the task gave, and dates
-- the context by them: the new wakeup date is that much behind the old one, and the deadline behind
-- that, modulo 2 ^ 64, under EDF_SCHEDULING.
pub yield-yield_dates :
    (next_wakeup next_deadline : ℕ) (regs : Pusha) (c : Context)
    → next_wakeup < 2 ^ 64
    → next_deadline < 2 ^ 64
    → let r = yield next_wakeup next_deadline regs in
      let d = (yield_dates true r.edx r.ecx r.esi r.edi c).sched_context in
      (r.ebx ≡ 0)
      × (d.wakeup_date ≡ (c.sched_context.wakeup_date + next_wakeup) % 2 ^ 64)
      × (d.deadline ≡ (c.sched_context.wakeup_date + next_wakeup + next_deadline) % 2 ^ 64)
unfolding yield yield_dates
yield-yield_dates w d regs c hw hd = (
  refl,
  ap (λ n. (c.sched_context.wakeup_date + n) % 2 ^ 64) (halves w hw),
  ap
        (λ n.
          ((c.sched_context.wakeup_date + n) % 2 ^ 64
            + from_halves (u32 (d >>> 32)) (u32 (bit_and d 0xFFFFFFFF)))
          % 2 ^ 64)
        (halves w hw)
      ∙ ap (λ n. ((c.sched_context.wakeup_date + w) % 2 ^ 64 + n) % 2 ^ 64) (halves d hd)
      ∙ omega arith,
)
