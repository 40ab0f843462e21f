-- ===== src/Handlers/Calls.antt =====
-- The system calls (educrtos/high_level.c, and asm_syscall_handler of educrtos/low_level.c).
use rtas2021_artifact.Base.{
  if◌then◌else◌, ℕ, zero, suc, ◌<◌, ◌≡◌, refl, ◌≢◌, false, [], arith, ltb, halt, Returns, weaken,
  bind, ◌⊎◌, inl, inr, result, sym, ap, ◌∙◌, ◌≤◌, true,
}
use mathlib.Core.Path.{subst}
use rtas2021_artifact.Store.{null, Ptr, Context, write, Pusha, InterPrivilegeInterruptFrame}
use rtas2021_artifact.Queue.Chain.{load-ok}
use rtas2021_artifact.Image.{Image}
use rtas2021_artifact.Kernel.{Kernel, Scheduler, context_is_idle}
use rtas2021_artifact.Terminal.Bounds.{IsOnScreen, terminal_putchar-Printed, Printed-IsOnScreen}
use rtas2021_artifact.HighLevel.{
  c_syscall_yield, putchar_handler, trigger_bug_handler, yield_dates, dispatch, syscall_array,
  syscall_number,
}
use rtas2021_artifact.UserTasks.{asm_syscall_handler}
use rtas2021_artifact.Contract.{Contract}
use rtas2021_artifact.Handlers.Duplicate.{
  dup_thread_handler-Duplicated, dup_thread_handler-halt, not_enough,
}
use rtas2021_artifact.Handlers.Entry.{
  IsUser, switch-IsUser, switch_no_idle-IsUser, store-ok, interrupt_prologue-Entered,
}

-- If the system call `number` is `dup_thread`, the reserve is not used up, and `p` may create threads.
abbrev pub CanFork : ℕ → Ptr → Kernel → Type 0
CanFork number p k = (number ≢ 2) ⊎ ((k.idx_reserve ≢ 0) × ((k.mem p).range ≢ 0))

exhausted :
    (image : Image) (s : Scheduler) (number : ℕ) (p : Ptr) (k : Kernel)
    → number ≡ 2
    → p ≢ null
    → (k.mem p).range ≢ 0
    → k.idx_reserve ≡ 0
    → (if ltb number syscall_number then syscall_array image s number p k else halt [])
      ≡ halt not_enough
unfolding syscall_array dispatch
exhausted image s number p k two np may none =
    subst
      (λ n.
        (if ltb n syscall_number then syscall_array image s n p k else halt []) ≡ halt not_enough)
      (sym two) (dup_thread_handler-halt image s p k np may none)

module _ (image : Image) (s : Scheduler) (c : Contract image s) where
  putchar_handler-IsUser :
      (p : Ptr) (char : ℕ) (k : Kernel)
      → IsOnScreen k.screen
      → c.Running p k
      → Returns (IsUser image s c) (putchar_handler image s p char k)
  unfolding putchar_handler
  putchar_handler-IsUser p char k v r =
      bind (terminal_putchar-Printed _ k.screen v) λ screen printed.
        switch_no_idle-IsUser image s c p (record k { screen = screen })
          (Printed-IsOnScreen _ k.screen screen v printed)
          (c.stable p k _
            (record {
              mem = refl;
              ready_heap = refl;
              waiting_heap = refl;
              current = refl;
              idx_reserve = refl;
            })
            r)

  trigger_bug_handler-IsUser :
      (p : Ptr) (k : Kernel)
      → IsOnScreen k.screen
      → c.Running p k
      → Returns (IsUser image s c) (trigger_bug_handler image s p k)
  unfolding trigger_bug_handler
  trigger_bug_handler-IsUser p k v r = switch_no_idle-IsUser image s c p k v r

  -- A task that yields is blocked, and the task that the scheduler chooses runs.
  pub c_syscall_yield-IsUser :
      (p : Ptr) (wakeup_high wakeup_low deadline_high deadline_low : ℕ) (k : Kernel)
      → context_is_idle image p ≡ false
      → IsOnScreen k.screen
      → c.Running p k
      → Returns
          (IsUser image s c)
          (c_syscall_yield image s p wakeup_high wakeup_low deadline_high deadline_low k)
  unfolding c_syscall_yield yield_dates
  c_syscall_yield-IsUser p wh wl dh dl k busy v r =
      rw (load-ok p k.mem np, store-ok p dated k.mem np)
        (bind (c.waits p (record k { mem = write k.mem p dated }) busy (c.dated p k dated refl r))
          λ k' (between, same). bind (c.chooses k' between) λ (q, k'') (next, same').
            switch-IsUser image s c q k'' (subst (λ t. IsOnScreen t) (sym (same' ∙ same)) v) next)
    where
      np : p ≢ null
      np = c.not_null p k r

      dated : Context
      dated = yield_dates s.edf_scheduling wh wl dh dl (k.mem p)

  syscall_array-IsUser :
      (number : ℕ) (p : Ptr) (k : Kernel)
      → number < syscall_number
      → CanFork number p k
      → context_is_idle image p ≡ false
      → IsOnScreen k.screen
      → c.Running p k
      → Returns (IsUser image s c) (syscall_array image s number p k)
  unfolding syscall_array dispatch
  syscall_array-IsUser zero p k n other busy v r =
      rw (load-ok p k.mem (c.not_null p k r)) (c_syscall_yield-IsUser p _ _ _ _ k busy v r)
  syscall_array-IsUser (suc zero) p k n other busy v r =
      rw (load-ok p k.mem (c.not_null p k r)) (putchar_handler-IsUser p _ k v r)
  syscall_array-IsUser (suc (suc zero)) p k n other busy v r = elim other [
    | inl differs ↦ absurd (differs refl)
    | inr (more, may) ↦
        weaken (dup_thread_handler-Duplicated image s c k p may more busy v r) λ k' out. out.0
  ]
  syscall_array-IsUser (suc (suc (suc zero))) p k n other busy v r =
      trigger_bug_handler-IsUser p k v r
  syscall_array-IsUser (suc (suc (suc (suc number)))) p k n other busy v r = absurd (omega arith)

  -- A task other than the idle one makes a system call, `dup_thread` only where it can: the call
  -- returns to a user context, with the scheduler's data sound, whatever else the registers hold.
  pub asm_syscall_handler-IsUser :
      (regs : Pusha) (frame : InterPrivilegeInterruptFrame) (k : Kernel)
      → context_is_idle image k.processor.running ≡ false
      → regs.ebx < syscall_number
      → CanFork regs.ebx k.processor.running k
      → IsUser image s c k
      → Returns (IsUser image s c) (asm_syscall_handler image s regs frame k)
  unfolding asm_syscall_handler
  asm_syscall_handler-IsUser regs frame k busy n other u = rw valid (
      bind (interrupt_prologue-Entered image s c regs frame k u) λ (ctx, k') e.
        syscall_array-IsUser regs.ebx ctx k' n (can_fork ctx k' e.ran e.range_kept e.reserve_kept)
          (ap (context_is_idle image) e.ran ∙ busy) e.screen e.runs)
    where
      can_fork :
          (ctx : Ptr) (k' : Kernel)
          → ctx ≡ k.processor.running
          → (k'.mem ctx).range ≡ (k.mem ctx).range
          → k'.idx_reserve ≡ k.idx_reserve
          → CanFork regs.ebx ctx k'
      can_fork ctx k' ran range reserve = elim other [
        | inl differs ↦ inl differs
        | inr (more, may) ↦
            inr (ground (arith, reserve), ground (arith, range, ap (λ a. (k.mem a).range) ran))
      ]

      valid : ltb regs.ebx syscall_number ≡ true
      valid = ground arith

  -- A number that is not that of a system call stops the machine.
  pub asm_syscall_handler-halt :
      (regs : Pusha) (frame : InterPrivilegeInterruptFrame) (k : Kernel)
      → syscall_number ≤ regs.ebx
      → IsUser image s c k
      → asm_syscall_handler image s regs frame k ≡ halt []
  unfolding asm_syscall_handler
  asm_syscall_handler-halt regs frame k n u =
      let (r, e, entered) = result (interrupt_prologue-Entered image s c regs frame k u) in
      rw (e, invalid) refl
    where
      invalid : ltb regs.ebx syscall_number ≡ false
      invalid = ground arith

  -- A task that may create threads calls `dup_thread` when no context is left in reserve: the machine
  -- stops with the message that says so.
  pub asm_syscall_handler-exhausted :
      (regs : Pusha) (frame : InterPrivilegeInterruptFrame) (k : Kernel)
      → regs.ebx ≡ 2
      → (k.mem k.processor.running).range ≢ 0
      → k.idx_reserve ≡ 0
      → IsUser image s c k
      → asm_syscall_handler image s regs frame k ≡ halt not_enough
  unfolding asm_syscall_handler
  asm_syscall_handler-exhausted regs frame k two may none u =
      let (r, e, entered) = result (interrupt_prologue-Entered image s c regs frame k u) in
      rw e (
        exhausted image s regs.ebx r.0 r.1 two (c.not_null r.0 r.1 entered.runs)
          (ground (arith, may, entered.range_kept, ap (λ a. (k.mem a).range) entered.ran))
          (ground (arith, entered.reserve_kept, none)))
