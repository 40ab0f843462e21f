-- ===== src/Task/Printed.antt =====
-- What the lines that educrtos/task.c prints do to the dates of its context, which is nothing.
use rtas2021_artifact.Base.{
  ℕ, ◌+◌, ◌≡◌, refl, true, List, [], ◌∷◌, ◌++◌, map, arith, Returns, returns, bind,
}
use rtas2021_artifact.Store.{Context}
use rtas2021_artifact.Format.{Arg, vfprint_from}
use rtas2021_artifact.Format.Plain.{vfprint-begins}
use rtas2021_artifact.HighLevel.{yield_dates}
use rtas2021_artifact.Task.{Call, call_yield, call_putchar, call_dup_thread, registers_of, printf}

-- The context after the calls, as far as its dates go, under EDF_SCHEDULING: `yield` moves them, as c_syscall_yield reads
-- them from the registers, and no other call does.
unfoldable pub after_call : Call → Context → Context
unfolding registers_of yield_dates
after_call (call_yield next_wakeup next_deadline) c =
    let r = registers_of (call_yield next_wakeup next_deadline) c.hw_context.regs in
    yield_dates true r.edx r.ecx r.esi r.edi c
after_call (call_putchar x) c = c
after_call call_dup_thread c = c

unfoldable pub after_calls : List Call → Context → Context
unfolding after_call
after_calls [] c = c
after_calls (call ∷ calls) c = after_calls calls (after_call call c)

-- How often the task yields.
unfoldable pub yields : List Call → ℕ
yields [] = 0
yields (call_yield next_wakeup next_deadline ∷ calls) = yields calls + 1
yields (call_putchar x ∷ calls) = yields calls
yields (call_dup_thread ∷ calls) = yields calls

pub after_calls-append :
    (xs ys : List Call) (c : Context) → after_calls (xs ++ ys) c ≡ after_calls ys (after_calls xs c)
unfolding after_calls
after_calls-append [] ys c = refl
after_calls-append (x ∷ xs) ys c = after_calls-append xs ys (after_call x c)

pub yields-append : (xs ys : List Call) → yields (xs ++ ys) ≡ yields xs + yields ys
unfolding yields
yields-append [] ys = omega arith
yields-append (call_yield w d ∷ xs) ys = omega (arith, yields-append xs ys)
yields-append (call_putchar x ∷ xs) ys = yields-append xs ys
yields-append (call_dup_thread ∷ xs) ys = yields-append xs ys

-- The calls leave the dates alone.
pub record IsQuiet (calls : List Call) : Type 0 where
  pub still : (c : Context) → after_calls calls c ≡ c
  pub none : yields calls ≡ 0

put-IsQuiet : (s : List ℕ) → IsQuiet (map call_putchar s)
unfolding after_calls yields
put-IsQuiet [] = record { still = λ c. refl; none = refl }
put-IsQuiet (x ∷ s) = record { still = λ c. (put-IsQuiet s).still c; none = (put-IsQuiet s).none }

-- A line is printed, and nothing else happens.
pub printf-IsQuiet :
    (junk : ℕ) (format : List ℕ) (args : List Arg)
    → Returns (λ s. Unit {0}) (vfprint_from junk 0 format args)
    → Returns IsQuiet (printf junk format args)
unfolding printf
printf-IsQuiet junk format args prints =
    bind (vfprint-begins junk format args (λ s. Unit {0}) prints) λ s u. returns (put-IsQuiet s)
