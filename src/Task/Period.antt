-- ===== src/Task/Period.antt =====
-- What it means that calls of educrtos/task.c are those of a periodic task.
use rtas2021_artifact.Base.{
  ℕ, suc, ◌+◌, ◌*◌, ◌%◌, ◌<◌, ◌^◌, ◌≡◌, ◌⊎◌, inl, inr, refl, ◌∙◌, List, [], ◌∷◌, ◌++◌, arith,
}
use rtas2021_artifact.Store.{Context}
use rtas2021_artifact.UserTasks.Yield.{yield-yield_dates}
use rtas2021_artifact.Task.{Call, call_yield, call_putchar, call_dup_thread, registers_of, second}
use rtas2021_artifact.Task.Printed.{
  after_call, after_calls, yields, after_calls-append, yields-append, IsQuiet,
}

module _ (period : ℕ) where
  -- `n` yields, each of which puts off the wakeup date by the period, with no drift, and the deadline
  -- to a second behind that date.
  pub record IsPeriodic (n : ℕ) (calls : List Call) : Type 0 where
    pub number : yields calls ≡ n
    pub wakeup :
        (c : Context)
        → c.sched_context.wakeup_date < 2 ^ 64
        → (after_calls calls c).sched_context.wakeup_date
          ≡ (c.sched_context.wakeup_date + n * period) % 2 ^ 64
    pub deadline :
        (c : Context)
        → (0 < n) ⊎ (c.sched_context.deadline ≡ (c.sched_context.wakeup_date + second) % 2 ^ 64)
        → (after_calls calls c).sched_context.deadline
          ≡ ((after_calls calls c).sched_context.wakeup_date + second) % 2 ^ 64

  pub none-IsPeriodic : IsPeriodic 0 []
  unfolding after_calls yields
  none-IsPeriodic = record {
    number = refl;
    wakeup = λ c h. omega arith;
    deadline = λ c h. elim h [ inl more ↦ absurd (omega arith) | inr before ↦ before ];
  }

  pub quiet-IsPeriodic :
      (n : ℕ) (xs ys : List Call) → IsQuiet xs → IsPeriodic n ys → IsPeriodic n (xs ++ ys)
  quiet-IsPeriodic n xs ys quiet p = record {
    number = omega (arith, yields-append xs ys, quiet.none, p.number);
    wakeup = λ c h. rw (after_calls-append xs ys c, quiet.still c) (p.wakeup c h);
    deadline = λ c h. rw (after_calls-append xs ys c, quiet.still c) (p.deadline c h);
  }

  pub putchar-IsPeriodic :
      (n x : ℕ) (calls : List Call) → IsPeriodic n calls → IsPeriodic n (call_putchar x ∷ calls)
  unfolding after_calls after_call yields
  putchar-IsPeriodic n x calls p = record {
    number = p.number;
    wakeup = p.wakeup;
    deadline = p.deadline;
  }

  pub dup_thread-IsPeriodic :
      (n : ℕ) (calls : List Call) → IsPeriodic n calls → IsPeriodic n (call_dup_thread ∷ calls)
  unfolding after_calls after_call yields
  dup_thread-IsPeriodic n calls p = record {
    number = p.number;
    wakeup = p.wakeup;
    deadline = p.deadline;
  }

  pub yield-IsPeriodic :
      period < 2 ^ 64
      → (n : ℕ) (calls : List Call) → IsPeriodic n calls
      → IsPeriodic (suc n) (call_yield period second ∷ calls)
  unfolding after_calls after_call registers_of yields
  yield-IsPeriodic fits n calls p = record {
    number = omega (arith, p.number);
    wakeup = λ c h.
        let dates = yield-yield_dates period second c.hw_context.regs c fits (omega arith) in
        p.wakeup _ (omega (arith, dates.1)) ∙ omega (arith, dates.1);
    deadline = λ c h.
        let dates = yield-yield_dates period second c.hw_context.regs c fits (omega arith) in
        p.deadline _ (inr (omega (arith, dates.1, dates.2)));
  }
