-- ===== src/Task/Periodic.antt =====
-- The loop of test_userspace (educrtos/task.c) as a periodic task.
use mathlib.Core.Path.{subst}
use mathlib.Core.List.{append_assoc}
use rtas2021_artifact.Base.{
  ℕ, zero, suc, ◌+◌, ◌*◌, ◌<◌, ◌^◌, ◌≡◌, ◌≢◌, ◌⊎◌, inl, inr, refl, sym, false, List, [], ◌∷◌, ◌++◌,
  arith, ◌==◌, Bool-cases, Returns, returns, bind, codes, ok, if◌then◌else◌, ◌>>=◌,
}
use rtas2021_artifact.Bits.{u64}
use rtas2021_artifact.Format.{word}
use rtas2021_artifact.Format.Plain.{
  IsPlain, vfprint_from-plain, vfprint_from-decimal, vfprint_from-last,
}
use rtas2021_artifact.Task.{
  Call, call_yield, second, one_round, next_i, rounds, test_userspace, printf, thread_create,
  test_func,
}
use rtas2021_artifact.Task.Printed.{IsQuiet, printf-IsQuiet}
use rtas2021_artifact.Task.Period.{
  IsPeriodic, none-IsPeriodic, quiet-IsPeriodic, putchar-IsPeriodic, dup_thread-IsPeriodic,
  yield-IsPeriodic,
}

module _ (task_number : ℕ) (number_text : List ℕ) (junk : ℕ) (small : task_number < 2 ^ 31)
    (plain : IsPlain number_text) where
  -- The period of the task, in nanoseconds.
  abbrev pub period_of : ℕ
  period_of = (task_number + 2) * second

  one_round-IsPeriodic :
      (pid i : ℕ)
      → pid < 2 ^ 31
      → i < 2 ^ 31
      → Returns
          (λ round.
            (n : ℕ) (calls : List Call)
            → IsPeriodic period_of n calls
            → IsPeriodic period_of (suc n) (round ++ calls))
          (one_round task_number number_text junk pid i)
  unfolding one_round
  one_round-IsPeriodic pid i hp hi =
      let fits : period_of < 2 ^ 64 = omega arith in
      let same : u64 period_of ≡ period_of = omega arith in
      bind
        (printf-IsQuiet junk _ _ (
          vfprint_from-plain junk (codes "task") _ _ _ refl (
            vfprint_from-plain junk number_text _ _ _ plain (
              vfprint_from-plain junk (codes " pid ") _ _ _ refl (
                vfprint_from-decimal junk pid _ _ _ hp λ d number.
                  vfprint_from-plain junk (codes ": i=") _ _ _ refl (
                    vfprint_from-decimal junk i _ _ _ hi
                      λ e number'. vfprint_from-last junk (codes "\n") _ _ refl tt))))))
        λ line quiet. returns λ n calls p.
          let yielded : Call = call_yield period_of second in
          subst (λ w. IsPeriodic period_of (suc n) ((line ++ (call_yield w second ∷ [])) ++ calls))
            (sym same)
            (subst (IsPeriodic period_of (suc n)) (sym (append_assoc line (yielded ∷ []) calls)) (
              quiet-IsPeriodic period_of (suc n) line (yielded ∷ calls) quiet
                (yield-IsPeriodic period_of fits n calls p)))

  rounds-IsPeriodic :
      (n pid i : ℕ)
      → pid < 2 ^ 31
      → i + n < 2 ^ 31
      → Returns (IsPeriodic period_of n) (rounds task_number number_text junk n pid i)
  unfolding rounds next_i
  rounds-IsPeriodic zero pid i hp hi = returns (none-IsPeriodic period_of)
  rounds-IsPeriodic (suc n) pid i hp hi =
      let counts : (i + 1 == 2 ^ 31) ≡ false = ground arith in
      rw counts (
        bind (one_round-IsPeriodic pid (i + 1) hp (omega arith)) λ round goes_on.
          bind (rounds-IsPeriodic n pid (i + 1) hp (omega arith))
            λ rest p. returns (goes_on n rest p))

  -- The lines printed before the loop.
  greeted :
      (pid : ℕ)
      → pid < 2 ^ 31
      → Returns IsQuiet
          (printf junk (codes " says hello %d %d\n") (word task_number ∷ word pid ∷ []))
  greeted pid hp = printf-IsQuiet junk _ _ (
      vfprint_from-plain junk (codes " says hello ") _ _ _ refl (
        vfprint_from-decimal junk task_number _ _ _ small λ d number.
          vfprint_from-plain junk (codes " ") _ _ _ refl (
            vfprint_from-decimal junk pid _ _ _ hp
              λ e number'. vfprint_from-last junk (codes "\n") _ _ refl tt)))

  -- What follows these lines.
  parent_goes_on :
      (n pid : ℕ)
      → pid < 2 ^ 31
      → n < 2 ^ 31
      → Returns (IsPeriodic period_of n) (
          printf junk (codes "Dupped thread\n") [] >>= (λ dupped.
            rounds task_number number_text junk n pid 0 >>= (λ calls. ok (dupped ++ calls))))
  parent_goes_on n pid hp hn =
      bind (printf-IsQuiet junk (codes "Dupped thread\n") [] (vfprint_from-last junk _ _ _ refl tt))
        λ dupped quiet.
          bind (rounds-IsPeriodic n pid 0 hp (omega arith))
            λ calls p. returns (quiet-IsPeriodic period_of n dupped calls quiet p)

  loop_or_thread :
      (res n pid : ℕ)
      → (task_number ≢ 0) ⊎ (res ≢ 0)
      → pid < 2 ^ 31
      → n < 2 ^ 31
      → Returns (IsPeriodic period_of n) (
          if task_number == 0
          then thread_create res (test_func junk) (
              printf junk (codes "Dupped thread\n") [] >>= (λ dupped.
                rounds task_number number_text junk n pid 0 >>= (λ calls. ok (dupped ++ calls))))
          else rounds task_number number_text junk n pid 0)
  unfolding thread_create
  loop_or_thread res n pid parent hp hn = elim (Bool-cases (task_number == 0)) [
    | inl first ↦
        let original : (res == 0) ≡ false = ground (arith, parent) in
        rw (first, original)
          (bind (parent_goes_on n pid hp hn)
            λ calls p. returns (dup_thread-IsPeriodic period_of n calls p))
    | inr later ↦ rw later (rounds-IsPeriodic n pid 0 hp (omega arith))
  ]

  -- The program of task `task_number` runs `n` rounds, fewer than 2 ^ 31, of its loop, and the task is
  -- not the new thread of its `dup_thread`. Then it has yielded `n` times. Its wakeup date, as the
  -- kernel reads it from the registers, is behind the first one by `n` times `task_number + 2` seconds,
  -- modulo 2 ^ 64, whatever it prints; its deadline, under EDF_SCHEDULING, is a second later.
  pub test_userspace-IsPeriodic :
      (res n pid : ℕ)
      → (task_number ≢ 0) ⊎ (res ≢ 0)
      → pid < 2 ^ 31
      → n < 2 ^ 31
      → Returns (IsPeriodic period_of n) (test_userspace task_number number_text junk res n pid)
  unfolding test_userspace printf
  test_userspace-IsPeriodic res n pid parent hp hn = bind (greeted pid hp) λ hello quiet.
      bind (loop_or_thread res n pid parent hp hn) λ rest p. returns (
        putchar-IsPeriodic period_of n _ (hello ++ rest)
          (quiet-IsPeriodic period_of n hello rest quiet p))
