-- ===== src/Task.antt =====
-- The example program educrtos/task.c, as the system calls that it makes, in order.
pub mod Printed
pub mod Period
pub mod Periodic
use rtas2021_artifact.Base.{
  ℕ, zero, suc, ◌+◌, ◌*◌, ◌^◌, List, [], ◌∷◌, ◌++◌, map, ◌==◌, if◌then◌else◌, Run, ok, fault, ◌>>=◌,
  codes,
}
use rtas2021_artifact.Bits.{u8, u64}
use rtas2021_artifact.Store.{Pusha}
use rtas2021_artifact.Format.{Arg, word, vfprint}
use rtas2021_artifact.UserTasks.{yield, putchar, dup_thread}

-- A system call of the task, with its arguments.
pub data Call : Type 0 where
  call_yield : (next_wakeup next_deadline : ℕ) → Call
  call_putchar : ℕ → Call
  call_dup_thread : Call

-- What the call puts into the registers.
unfoldable pub registers_of : Call → Pusha → Pusha
registers_of (call_yield next_wakeup next_deadline) = yield next_wakeup next_deadline
registers_of (call_putchar x) = putchar x
registers_of call_dup_thread = dup_thread

-- printf(format, …): `junk` is what the stack holds.
unfoldable pub printf : ℕ → List ℕ → List Arg → Run (List Call)
printf junk format args = do s ← vfprint junk format args; ok (map call_putchar s)

abbrev pub second : ℕ
second = 1000000000

-- test_func(), up to its `while(1)`.
unfoldable pub test_func : ℕ → Run (List Call)
unfolding printf
test_func junk = do
  before ← printf junk (codes "New thread!\n") []
  after ← printf junk (codes "New thread: ending execution") []
  ok (before ++ (call_yield (10 * second) second ∷ after))

-- thread_create(func, …), where `dup_thread` returns `res`: `func` is jumped to on a new stack, or the
-- caller goes on.
unfoldable pub thread_create : ℕ → (func onwards : Run (List Call)) → Run (List Call)
thread_create res func onwards = do
  calls ← if res == 0 then func else onwards
  ok (call_dup_thread ∷ calls)

-- `i++` on an int; beyond the largest one it is undefined.
unfoldable pub next_i : ℕ → Run ℕ
next_i i = if i + 1 == 2 ^ 31 then fault else ok (i + 1)

-- `number_text` is XSTRING(TASK_NUMBER).
module _ (task_number : ℕ) (number_text : List ℕ) (junk : ℕ) where
  -- One round of the loop in test_userspace, with `i` counted up.
  unfoldable pub one_round : (pid i : ℕ) → Run (List Call)
  unfolding printf
  one_round pid i = do
    line ←
        printf junk (codes "task" ++ (number_text ++ codes " pid %d: i=%d\n"))
          (word pid ∷ word i ∷ [])
    ok (line ++ (call_yield (u64 ((task_number + 2) * second)) second ∷ []))

  -- The first `n` rounds of the loop, from `i` on.
  unfoldable pub rounds : (n pid i : ℕ) → Run (List Call)
  unfolding one_round next_i
  rounds zero pid i = ok []
  rounds (suc n) pid i = do
    i' ← next_i i
    calls ← one_round pid i'
    rest ← rounds n pid i'
    ok (calls ++ rest)

  -- test_userspace(pid), with the first `n` rounds of its loop; `res` is the result of dup_thread.
  unfoldable pub test_userspace : (res n pid : ℕ) → Run (List Call)
  unfolding printf thread_create test_func rounds
  test_userspace res n pid = do
    hello ← printf junk (codes " says hello %d %d\n") (word task_number ∷ word pid ∷ [])
    let looping = rounds n pid 0
    let parent : Run (List Call) = (do
      dupped ← printf junk (codes "Dupped thread\n") []
      calls ← looping
      ok (dupped ++ calls))
    rest ← if task_number == 0 then thread_create res (test_func junk) parent else looping
    ok (call_putchar (u8 (b'0' + task_number)) ∷ (hello ++ rest))
