-- ===== src/Handlers/Yielded.antt =====
-- Who runs behind the system call `yield` (c_syscall_yield of educrtos/high_level.c) with the priority
-- scheduler, and who waits.
use mathlib.Core.Path.{subst}
use rtas2021_artifact.Base.{
  ℕ, ◌+◌, ◌≤◌, ◌≡◌, true, false, ◌||◌, List, [], ◌∷◌, arith, has, ◌==◌, Bool-cases, inl, inr,
  Returns, returns, bind, ap, sym, ◌∙◌,
}
use rtas2021_artifact.Bits.{u64}
use rtas2021_artifact.Store.{Ptr, Store, Context, write}
use rtas2021_artifact.Store.Write.{write-at}
use rtas2021_artifact.Queue.Chain.{load-ok}
use rtas2021_artifact.Queue.Sorted.{insert_by, has-insert_by}
use rtas2021_artifact.Image.{Image}
use rtas2021_artifact.Kernel.{Kernel, context_is_idle, context_idle}
use rtas2021_artifact.LowLevel.{hw_context_switch}
use rtas2021_artifact.HighLevel.{c_syscall_yield, yield_dates, from_halves}
use rtas2021_artifact.PriorityScheduler.{Policy, waiting, ready, priority_scheduler}
use rtas2021_artifact.PriorityScheduler.Queues.{IsImage, Queues, key, key-same}
use rtas2021_artifact.PriorityScheduler.Members.{Queues-other}
use rtas2021_artifact.PriorityScheduler.Waiting.{
  wakeup, wakeup-same, NoneBefore, set_waiting-Blocked,
}
use rtas2021_artifact.PriorityScheduler.Choose.{first_or, others, choose_next-Chosen}
use rtas2021_artifact.PriorityScheduler.States.{HasProcessor}
use rtas2021_artifact.PriorityScheduler.Best.{IsBest, first-IsBest, first-busy}
use rtas2021_artifact.Handlers.Disarmed.{first_or-not_null}
use rtas2021_artifact.Handlers.Entry.{hw_context_switch_no_idle-ok, store-ok}

NoneBefore-has :
    (m : Store) (date : ℕ) (xs : List Ptr) (a : Ptr)
    → NoneBefore m date xs
    → has a xs ≡ true
    → date ≤ wakeup m a
NoneBefore-has m date [] a n i = absurd (ground arith)
NoneBefore-has m date (x ∷ xs) a n i = elim (Bool-cases (a == x)) [
  | inl at ↦ let e : x ≡ a = ground arith in subst (λ z. date ≤ wakeup m z) e n.0
  | inr off ↦ NoneBefore-has m date xs a n.1 (ground arith)
]

module _ (image : Image) (policy : Policy) (ok_image : IsImage image) (p : Ptr) (k : Kernel)
    (wakeup_high wakeup_low deadline_high deadline_low : ℕ) where
  -- The context that called, with its new dates.
  abbrev caller : Context
  caller =
      yield_dates (priority_scheduler image policy).edf_scheduling wakeup_high wakeup_low
        deadline_high deadline_low (k.mem p)

  abbrev dated : Kernel
  dated = record k { mem = write k.mem p caller }

  -- The caller waits, with the contexts that waited, for the date that it asked for, and the timer is
  -- set so that it wakes none of them too late. One that was ready runs, with a priority that none of
  -- the others that were exceeds; the idle one only if none was ready.
  pub record Yielded (rs ws : List Ptr) (k' : Kernel) : Type 0 where
    pub waits : List Ptr
    pub queues : Queues image policy k' (others rs) waits
    pub sleepers : (a : Ptr) → has a waits ≡ ((a == p) || has a ws)
    pub dates : wakeup k'.mem p ≡ u64 (wakeup k.mem p + from_halves wakeup_high wakeup_low)
    pub alarm : (a : Ptr) → has a waits ≡ true → k'.next_wake_date ≤ wakeup k'.mem a
    pub runs_first : k'.processor.running ≡ first_or (context_idle image) rs
    pub best :
        (a : Ptr)
        → has a rs ≡ true
        → IsBest policy (key (ready policy) k'.mem) k'.processor.running a
    pub busy : (a : Ptr) → has a rs ≡ true → context_is_idle image k'.processor.running ≡ false

  dates-caller : wakeup dated.mem p ≡ u64 (wakeup k.mem p + from_halves wakeup_high wakeup_low)
  unfolding yield_dates
  dates-caller = ap (λ c. c.sched_context.wakeup_date) (write-at k.mem p caller)

  -- While a context that is not idle has the processor and the queues are sound, `c_syscall_yield` of
  -- it returns, whatever the durations. The caller waits then, beside those that waited, with its
  -- wakeup date moved on by the duration that it gave, modulo 2 ^ 64; the timer is set to a date that
  -- is no later than that of any that waits. What runs is the first context that was ready, with a
  -- priority that none that was ready exceeds, and the idle one only if none was.
  pub c_syscall_yield-Yielded :
      (h : HasProcessor image policy p k)
      → context_is_idle image p ≡ false
      → Returns (Yielded h.rs h.ws) (
          c_syscall_yield image
            (priority_scheduler image policy)
            p
            wakeup_high
            wakeup_low
            deadline_high
            deadline_low
            k)
  unfolding c_syscall_yield hw_context_switch context_is_idle
  c_syscall_yield-Yielded h not_idle =
      rw (load-ok p k.mem h.not_null, store-ok p caller k.mem h.not_null)
        (bind
          (set_waiting-Blocked image policy ok_image dated p h.rs h.ws h.not_null out_r out_w
            (omega (arith, h.own_room not_idle))
            (Queues-other image policy k p caller h.rs h.ws out_r out_w h.queues))
          λ k' b. bind (choose_next-Chosen image policy ok_image k' _ h.rs b.queues) λ (x, k'') c.
            let same = λ (a : Ptr). c.requeued.kept a ∙ b.kept a in
            let dates_same = wakeup-same dated.mem k''.mem same in
            let keys_same = key-same (ready policy) k'.mem k''.mem c.requeued.kept in
            rw
              (hw_context_switch_no_idle-ok x k'' (
                rw c.next_is
                  (first_or-not_null image k'.mem k'.ready_heap _ ok_image b.queues.ready_is)))
              (returns (record {
                waits = insert_by waiting (key waiting dated.mem) p h.ws;
                queues = record {
                  ready_is = c.queues.ready_is;
                  waiting_is = c.queues.waiting_is;
                  ready_sorted = c.queues.ready_sorted;
                  waiting_sorted = c.queues.waiting_sorted;
                  apart = c.queues.apart;
                  room = c.queues.room;
                };
                sleepers = λ a. has-insert_by waiting (key waiting dated.mem) a p h.ws;
                dates = ap (λ f. f p) dates_same ∙ dates-caller;
                alarm = λ a i.
                    let early = NoneBefore-has k'.mem k'.next_wake_date _ a b.earliest i in
                    let later = ap (λ f. f a) (wakeup-same k'.mem k''.mem c.requeued.kept) in
                    let timer = ap (λ j. j.next_wake_date) c.requeued.rest in
                    omega (arith, early, later, timer);
                runs_first = c.next_is;
                best = λ a i.
                    subst (λ z. IsBest policy (key (ready policy) k''.mem) z a) (sym c.next_is)
                      (rw keys_same (
                        first-IsBest policy (key (ready policy) k'.mem) (context_idle image) a h.rs
                          c.highest i));
                busy = λ a i.
                    subst (λ z. context_is_idle image z ≡ false) (sym c.next_is)
                      (first-busy image.idle_ctx_array (context_idle image) a h.rs no_idle i);
              })))
    where
      out_r : has p h.rs ≡ false
      out_r = ground (arith, h.outside)

      out_w : has p h.ws ≡ false
      out_w = ground (arith, h.outside)

      no_idle : has image.idle_ctx_array h.rs ≡ false
      no_idle = ground (arith, h.tasks.no_idle)
