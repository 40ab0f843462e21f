-- ===== src/Handlers/Punctual.antt =====
-- Who runs behind a timer interrupt (educrtos/high_level.c) with the priority scheduler.
use mathlib.Core.Path.{subst}
use rtas2021_artifact.Base.{
  ℕ, ◌+◌, ◌≡◌, true, false, ◌||◌, List, arith, leb, has, length, ◌⊎◌, Bool-cases, inl, inr, Returns,
  returns, bind, ap, sym, ◌∙◌,
}
use rtas2021_artifact.Store.{Ptr}
use rtas2021_artifact.Queue.Sorted.{NoneAbove}
use rtas2021_artifact.Image.{Image}
use rtas2021_artifact.Kernel.{Kernel, context_is_idle, context_idle}
use rtas2021_artifact.LowLevel.{hw_context_switch}
use rtas2021_artifact.HighLevel.{high_level_timer_interrupt_handler}
use rtas2021_artifact.PriorityScheduler.{Policy, waiting, ready, priority_scheduler}
use rtas2021_artifact.PriorityScheduler.Queues.{IsImage, Queues, key, key-same}
use rtas2021_artifact.PriorityScheduler.Waiting.{wakeup}
use rtas2021_artifact.PriorityScheduler.Wake.{wake_tasks-Woken, woken, still_waiting}
use rtas2021_artifact.PriorityScheduler.Due.{remaining_iff, remaining-new}
use rtas2021_artifact.PriorityScheduler.Choose.{
  runs, stays_ready, choose_next-Chosen, maybe_preempt-Chosen,
}
use rtas2021_artifact.PriorityScheduler.Members.{has-woken, length-woken}
use rtas2021_artifact.PriorityScheduler.States.{HasProcessor}
use rtas2021_artifact.Handlers.Disarmed.{first_or-not_null, runs-not_null}
use rtas2021_artifact.Handlers.Entry.{hw_context_switch_no_idle-ok}
use rtas2021_artifact.PriorityScheduler.Best.{
  IsBest, first-IsBest, runs-IsBest, first-busy, runs-busy,
}

module _ (image : Image) (policy : Policy) (ok_image : IsImage image) (p : Ptr) (k : Kernel)
    (t : ℕ) where
  abbrev keys : Ptr → ℕ
  keys = key (ready policy) k.mem

  module _ (rs ws : List Ptr) where
    -- At the date `t` the context can run: it was ready, or its wakeup date has come, or it is the one
    -- that the timer interrupted, and that is not the idle one.
    abbrev pub IsRunnable : Ptr → Type 0
    IsRunnable a =
        (has a rs ≡ true)
        ⊎ ((has a ws ≡ true) × (leb (wakeup k.mem a) t ≡ true))
        ⊎ ((a ≡ p) × (context_is_idle image p ≡ false))

    -- No context that can run has a higher priority than the one that runs in `k'`, which is the idle one
    -- only if none can run.
    pub record Punctual (k' : Kernel) : Type 0 where
      pub best : (a : Ptr) → IsRunnable a → IsBest policy keys k'.processor.running a
      pub busy : (a : Ptr) → IsRunnable a → context_is_idle image k'.processor.running ≡ false

    abbrev now_ready : List Ptr
    now_ready = woken policy keys (wakeup k.mem) t rs ws

    -- Those that can run are ready now, or are the one that was interrupted.
    runnable-ready :
        (a : Ptr)
        → Queues image policy k rs ws
        → IsRunnable a
        → (has a now_ready ≡ true) ⊎ ((a ≡ p) × (context_is_idle image p ≡ false))
    unfolding context_is_idle waiting
    runnable-ready a q (inl was) = inl (
        ground (
          arith,
          has-woken policy keys (wakeup k.mem) t a rs ws,
          remaining-new policy keys (wakeup k.mem) t a ws (q.apart a was),
        ))
    runnable-ready a q (inr (inl (i, due))) = inl (
        ground (
          arith,
          has-woken policy keys (wakeup k.mem) t a rs ws,
          due,
          remaining_iff policy keys (wakeup k.mem) t a ws q.waiting_sorted i,
        ))
    runnable-ready a q (inr (inr mine)) = inr mine

  -- While a context has the processor and the queues are sound, the handler of the timer, called with
  -- the date `t`, returns to a context than which none that can run at that date has a higher priority,
  -- be it one that was ready, one that waited for a date that has come, or the one that was
  -- interrupted; and to the idle context only if none can run.
  pub high_level_timer_interrupt_handler-Punctual :
      (h : HasProcessor image policy p k)
      → Returns
          (Punctual h.rs h.ws)
          (high_level_timer_interrupt_handler image (priority_scheduler image policy) p t k)
  unfolding high_level_timer_interrupt_handler hw_context_switch context_is_idle
  high_level_timer_interrupt_handler-Punctual h =
      bind (wake_tasks-Woken image policy ok_image k t h.rs h.ws h.queues) λ k' w.
        let same : key (ready policy) k'.mem ≡ keys =
          key-same (ready policy) k.mem k'.mem w.requeued.kept in
        elim (Bool-cases (context_is_idle image p)) [
          | inl idle ↦ rw idle (
              bind (choose_next-Chosen image policy ok_image k' _ _ w.queues) λ (x, k'') c.
                rw
                  (hw_context_switch_no_idle-ok x k'' (
                    rw c.next_is
                      (first_or-not_null image k'.mem k'.ready_heap _ ok_image w.queues.ready_is)))
                  (returns (record {
                    best = λ a i. elim (runnable-ready h.rs h.ws a h.queues i) [
                      | inl r ↦
                          subst (λ z. IsBest policy keys z a) (sym c.next_is)
                            (first-IsBest policy keys (context_idle image) a _
                              (rw same at c.highest) r)
                      | inr (at, not_idle) ↦ absurd (ground (arith, idle, not_idle))
                    ];
                    busy = λ a i. elim (runnable-ready h.rs h.ws a h.queues i) [
                      | inl r ↦
                          subst (λ z. context_is_idle image z ≡ false) (sym c.next_is)
                            (first-busy image.idle_ctx_array (context_idle image) a _ no_idle r)
                      | inr (at, not_idle) ↦ absurd (ground (arith, idle, not_idle))
                    ];
                  })))
          | inr busy ↦ rw busy (
              bind
                (maybe_preempt-Chosen image policy ok_image k' p _ _ busy h.not_null
                  (ground (arith, members, h.outside)) (ground (arith, members, h.outside))
                  (omega (arith, lengths, h.own_room busy)) w.queues)
                λ (x, k'') c.
                  rw
                    (hw_context_switch_no_idle-ok x k'' (
                      rw c.next_is (
                        runs-not_null policy _ k'.mem k'.ready_heap p _ h.not_null
                          w.queues.ready_is)))
                    (returns (record {
                      best = λ a i.
                          subst (λ z. IsBest policy keys z a)
                            (sym (c.next_is ∙ ap (λ f. runs policy f p (now_ready h.rs h.ws)) same))
                            (runs-IsBest policy keys p a (now_ready h.rs h.ws)
                              (subst
                                (λ f.
                                  NoneAbove (ready policy) f
                                    (f (runs policy f p (now_ready h.rs h.ws)))
                                    (stays_ready policy f p (now_ready h.rs h.ws)))
                                same c.highest)
                              (elim (runnable-ready h.rs h.ws a h.queues i) [
                                | inl r ↦ ground (arith, r)
                                | inr (at, not_idle) ↦ ground (arith, at)
                              ]));
                      busy = λ a i.
                          subst (λ z. context_is_idle image z ≡ false) (sym c.next_is)
                            (runs-busy policy _ image.idle_ctx_array p _ no_idle busy);
                    })))
        ]
    where
      members :
          (has p (now_ready h.rs h.ws) || has p (still_waiting policy keys (wakeup k.mem) t h.ws))
          ≡ (has p h.rs || has p h.ws)
      members = has-woken policy keys (wakeup k.mem) t p h.rs h.ws

      lengths :
          length (now_ready h.rs h.ws) + length (still_waiting policy keys (wakeup k.mem) t h.ws)
          ≡ length h.rs + length h.ws
      lengths = length-woken policy keys (wakeup k.mem) t h.rs h.ws

      no_idle : has image.idle_ctx_array (now_ready h.rs h.ws) ≡ false
      no_idle = ground (
        arith,
        has-woken policy keys (wakeup k.mem) t image.idle_ctx_array h.rs h.ws,
        h.tasks.no_idle,
      )
