-- ===== src/Handlers/Disarmed.antt =====
-- What a timer interrupt leaves of the timer (educrtos/pit_timer.c, educrtos/high_level.c) with the
-- priority scheduler.
use mathlib.Core.Path.{subst}
use rtas2021_artifact.Base.{
  ℕ, ◌+◌, ◌≤◌, ◌<◌, ◌≡◌, refl, ◌≢◌, true, false, ◌||◌, List, [], ◌∷◌, arith, leb, has, length,
  if◌then◌else◌, Run, Bool-cases, inl, inr, Returns, returns, bind, ap, sym, ◌∙◌,
}
use rtas2021_artifact.Bits.{u32, u64}
use rtas2021_artifact.Store.{Ptr, null, Store}
use rtas2021_artifact.Queue.{Heap}
use rtas2021_artifact.Queue.Chain.{Holds}
use rtas2021_artifact.Image.{Image}
use rtas2021_artifact.Kernel.{Kernel, context_is_idle, context_idle, timer_dont_wake, date_far_away}
use rtas2021_artifact.Terminal.{Terminal}
use rtas2021_artifact.Terminal.Bounds.{IsOnScreen, terminal_putchar-Printed}
use rtas2021_artifact.LowLevel.{hw_context_switch}
use rtas2021_artifact.HighLevel.{high_level_timer_interrupt_handler}
use rtas2021_artifact.Timer.{timer_interrupt_handler, count_tick, is_tenth, outb, actual_tick}
use rtas2021_artifact.PriorityScheduler.{Policy, ready, priority_scheduler}
use rtas2021_artifact.PriorityScheduler.Queues.{IsImage, Queues, key}
use rtas2021_artifact.PriorityScheduler.Waiting.{wakeup}
use rtas2021_artifact.PriorityScheduler.Wake.{wake_tasks-Woken, woken, still_waiting}
use rtas2021_artifact.PriorityScheduler.Choose.{
  first_or, runs, gives_way, choose_next-Chosen, maybe_preempt-Chosen,
}
use rtas2021_artifact.PriorityScheduler.Members.{has-woken, length-woken}
use rtas2021_artifact.PriorityScheduler.States.{HasProcessor}
use rtas2021_artifact.Handlers.Entry.{hw_context_switch_no_idle-ok}

-- Counting a tick changes the count and the screen.
pub count_tick-counted :
    (k : Kernel)
    → IsOnScreen k.screen
    → Returns
        (λ k'. (n : ℕ) × (screen : Terminal) × (k' ≡ record k { count = n; screen = screen }))
        (count_tick k)
unfolding count_tick
count_tick-counted k v = elim (Bool-cases (is_tenth (u32 (k.count + 1)))) [
  | inl tenth ↦
      rw tenth
        (bind (terminal_putchar-Printed _ k.screen v) λ screen printed. returns (_, screen, refl))
  | inr no_mark ↦ rw no_mark (returns (_, k.screen, refl))
]

-- The contexts that still wait when those due at `curtime` were woken.
abbrev pub left : Policy → Kernel → ℕ → List Ptr → List Ptr
left policy k curtime ws = still_waiting policy (key (ready policy) k.mem) (wakeup k.mem) curtime ws

-- The timer is off, and the waiting queue has the size `n`.
abbrev pub IsDisarmed : ℕ → Kernel → Type 0
IsDisarmed n k = (k.next_wake_date ≡ date_far_away) × (k.waiting_heap.size ≡ n)

pub first_or-not_null :
    (image : Image) (m : Store) (h : Heap) (xs : List Ptr)
    → IsImage image
    → Holds m h xs
    → first_or (context_idle image) xs ≢ null
unfolding context_idle
first_or-not_null image m h [] ok_image is = ok_image.idle
first_or-not_null image m h (x ∷ xs) ok_image is = is.chain.1

pub runs-not_null :
    (policy : Policy) (keys : Ptr → ℕ) (m : Store) (h : Heap) (p : Ptr) (xs : List Ptr)
    → p ≢ null
    → Holds m h xs
    → runs policy keys p xs ≢ null
runs-not_null policy keys m h p [] np is = np
runs-not_null policy keys m h p (x ∷ xs) np is =
    elim (Bool-cases (gives_way policy keys p (x ∷ xs))) [
      | inl higher ↦ rw higher is.chain.1
      | inr lower ↦ rw lower np
    ]

module _ (image : Image) (policy : Policy) (ok_image : IsImage image) (p : Ptr) where
  switch-IsDisarmed :
      (n : ℕ) (q : Ptr) (k : Kernel)
      → q ≢ null
      → IsDisarmed n k
      → Returns (IsDisarmed n) (hw_context_switch q k)
  unfolding hw_context_switch
  switch-IsDisarmed n q k nq d = rw (hw_context_switch_no_idle-ok q k nq) (returns d)

  handler-IsDisarmed :
      (k : Kernel) (t : ℕ) (rs ws : List Ptr)
      → k.next_wake_date ≡ date_far_away
      → Queues image policy k rs ws
      → p ≢ null
      → (has p rs || has p ws) ≡ false
      → (context_is_idle image p ≡ false → length rs + length ws < image.nb_contexts)
      → Returns
          (IsDisarmed (length (left policy k t ws)))
          (high_level_timer_interrupt_handler image (priority_scheduler image policy) p t k)
  unfolding high_level_timer_interrupt_handler context_is_idle
  handler-IsDisarmed k t rs ws off q np out room =
      bind (wake_tasks-Woken image policy ok_image k t rs ws q) λ k' w.
        let off' : k'.next_wake_date ≡ date_far_away =
          ap (λ j. j.next_wake_date) w.requeued.rest ∙ off in
        elim (Bool-cases (context_is_idle image p)) [
          | inl idle ↦ rw idle (
              bind (choose_next-Chosen image policy ok_image k' _ _ w.queues) λ (x, k'') c.
                switch-IsDisarmed _ x k''
                  (rw c.next_is
                    (first_or-not_null image k'.mem k'.ready_heap _ ok_image w.queues.ready_is))
                  (ap (λ j. j.next_wake_date) c.requeued.rest ∙ off', c.queues.waiting_is.size))
          | inr busy ↦ rw busy (
              bind
                (maybe_preempt-Chosen image policy ok_image k' p _ _ busy np
                  (ground (arith, members, out)) (ground (arith, members, out))
                  (omega (arith, lengths, room busy)) w.queues)
                λ (x, k'') c.
                  switch-IsDisarmed _ x k''
                    (rw c.next_is
                      (runs-not_null policy _ k'.mem k'.ready_heap p _ np w.queues.ready_is))
                    (ap (λ j. j.next_wake_date) c.requeued.rest ∙ off', c.queues.waiting_is.size))
        ]
    where
      members :
          (has p (woken policy (key (ready policy) k.mem) (wakeup k.mem) t rs ws)
            || has p (left policy k t ws))
          ≡ (has p rs || has p ws)
      members = has-woken policy (key (ready policy) k.mem) (wakeup k.mem) t p rs ws

      lengths :
          length (woken policy (key (ready policy) k.mem) (wakeup k.mem) t rs ws)
            + length (left policy k t ws)
          ≡ length rs + length ws
      lengths = length-woken policy (key (ready policy) k.mem) (wakeup k.mem) t rs ws

  -- When the timer's date has come while a context has the processor, the handler returns with the
  -- timer off, whatever still waits: the waiting queue keeps the contexts behind those that were due.
  pub timer_interrupt_handler-IsDisarmed :
      (k : Kernel) (h : HasProcessor image policy p k)
      → IsOnScreen k.screen
      → k.next_wake_date ≤ u64 (k.current_time + actual_tick)
      → Returns
          (IsDisarmed (length (left policy k (u64 (k.current_time + actual_tick)) h.ws)))
          (timer_interrupt_handler image (priority_scheduler image policy) p k)
  unfolding timer_interrupt_handler outb timer_dont_wake
  timer_interrupt_handler-IsDisarmed k h v due = bind (count_tick-counted _ v) λ k' (n, screen, e).
      subst (λ j. Returns (IsDisarmed (length (left policy k cur h.ws))) (rest j)) (sym e)
        (rw now (
          handler-IsDisarmed _ cur h.rs h.ws refl
            (record {
              ready_is = h.queues.ready_is;
              waiting_is = h.queues.waiting_is;
              ready_sorted = h.queues.ready_sorted;
              waiting_sorted = h.queues.waiting_sorted;
              apart = h.queues.apart;
              room = h.queues.room;
            })
            h.not_null h.outside λ busy. omega (arith, h.own_room busy)))
    where
      cur : ℕ
      cur = u64 (k.current_time + actual_tick)

      now : leb k.next_wake_date cur ≡ true
      now = ground arith

      rest : Kernel → Run Kernel
      rest j =
          if leb j.next_wake_date cur
          then high_level_timer_interrupt_handler image (priority_scheduler image policy) p cur
              (timer_dont_wake j)
          else hw_context_switch p j
