-- ===== src/PriorityScheduler/Sound.antt =====
-- The contract of a scheduler, for educrtos/priority_scheduler.c.
use mathlib.Core.Path.{subst}
use rtas2021_artifact.Base.{
  ◌+◌, ◌<◌, length, ◌≡◌, refl, false, ◌||◌, List, arith, has, sym, ap, weaken,
}
use rtas2021_artifact.Store.{Ptr}
use rtas2021_artifact.Image.{Image}
use rtas2021_artifact.Kernel.{Kernel, context_is_idle}
use rtas2021_artifact.PriorityScheduler.{Policy, ready, priority_scheduler}
use rtas2021_artifact.PriorityScheduler.Queues.{IsImage, key-same}
use rtas2021_artifact.PriorityScheduler.Waiting.{set_waiting-Blocked}
use rtas2021_artifact.PriorityScheduler.Wake.{wake_tasks-Woken}
use rtas2021_artifact.PriorityScheduler.Choose.{choose_next-Chosen, maybe_preempt-Chosen}
use rtas2021_artifact.PriorityScheduler.States.{
  AllQueued, HasProcessor, Governs, Governs-stable, Governs-kept, HasProcessor-dated,
  Blocked-AllQueued, Woken-HasProcessor,
}
use rtas2021_artifact.PriorityScheduler.Given.{chosen-Governs, preempted-Governs}
use rtas2021_artifact.PriorityScheduler.Forked.{
  child-not_null, child-other, insert_duplicated_context-Governs,
}
use rtas2021_artifact.Contract.{Contract}

outside_ready : (p : Ptr) (rs ws : List Ptr) → (has p rs || has p ws) ≡ false → has p rs ≡ false
outside_ready p rs ws out = ground (arith, out)

outside_waiting : (p : Ptr) (rs ws : List Ptr) → (has p rs || has p ws) ≡ false → has p ws ≡ false
outside_waiting p rs ws out = ground (arith, out)

own_place :
    (image : Image) (policy : Policy) (p : Ptr) (k : Kernel) (h : HasProcessor image policy p k)
    → context_is_idle image p ≡ false
    → length h.rs + length h.ws < image.nb_contexts
own_place image policy p k h busy = omega (arith, h.own_room busy)

-- The contract of a scheduler, kept by the priority scheduler.
unfoldable pub priority_contract :
    (image : Image) (policy : Policy)
    → IsImage image
    → Contract image (priority_scheduler image policy)
unfolding context_is_idle outside_ready outside_waiting own_place
priority_contract image policy ok_image = record {
  Running = Governs image policy;
  Held = HasProcessor image policy;
  Between = AllQueued image policy;
  not_null = λ p k g. g.held.not_null;
  address = λ p k g. g.held.address;
  idle_between = λ p k h idle. record {
    rs = h.rs;
    ws = h.ws;
    queues = h.queues;
    tasks = h.tasks;
    room = h.room;
  };
  stable = Governs-stable image policy;
  kept = Governs-kept image policy;
  dated = λ p k c same g. HasProcessor-dated image policy p k c g.held;
  waits = λ p k busy h.
      weaken
        (set_waiting-Blocked image policy ok_image k p h.rs h.ws h.not_null
          (outside_ready p h.rs h.ws h.outside) (outside_waiting p h.rs h.ws h.outside)
          (own_place image policy p k h busy) h.queues)
        λ k' b.
          (Blocked-AllQueued image policy ok_image p k h k' busy b, ap (λ j. j.screen) b.rest);
  wakes = λ p k t g.
      weaken (wake_tasks-Woken image policy ok_image k t g.held.rs g.held.ws g.held.queues) λ k' w.
        (
          Woken-HasProcessor image policy ok_image p k t g.held k' w,
          ap (λ j. j.screen) w.requeued.rest,
        );
  preempts = λ p k busy h.
      weaken
        (maybe_preempt-Chosen image policy ok_image k p h.ws h.rs busy h.not_null
          (outside_ready p h.rs h.ws h.outside) (outside_waiting p h.rs h.ws h.outside)
          (own_place image policy p k h busy) h.queues)
        λ (q, k') c. (
          subst (λ q. Governs image policy q k') (sym c.next_is)
              (preempted-Governs image policy k k' (ap (λ j. j.idx_reserve) c.requeued.rest)
                (key-same (ready policy) k.mem k'.mem c.requeued.kept) p h busy h.rs refl c.queues
                c.highest),
          ap (λ j. j.screen) c.requeued.rest,
        );
  chooses = λ k b.
      weaken (choose_next-Chosen image policy ok_image k b.ws b.rs b.queues) λ (q, k') c. (
        subst (λ q. Governs image policy q k') (sym c.next_is)
            (chosen-Governs image policy k k' (ap (λ j. j.idx_reserve) c.requeued.rest)
              (key-same (ready policy) k.mem k'.mem c.requeued.kept) ok_image b.ws b.rs b.queues
              b.tasks b.room c.queues c.highest),
        ap (λ j. j.screen) c.requeued.rest,
      );
  spares = λ p k more g. (
    child-not_null image policy ok_image p k (k.mem p) more g,
    child-other image policy ok_image p k (k.mem p) more g,
  );
  duplicates = λ p k c more busy same g.
      insert_duplicated_context-Governs image policy ok_image p k c more g same busy;
}
