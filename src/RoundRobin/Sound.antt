-- ===== src/RoundRobin/Sound.antt =====
-- The contract of a scheduler, and its start, for educrtos/round_robin_scheduler.c.
use rtas2021_artifact.Base.{◌≢◌, refl, ap, returns, weaken}
use rtas2021_artifact.Store.{null}
use rtas2021_artifact.Image.{Image}
use rtas2021_artifact.Image.Tasks.{HasTasks}
use rtas2021_artifact.Image.Reserve.{HasReserve}
use rtas2021_artifact.RoundRobin.{set_waiting, wake_tasks, maybe_preempt, round_robin_scheduler}
use rtas2021_artifact.Contract.{Contract, CanStart}
use rtas2021_artifact.RoundRobin.Ring.{
  IsRing, InRing, InRing-updated, InRing-stable, choose_next-InRing,
}
use rtas2021_artifact.RoundRobin.Started.{init-IsRing}
use rtas2021_artifact.RoundRobin.Forked.{
  child-not_null, child-other, insert_duplicated_context-InRing,
}

-- The contract of a scheduler, kept by the round-robin scheduler.
unfoldable pub round_robin_contract :
    (image : Image) → HasReserve image → Contract image (round_robin_scheduler image)
unfolding set_waiting wake_tasks maybe_preempt
round_robin_contract image reserve = record {
  Running = InRing image;
  Held = InRing image;
  Between = IsRing image;
  not_null = λ p k h. (h.ring.closed p h.among).0;
  address = λ p k h. (h.ring.closed p h.among).1;
  idle_between = λ p k h idle. h.ring;
  stable = InRing-stable image;
  kept = λ p a k c same h. InRing-updated image p a k c (ap (λ s. s.next) same) h;
  dated = λ p k c same h. InRing-updated image p p k c same h;
  waits = λ p k busy h. returns (h.ring, refl);
  wakes = λ p k t h. returns (h, refl);
  preempts = λ p k busy h. returns (h, refl);
  chooses = λ k r.
      weaken (choose_next-InRing image k r) λ (q, k') (h, next, same). (h, ap (λ j. j.screen) same);
  spares = λ p k more h. (
    child-not_null image reserve p k (k.mem p) more h,
    child-other image reserve p k (k.mem p) more h,
  );
  duplicates =
      λ p k c more busy same h. insert_duplicated_context-InRing image reserve p k c more h same;
}

pub round_robin_starts :
    (image : Image) (reserve : HasReserve image)
    → HasTasks image
    → image.idle_ctx_array ≢ null
    → CanStart image (round_robin_scheduler image) (round_robin_contract image reserve)
unfolding round_robin_contract
round_robin_starts image reserve tasks idle = record {
  tasks = tasks;
  reserve = reserve;
  idle = idle;
  starts = λ k fresh. init-IsRing image tasks k fresh.few;
}
