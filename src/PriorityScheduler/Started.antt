-- ===== src/PriorityScheduler/Started.antt =====
-- The start of the priority scheduler (scheduler_init of educrtos/priority_scheduler.c), for `boot`.
use rtas2021_artifact.Base.{[], refl, arith, weaken}
use rtas2021_artifact.Image.{Image}
use rtas2021_artifact.Image.Tasks.{HasTasks}
use rtas2021_artifact.PriorityScheduler.{Policy, priority_scheduler}
use rtas2021_artifact.PriorityScheduler.Queues.{IsImage}
use rtas2021_artifact.PriorityScheduler.Sound.{priority_contract}
use rtas2021_artifact.PriorityScheduler.Start.{init-AreReady}
use rtas2021_artifact.Contract.{CanStart}

pub priority_starts :
    (image : Image) (policy : Policy) (ok_image : IsImage image)
    → HasTasks image
    → CanStart image (priority_scheduler image policy) (priority_contract image policy ok_image)
unfolding priority_contract
priority_starts image policy ok_image tasks = record {
  tasks = tasks;
  reserve = ok_image.reserve;
  idle = ok_image.idle;
  starts = λ k fresh.
      weaken (init-AreReady image policy ok_image tasks k.idx_reserve fresh.few k refl)
        λ out ((rs, r), same). (
          record {
            rs = rs;
            ws = [];
            queues = r.queues;
            tasks = rw r.reserve_left r.tasks_only;
            room = omega (arith, r.number, r.reserve_left, fresh.room);
          },
          same,
        );
}
