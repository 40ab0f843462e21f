-- ===== src/Tests/Queues.antt =====
-- Examples of the theorems on the queues and on the priority scheduler.
use rtas2021_artifact.Base.{[], ◌∷◌, refl, ◌≢◌, arith, Returns}
use rtas2021_artifact.Store.{Ptr, null}
use rtas2021_artifact.Queue.{insert_elt}
use rtas2021_artifact.Queue.Chain.{Holds}
use rtas2021_artifact.Queue.Insert.{Inserted, insert_elt-Inserted}
use rtas2021_artifact.PriorityScheduler.{
  edf, fp, waiting, ready, set_waiting, wake_tasks, maybe_preempt,
}
use rtas2021_artifact.PriorityScheduler.Queues.{IsImage, Queues, key}
use rtas2021_artifact.PriorityScheduler.Waiting.{Blocked, set_waiting-Blocked}
use rtas2021_artifact.PriorityScheduler.Wake.{Woken, wake_tasks-Woken}
use rtas2021_artifact.PriorityScheduler.Due.{Parted, wake_tasks-Parted}
use rtas2021_artifact.PriorityScheduler.Choose.{Chosen, maybe_preempt-Chosen, runs, stays_ready}
use rtas2021_artifact.Image.Reserve.{HasReserve}
use rtas2021_artifact.Tests.Sample.{mem, image, queue, empty, kernel}

pub image-HasReserve : HasReserve image
image-HasReserve = record { not_null = ground arith; some_size = omega arith; end = omega arith }

pub image-IsImage : IsImage image
image-IsImage = record {
  idle = ground arith;
  idle_address = omega arith;
  reserve = image-HasReserve;
  reserve_idle = λ i l. ground arith;
  small = omega arith;
}

queue-Holds : (p : Ptr) → p ≢ null → Holds mem (queue p) (p ∷ [])
queue-Holds p n = record { chain = (refl, n, refl, refl); size = refl; bounded = omega arith }

empty-Holds : Holds mem empty []
empty-Holds = record { chain = refl; size = refl; bounded = omega arith }

-- 16 is ready and nobody waits.
ready-Queues : Queues image edf (kernel (queue 16) empty) (16 ∷ []) []
ready-Queues = record {
  ready_is = queue-Holds 16 (ground arith);
  waiting_is = empty-Holds;
  ready_sorted = (tt, tt);
  waiting_sorted = tt;
  apart = λ a i. refl;
  room = omega arith;
}

-- 32 waits and nobody is ready.
pub waiting-Queues : Queues image fp (kernel empty (queue 32)) [] (32 ∷ [])
waiting-Queues = record {
  ready_is = empty-Holds;
  waiting_is = queue-Holds 32 (ground arith);
  ready_sorted = tt;
  waiting_sorted = (tt, tt);
  apart = λ a i. ground arith;
  room = omega arith;
}

insert_elt-Inserted_example :
    Returns (Inserted waiting mem 16 (32 ∷ [])) (insert_elt waiting 16 (queue 32) mem)
insert_elt-Inserted_example =
    insert_elt-Inserted waiting mem (queue 32) 16 (32 ∷ []) (ground arith) refl (omega arith)
      (queue-Holds 32 (ground arith))

set_waiting-Blocked_example :
    Returns
      (Blocked image fp (kernel empty (queue 32)) 16 [] (32 ∷ []))
      (set_waiting image fp 16 (kernel empty (queue 32)))
set_waiting-Blocked_example =
    set_waiting-Blocked image fp image-IsImage (kernel empty (queue 32)) 16 [] (32 ∷ [])
      (ground arith) refl refl (omega arith) waiting-Queues

wake_tasks-Woken_example :
    Returns
      (Woken image fp image-IsImage (kernel empty (queue 32)) 7 [] (32 ∷ []))
      (wake_tasks image fp 7 (kernel empty (queue 32)))
wake_tasks-Woken_example =
    wake_tasks-Woken image fp image-IsImage (kernel empty (queue 32)) 7 [] (32 ∷ []) waiting-Queues

maybe_preempt-Chosen_example :
    Returns
      (Chosen image edf image-IsImage
        (kernel (queue 16) empty)
        []
        (runs edf (key (ready edf) mem) 32 (16 ∷ []))
        (stays_ready edf (key (ready edf) mem) 32 (16 ∷ [])))
      (maybe_preempt image edf 32 (kernel (queue 16) empty))
maybe_preempt-Chosen_example =
    maybe_preempt-Chosen image edf image-IsImage (kernel (queue 16) empty) 32 [] (16 ∷ []) refl
      (ground arith) refl refl (omega arith) ready-Queues

wake_tasks-Parted_example :
    Returns
      (Parted image fp (kernel empty (queue 32)) 7 [] (32 ∷ []))
      (wake_tasks image fp 7 (kernel empty (queue 32)))
wake_tasks-Parted_example =
    wake_tasks-Parted image fp image-IsImage (kernel empty (queue 32)) 7 [] (32 ∷ []) waiting-Queues
