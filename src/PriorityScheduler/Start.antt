-- ===== src/PriorityScheduler/Start.antt =====
-- `scheduler_init` (educrtos/priority_scheduler.c).
use mathlib.Core.Path.{subst}
use rtas2021_artifact.Base.{
  ℕ, zero, suc, ◌+◌, ◌≤◌, ◌≡◌, refl, true, List, [], arith, ltb, ◌∙◌, Returns, returns, weaken,
  bind,
}
use rtas2021_artifact.Store.{Ptr, with_priority}
use rtas2021_artifact.Queue.{heap_init}
use rtas2021_artifact.Queue.Chain.{load-ok}
use rtas2021_artifact.Image.{Image}
use rtas2021_artifact.Image.Tasks.{HasTasks, task_at-ok}
use rtas2021_artifact.Kernel.{Kernel}
use rtas2021_artifact.PriorityScheduler.{Policy, edf, fp, lower_idle, ready_tasks, init}
use rtas2021_artifact.PriorityScheduler.Queues.{IsImage}
use rtas2021_artifact.PriorityScheduler.Members.{Queues-other}
use rtas2021_artifact.PriorityScheduler.Readied.{
  AreReady, store-ok, take_priority-AreReady, insert_ready-AreReady,
}

module _ (image : Image) (policy : Policy) (ok_image : IsImage image) (tasks : HasTasks image)
    (n : ℕ) (few : n ≤ 10) where
  the_last : {i n : ℕ} → i + 0 ≡ n → i ≡ n
  the_last e = omega arith

  ready_tasks-AreReady :
      (rounds i : ℕ) (rs : List Ptr) (k : Kernel)
      → i + rounds ≡ image.nb_tasks
      → AreReady image policy ok_image tasks n few i rs k
      → Returns
          (λ k'.
            ((rs' : List Ptr) × AreReady image policy ok_image tasks n few image.nb_tasks rs' k')
            × (k'.screen ≡ k.screen))
          (ready_tasks image policy rounds i k)
  unfolding ready_tasks
  ready_tasks-AreReady zero i rs k e r =
      returns
        ((rs, subst (λ j. AreReady image policy ok_image tasks n few j rs k) (the_last e) r), refl)
  ready_tasks-AreReady (suc rounds) i rs k e r =
      let (t, at, read) = task_at-ok image i tasks (omega arith) in
      rw (within, read)
        (bind
          (take_priority-AreReady image policy ok_image tasks n few policy i rs k t.context
            t.priority (tasks.not_null i t at) (r.others i t (omega arith) at) r)
          λ k' (r', same).
            bind
              (insert_ready-AreReady image policy ok_image tasks n few i rs k' t (omega arith) at
                r')
              λ k'' (r'', same').
                weaken (ready_tasks-AreReady rounds (i + 1) _ k'' (omega arith) r'')
                  λ out (queued, same''). (queued, same'' ∙ same' ∙ same))
    where
      within : ltb i image.nb_tasks ≡ true
      within = ground arith

  nobody-AreReady :
      (k : Kernel)
      → k.idx_reserve ≡ n
      → AreReady image policy ok_image tasks n few 0 []
          (record k { ready_heap = heap_init; waiting_heap = heap_init })
  unfolding heap_init
  nobody-AreReady k left = record {
    queues = record {
      ready_is = record { chain = refl; size = refl; bounded = omega arith };
      waiting_is = record { chain = refl; size = refl; bounded = omega arith };
      ready_sorted = tt;
      waiting_sorted = tt;
      apart = λ a i. refl;
      room = omega arith;
    };
    tasks_only = record {
      addresses = λ a i. ground arith;
      no_idle = refl;
      few = few;
      fresh = λ i l. refl;
    };
    number = refl;
    reserve_left = left;
    members = λ j t early e. absurd (omega arith);
    others = λ j t later e. refl;
  }

  -- The idle context's priority is in no queue's way.
  lower_idle-AreReady :
      (q : Policy) (k : Kernel)
      → AreReady image policy ok_image tasks n few 0 [] k
      → Returns
          (λ k'. AreReady image policy ok_image tasks n few 0 [] k' × (k'.screen ≡ k.screen))
          (lower_idle image policy q k)
  unfolding lower_idle
  lower_idle-AreReady edf k r = returns (r, refl)
  lower_idle-AreReady fp k r =
      rw
        (
          load-ok image.idle_ctx_array k.mem ok_image.idle,
          store-ok image.idle_ctx_array (with_priority 0 (k.mem image.idle_ctx_array)) k
              ok_image.idle,
        )
        (returns (
          record {
            queues = Queues-other image policy k image.idle_ctx_array _ [] [] refl refl r.queues;
            tasks_only = r.tasks_only;
            number = r.number;
            reserve_left = r.reserve_left;
            members = r.members;
            others = r.others;
          },
          refl,
        ))

  -- For a system description whose tasks have contexts of their own, `scheduler_init` returns from any
  -- kernel with at most 10 contexts in reserve, with a sorted ready queue that holds as many contexts as there are tasks, among them that
  -- of each task, and with an empty waiting queue; it leaves the
  -- screen and the contexts in reserve alone.
  pub init-AreReady :
      (k : Kernel)
      → k.idx_reserve ≡ n
      → Returns
          (λ k'.
            ((rs : List Ptr) × AreReady image policy ok_image tasks n few image.nb_tasks rs k')
            × (k'.screen ≡ k.screen))
          (init image policy k)
  unfolding init
  init-AreReady k left =
      bind (lower_idle-AreReady policy _ (nobody-AreReady k left)) λ k' (r, same).
        weaken (ready_tasks-AreReady image.nb_tasks 0 [] k' (omega arith) r)
          λ out (queued, same'). (queued, same' ∙ same)
