-- ===== src/PriorityScheduler/Readied.antt =====
-- The ready queue while `scheduler_init` of educrtos/priority_scheduler.c fills it.
use native.Mathlib.Decide.{dec_le}
use rtas2021_artifact.Base.{
  ℕ, ◌+◌, ◌≤◌, ◌<◌, ◌≡◌, refl, ◌≢◌, true, false, List, [], arith, has, length, ◌==◌, get_elem?,
  some, Bool-cases, inl, inr, sym, ap, ◌∙◌, ok, Returns, returns, weaken,
}
use rtas2021_artifact.Store.{Ptr, null, Context, with_priority, write, store}
use rtas2021_artifact.Queue.Chain.{load-ok}
use rtas2021_artifact.Queue.Sorted.{insert_by, has-insert_by, length-insert_by}
use rtas2021_artifact.Image.{Image, TaskDescription, reserve_at}
use rtas2021_artifact.Image.Tasks.{HasTasks, some-inj}
use rtas2021_artifact.Kernel.{Kernel}
use rtas2021_artifact.PriorityScheduler.{Policy, edf, fp, ready, take_priority, insert_ready}
use rtas2021_artifact.PriorityScheduler.Queues.{IsImage, Queues, key, insert_ready-Queues}
use rtas2021_artifact.PriorityScheduler.Members.{Queues-other}
use rtas2021_artifact.PriorityScheduler.States.{AreTasks}

pub store-ok :
    (p : Ptr) (c : Context) (k : Kernel) → p ≢ null → store p c k.mem ≡ ok (write k.mem p c)
unfolding store
store-ok p c k h = ground arith

module _ (image : Image) (policy : Policy) (ok_image : IsImage image) (tasks : HasTasks image)
    (n : ℕ) (few : n ≤ 10) where
  -- The first `i` tasks are ready, and nobody waits.
  pub record AreReady (i : ℕ) (rs : List Ptr) (k : Kernel) : Type 0 where
    pub queues : Queues image policy k rs []
    pub tasks_only : AreTasks image n rs []
    pub number : length rs ≡ i
    pub reserve_left : k.idx_reserve ≡ n
    pub members :
        (j : ℕ) (t : TaskDescription)
        → j < i
        → get_elem? image.tasks j ≡ some t
        → has t.context rs ≡ true
    pub others :
        (j : ℕ) (t : TaskDescription)
        → i ≤ j
        → get_elem? image.tasks j ≡ some t
        → has t.context rs ≡ false

  pub take_priority-AreReady :
      (q : Policy) (i : ℕ) (rs : List Ptr) (k : Kernel) (p priority : ℕ)
      → p ≢ null
      → has p rs ≡ false
      → AreReady i rs k
      → Returns
          (λ k'. AreReady i rs k' × (k'.screen ≡ k.screen))
          (take_priority image policy q p priority k)
  unfolding take_priority
  take_priority-AreReady edf i rs k p priority np out r = returns (r, refl)
  take_priority-AreReady fp i rs k p priority np out r =
      rw (load-ok p k.mem np, store-ok p (with_priority priority (k.mem p)) k np)
        (returns (
          record {
            queues = Queues-other image policy k p _ rs [] out refl r.queues;
            tasks_only = r.tasks_only;
            number = r.number;
            reserve_left = r.reserve_left;
            members = r.members;
            others = r.others;
          },
          refl,
        ))

  pub insert_ready-AreReady :
      (i : ℕ) (rs : List Ptr) (k : Kernel) (t : TaskDescription)
      → i < image.nb_tasks
      → get_elem? image.tasks i ≡ some t
      → AreReady i rs k
      → Returns
          (λ k'.
            AreReady (i + 1) (insert_by (ready policy) (key (ready policy) k.mem) t.context rs) k'
            × (k'.screen ≡ k.screen))
          (insert_ready image policy t.context k)
  insert_ready-AreReady i rs k t h e r =
      weaken
        (insert_ready-Queues image policy ok_image k t.context rs [] (tasks.not_null i t e)
          (r.others i t (omega arith) e) refl (omega (arith, r.number, tasks.enough)) r.queues)
        λ k' (queues, requeued). (
          record {
            queues = queues;
            tasks_only = record {
              addresses = λ a j. elim (Bool-cases (a == t.context)) [
                | inl at ↦ let same : a ≡ t.context = ground arith in rw same (tasks.address i t e)
                | inr off ↦
                    r.tasks_only.addresses a
                      (ground (arith, has-insert_by (ready policy) keys a t.context rs))
              ];
              no_idle = ground (
                arith,
                r.tasks_only.no_idle,
                tasks.not_idle i t e,
                has-insert_by (ready policy) keys image.idle_ctx_array t.context rs,
              );
              few = few;
              fresh = λ j l. ground (
                arith,
                r.tasks_only.fresh j l,
                tasks.not_reserve i j t e (omega arith),
                has-insert_by (ready policy) keys (reserve_at image j) t.context rs,
              );
            };
            number = omega (arith, r.number, length-insert_by (ready policy) keys t.context rs);
            reserve_left = ap (λ j. j.idx_reserve) requeued.rest ∙ r.reserve_left;
            members = λ j u early f. elim (dec_le i j) [
              | yes le ↦
                  let at : j ≡ i = omega arith in
                  let same : t ≡ u =
                    some-inj t u (sym e ∙ ap (λ n. get_elem? image.tasks n) (sym at) ∙ f) in
                  ground (
                    arith,
                    has-insert_by (ready policy) keys u.context t.context rs,
                    ap (λ d. d.context) same,
                  )
              | no gt ↦ ground (
                arith,
                has-insert_by (ready policy) keys u.context t.context rs,
                r.members j u (omega (arith, gt)) f,
              )
            ];
            others = λ j u later f. ground (
              arith,
              has-insert_by (ready policy) keys u.context t.context rs,
              r.others j u (omega arith) f,
              tasks.distinct i j t u (omega arith) e f,
            );
          },
          ap (λ j. j.screen) requeued.rest,
        )
    where
      keys : Ptr → ℕ
      keys = key (ready policy) k.mem
