-- ===== src/RoundRobin/Links.antt =====
-- The loop that links the tasks to a ring (scheduler_init of educrtos/round_robin_scheduler.c).
use rtas2021_artifact.Base.{
  ℕ, zero, suc, ◌+◌, ◌≤◌, ◌<◌, ◌≡◌, refl, ◌≢◌, true, false, List, [], ◌∷◌, arith, ltb, ◌==◌,
  get_elem?, get_or, some, sym, ap, ◌∙◌, ok, Returns, returns, weaken,
}
use native.Mathlib.Decide.{dec_le}
use rtas2021_artifact.Store.{Ptr, null, Store, next_of, with_next, write}
use rtas2021_artifact.Store.Write.{write-at, write-off}
use rtas2021_artifact.Queue.Chain.{set_next-ok}
use rtas2021_artifact.Image.{Image, TaskDescription, task_at}
use rtas2021_artifact.Image.Tasks.{HasTasks, task_at-ok, some-inj}
use rtas2021_artifact.RoundRobin.{link_tasks}

-- The context of the task `i`.
abbrev pub context_of : Image → ℕ → Ptr
context_of image i =
    (get_or image.tasks i
      (record { context = null; start_pc = 0; task_begin = 0; task_end = 0; priority = 0 })).context

get_elem?-get_or :
    (ts : List TaskDescription) (i : ℕ) (t d : TaskDescription)
    → get_elem? ts i ≡ some t
    → get_or ts i d ≡ t
get_elem?-get_or [] i t d e = absurd (ground arith)
get_elem?-get_or (u ∷ ts) zero t d e = some-inj u t e
get_elem?-get_or (u ∷ ts) (suc i) t d e = get_elem?-get_or ts i t d e

module _ (image : Image) (tasks : HasTasks image) where
  abbrev c : ℕ → Ptr
  c = context_of image

  -- A task that is read is that of the contexts, which are distinct and not null.
  pub task_of :
      (i : ℕ)
      → i < image.nb_tasks
      → (t : TaskDescription) × (get_elem? image.tasks i ≡ some t)
        × (task_at image i ≡ ok t)
        × (c i ≡ t.context)
  task_of i h =
      let (t, at, read) = task_at-ok image i tasks h in
      (t, at, read, ap (λ d. d.context) (get_elem?-get_or image.tasks i t _ at))

  pub c-not_null : (i : ℕ) → i < image.nb_tasks → c i ≢ null
  c-not_null i h = let (t, at, read, is) = task_of i h in λ e. tasks.not_null i t at (sym is ∙ e)

  pub c-apart : (i j : ℕ) → i < j → j < image.nb_tasks → (c j == c i) ≡ false
  c-apart i j h l =
      let (t, at, read, is) = task_of i (omega arith) in
      let (u, at', read', is') = task_of j l in
      ground (arith, tasks.distinct i j t u h at at', is, is')

  -- The tasks from `i` on are linked, one to the next, behind `prev`.
  pub record Chained (i : ℕ) (prev : Ptr) (m m' : Store) : Type 0 where
    pub first : i < image.nb_tasks → next_of (m' prev) ≡ c i
    pub links : (j : ℕ) → i ≤ j → j + 1 < image.nb_tasks → next_of (m' (c j)) ≡ c (j + 1)
    pub off :
        (a : Ptr)
        → (i < image.nb_tasks → (a == prev) ≡ false)
        → ((j : ℕ) → i ≤ j → j + 1 < image.nb_tasks → (a == c j) ≡ false)
        → m' a ≡ m a

  pub link_tasks-Chained :
      (rounds i : ℕ) (prev : Ptr) (m : Store)
      → i + rounds ≡ image.nb_tasks
      → prev ≢ null
      → ((j : ℕ) → i ≤ j → j + 1 < image.nb_tasks → (prev == c j) ≡ false)
      → Returns (Chained i prev m) (link_tasks image rounds i prev m)
  unfolding link_tasks
  link_tasks-Chained zero i prev m e np apart = returns (record {
    first = λ h. absurd (omega arith);
    links = λ j h l. absurd (omega arith);
    off = λ a o p. refl;
  })
  link_tasks-Chained (suc rounds) i prev m e np apart =
      let (t, at, read, is) = task_of i (omega arith) in
      rw (within, read, set_next-ok prev t.context m np, sym is)
        (weaken
          (link_tasks-Chained rounds (i + 1) (c i) (write m prev (with_next (c i) (m prev)))
            (omega arith) (c-not_null i (omega arith))
            (λ j h l. ground (arith, c-apart i j (omega arith) (omega arith))))
          λ m' chained. record {
            first = λ h. ap next_of (
                chained.off prev (λ l. apart i (omega arith) (omega arith))
                  (λ j l l'. apart j (omega arith) (omega arith))
                ∙ write-at m prev _);
            links = λ j h l. elim (dec_le j i) [
              | yes le ↦
                  let same : i ≡ j = omega arith in rw (sym same) (chained.first (omega arith))
              | no gt ↦ chained.links j (omega (arith, gt)) l
            ];
            off = λ a o p.
                chained.off a (λ h. p i (omega arith) h) (λ j h l. p j (omega arith) l)
                ∙ write-off m prev a _ (o (omega arith));
          })
    where
      within : ltb i image.nb_tasks ≡ true
      within = ground arith
