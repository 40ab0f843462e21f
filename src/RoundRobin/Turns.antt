-- ===== src/RoundRobin/Turns.antt =====
-- `scheduler_init` of educrtos/round_robin_scheduler.c, and the turns that the tasks take behind it.
use rtas2021_artifact.Base.{
  ℕ, zero, suc, ◌+◌, ◌-◌, ◌≤◌, ◌<◌, ◌≡◌, refl, true, List, [], ◌∷◌, arith, ◌==◌, if◌then◌else◌, ◌⊎◌,
  has, length, Bool-cases, inl, inr, sym, ap, ◌∙◌, Run, ok, ◌>>=◌, Returns, returns, weaken, bind,
}
use native.Mathlib.Decide.{dec_le}
use rtas2021_artifact.Store.{Ptr, next_of}
use rtas2021_artifact.Queue.Chain.{load-ok}
use rtas2021_artifact.Image.{Image}
use rtas2021_artifact.Image.Tasks.{HasTasks}
use rtas2021_artifact.Kernel.{Kernel}
use rtas2021_artifact.RoundRobin.{init, choose_next}
use rtas2021_artifact.RoundRobin.Links.{
  context_of, task_of, c-not_null, c-apart, link_tasks-Chained,
}

module _ (image : Image) (tasks : HasTasks image) where
  abbrev c : ℕ → Ptr
  c = context_of image

  -- The task behind `i` in the ring.
  abbrev pub behind : ℕ → ℕ
  behind i = if i + 1 == image.nb_tasks then 0 else i + 1

  pub behind_within : (i : ℕ) → i < image.nb_tasks → behind i < image.nb_tasks
  behind_within i h = ground (arith, tasks.some_task)

  -- It is the turn of the task `i`, and the links lead from task to task, and from the last to the
  -- first.
  pub record IsTurn (i : ℕ) (k : Kernel) : Type 0 where
    pub within : i < image.nb_tasks
    pub here : k.current ≡ c i
    pub round : (j : ℕ) → j < image.nb_tasks → next_of (k.mem (c j)) ≡ c (behind j)

  pub init-IsTurn :
      (k : Kernel)
      → Returns
          (λ k'. IsTurn 0 k' × (k' ≡ record k { mem = k'.mem; current = k'.current }))
          (init image k)
  unfolding init
  init-IsTurn k =
      let some = tasks.some_task in
      let last = image.nb_tasks - 1 in
      let (t, at, read, is) = task_of image tasks last (omega arith) in
      let (t', at', read', is') = task_of image tasks 0 some in
      rw (read, read')
        (bind
          (link_tasks-Chained image tasks image.nb_tasks 0 t.context k.mem (omega arith)
            (tasks.not_null last t at)
            (λ j h l. ground (arith, c-apart image tasks j last (omega arith) (omega arith), is)))
          λ m chained. returns (
            record {
              within = some;
              here = sym is';
              round = λ j h. elim (Bool-cases (j + 1 == image.nb_tasks)) [
                | inl at_end ↦
                    let e : last ≡ j = ground arith in
                    rw at_end (ap (λ a. next_of (m a)) (sym (ap c e) ∙ is) ∙ chained.first some)
                | inr more ↦ rw more (chained.links j (omega arith) (ground arith))
              ];
            },
            refl,
          ))

  -- The turn passes to the task behind.
  pub choose_next-IsTurn :
      (i : ℕ) (k : Kernel)
      → IsTurn i k
      → Returns
          (λ (q, k'). (q ≡ c (behind i)) × IsTurn (behind i) k' × (k'.screen ≡ k.screen))
          (choose_next k)
  unfolding choose_next
  choose_next-IsTurn i k turn =
      let n = c-not_null image tasks i turn.within in
      let to : next_of (k.mem k.current) ≡ c (behind i) =
        ap (λ a. next_of (k.mem a)) turn.here ∙ turn.round i turn.within in
      rw (load-ok k.current k.mem (λ e. n (sym turn.here ∙ e))) (
        returns (
          to,
          record { within = behind_within i turn.within; here = to; round = turn.round },
          refl,
        ))

  -- The scheduler chooses `n` times in a row.
  unfoldable pub turns : ℕ → Kernel → Run (List Ptr × Kernel)
  turns zero k = ok ([], k)
  turns (suc n) k = do (q, k') ← choose_next k; (qs, k'') ← turns n k'; ok (q ∷ qs, k'')

  abbrev pub ahead : ℕ → ℕ → List Ptr
  ahead zero i = []
  ahead (suc n) i = c (behind i) ∷ ahead n (behind i)

  length-ahead : (n i : ℕ) → length (ahead n i) ≡ n
  length-ahead zero i = refl
  length-ahead (suc n) i = ap suc (length-ahead n (behind i))

  turns-ahead :
      (n i : ℕ) (k : Kernel) → IsTurn i k → Returns (λ (qs, k'). qs ≡ ahead n i) (turns n k)
  unfolding turns
  turns-ahead zero i k turn = returns refl
  turns-ahead (suc n) i k turn = bind (choose_next-IsTurn i k turn) λ (q, k') (e, turn', same).
      bind (turns-ahead n (behind i) k' turn')
        λ (qs, k'') e'. returns (ap (λ x. x ∷ qs) e ∙ ap (λ xs. c (behind i) ∷ xs) e')

  one_behind :
      (i j d : ℕ)
      → i < image.nb_tasks
      → j < image.nb_tasks
      → 0 < d
      → (i + d ≡ j) ⊎ (i + d ≡ image.nb_tasks + j)
      → (behind i + (d - 1) ≡ j) ⊎ (behind i + (d - 1) ≡ image.nb_tasks + j)
  one_behind i j d hi hj pos way = elim (Bool-cases (i + 1 == image.nb_tasks)) [
    | inl at_end ↦ rw at_end (inl (ground (arith, hi, hj)))
    | inr more ↦
        rw more (elim way [ inl near ↦ inl (omega arith) | inr beyond ↦ inr (omega arith) ])
  ]

  -- The task that is `d` tasks ahead, on this side of the last one or beyond it.
  has-ahead :
      (n i j d : ℕ)
      → i < image.nb_tasks
      → j < image.nb_tasks
      → 0 < d
      → d ≤ n
      → (i + d ≡ j) ⊎ (i + d ≡ image.nb_tasks + j)
      → has (c j) (ahead n i) ≡ true
  has-ahead zero i j d hi hj pos le way = absurd (omega arith)
  has-ahead (suc n) i j d hi hj pos le way = elim (Bool-cases (behind i == j)) [
    | inl there ↦ let e : c (behind i) ≡ c j = ap c (ground arith) in ground (arith, e)
    | inr further ↦
        let rest =
          has-ahead n (behind i) j (d - 1) (behind_within i hi) hj (ground (arith, hi))
            (omega arith) (one_behind i j d hi hj pos way) in
        ground (arith, rest)
  ]

  -- As many contexts as there are tasks, and among them that of each task.
  abbrev pub IsFair : List Ptr → Type 0
  IsFair qs = (length qs ≡ image.nb_tasks) × ((j : ℕ) → j < image.nb_tasks → has (c j) qs ≡ true)

  -- From any turn of a round, as many choices as there are tasks give the processor to each of them.
  turns-all :
      (i : ℕ) (k : Kernel) → IsTurn i k → Returns (λ (qs, k'). IsFair qs) (turns image.nb_tasks k)
  turns-all i k turn = weaken (turns-ahead image.nb_tasks i k turn) λ (qs, k') e. (
    ap length e ∙ length-ahead image.nb_tasks i,
    λ j h. rw e (elim (dec_le j i) [
      | yes le ↦
          has-ahead image.nb_tasks i j (image.nb_tasks + j - i) turn.within h (omega arith)
            (omega (arith, le)) (inr (omega arith))
      | no gt ↦
          has-ahead image.nb_tasks i j (j - i) turn.within h (omega (arith, gt)) (omega arith)
            (inl (omega (arith, gt)))
    ]),
  )

  -- With the round-robin scheduler and tasks that have contexts of their own, `scheduler_init` returns,
  -- and so do as many choices of the next context as there are tasks, made in a row behind it; the
  -- context of each task is among those chosen.
  pub init-turns :
      (k : Kernel) → Returns (λ (qs, k'). IsFair qs) (init image k >>= turns image.nb_tasks)
  init-turns k = bind (init-IsTurn k) λ k' (turn, kept). turns-all 0 k' turn
