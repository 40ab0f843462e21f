-- ===== src/RoundRobin/Started.antt =====
-- The ring behind `scheduler_init` of educrtos/round_robin_scheduler.c: the contexts of the tasks.
use mathlib.Core.Path.{subst}
use rtas2021_artifact.Base.{
  ℕ, zero, suc, ◌≤◌, ◌<◌, ◌^◌, ◌≡◌, refl, ◌≢◌, true, false, List, [], ◌∷◌, arith, has, ◌==◌,
  get_elem?, some, Bool-cases, inl, inr, sym, ap, ◌∙◌, length, Returns, weaken,
}
use rtas2021_artifact.Store.{Ptr, null, next_of}
use rtas2021_artifact.Image.{Image, TaskDescription, reserve_at}
use rtas2021_artifact.Image.Tasks.{HasTasks, some-inj}
use rtas2021_artifact.Kernel.{Kernel}
use rtas2021_artifact.RoundRobin.{init}
use rtas2021_artifact.RoundRobin.Ring.{IsClosed, IsRing}
use rtas2021_artifact.RoundRobin.Links.{context_of, task_of}
use rtas2021_artifact.RoundRobin.Turns.{IsTurn, behind, behind_within, init-IsTurn}

abbrev contexts : List TaskDescription → List Ptr
contexts [] = []
contexts (t ∷ ts) = t.context ∷ contexts ts

has-contexts :
    (ts : List TaskDescription) (i : ℕ) (t : TaskDescription)
    → get_elem? ts i ≡ some t
    → has t.context (contexts ts) ≡ true
has-contexts [] i t e = absurd (ground arith)
has-contexts (u ∷ ts) zero t e = ground (arith, ap (λ d. d.context) (some-inj u t e))
has-contexts (u ∷ ts) (suc i) t e = ground (arith, has-contexts ts i t e)

-- An address among them is the context of a task.
contexts-has :
    (ts : List TaskDescription) (a : Ptr)
    → has a (contexts ts) ≡ true
    → (i : ℕ) × (t : TaskDescription) × (i < length ts)
      × (get_elem? ts i ≡ some t)
      × (t.context ≡ a)
contexts-has [] a h = absurd (ground arith)
contexts-has (u ∷ ts) a h = elim (Bool-cases (a == u.context)) [
  | inl at ↦ (zero, u, omega arith, refl, ground arith)
  | inr off ↦
      let (i, t, within, at, is) = contexts-has ts a (ground arith) in
      (suc i, t, omega arith, at, is)
]

module _ (image : Image) (tasks : HasTasks image) where
  own : (i : ℕ) → i < image.nb_tasks → has (context_of image i) (contexts image.tasks) ≡ true
  own i h =
      let (t, at, read, is) = task_of image tasks i h in
      ap (λ a. has a (contexts image.tasks)) is ∙ has-contexts image.tasks i t at

  -- The links of the contexts lead to one another.
  turn-IsClosed : (k : Kernel) → IsTurn image tasks 0 k → IsClosed k.mem (contexts image.tasks)
  turn-IsClosed k turn a among =
      let (i, t, short, at, is) = contexts-has image.tasks a among in
      let within : i < image.nb_tasks = omega (arith, tasks.count) in
      let (t', at', read, is') = task_of image tasks i within in
      let same : context_of image i ≡ a =
        is' ∙ ap (λ d. d.context) (some-inj t' t (sym at' ∙ at)) ∙ is in
      subst
        (λ b. (b ≢ null) × (b < 2 ^ 32) × (has (next_of (k.mem b)) (contexts image.tasks) ≡ true))
        same
        (
          λ z. tasks.not_null i t' at' (sym is' ∙ z),
          omega (arith, is', tasks.address i t' at'),
          ap (λ n. has n (contexts image.tasks)) (turn.round i within)
              ∙ own (behind image tasks i) (behind_within image tasks i within),
        )

  reserve_at-fresh : (j : ℕ) → j < 10 → has (reserve_at image j) (contexts image.tasks) ≡ false
  reserve_at-fresh j h = elim (Bool-cases (has (reserve_at image j) (contexts image.tasks))) [
    | inl among ↦
        let (i, t, short, at, is) = contexts-has image.tasks (reserve_at image j) among in
        absurd (ground (arith, tasks.not_reserve i j t at h, is))
    | inr off ↦ off
  ]

  -- `scheduler_init` returns with the contexts of the tasks as the ring.
  pub init-IsRing :
      (k : Kernel)
      → k.idx_reserve ≤ 10
      → Returns (λ k'. IsRing image k' × (k'.screen ≡ k.screen)) (init image k)
  init-IsRing k few = weaken (init-IsTurn image tasks k) λ k' (turn, kept).
      let left = ap (λ j. j.idx_reserve) kept in
      (
        record {
          members = contexts image.tasks;
          closed = turn-IsClosed k' turn;
          here = ap (λ a. has a (contexts image.tasks)) turn.here ∙ own 0 turn.within;
          few = omega (arith, left);
          fresh = λ i h. reserve_at-fresh i (omega (arith, left));
        },
        ap (λ j. j.screen) kept,
      )
