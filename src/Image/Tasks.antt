-- ===== src/Image/Tasks.antt =====
-- The tasks of a system description (educrtos/system_desc.c) that the kernel can start.
use rtas2021_artifact.Base.{
  ℕ, zero, suc, ◌≤◌, ◌<◌, ◌^◌, ◌≡◌, refl, ◌≢◌, false, List, [], ◌∷◌, arith, length, ◌==◌, get_elem?,
  Option, none, some, ap, ok, fault,
}
use rtas2021_artifact.Store.{null}
use rtas2021_artifact.Image.{Image, TaskDescription, task_at, reserve_at}

-- What the system description gives: as many tasks as it says, at least one, each with a context of
-- its own at an address of 32 bits that is not null, not the idle context's and not in reserve.
pub record HasTasks (image : Image) : Type 0 where
  pub count : length image.tasks ≡ image.nb_tasks
  pub some_task : 0 < image.nb_tasks
  pub enough : image.nb_tasks ≤ image.nb_contexts
  pub not_null : (i : ℕ) (t : TaskDescription) → get_elem? image.tasks i ≡ some t → t.context ≢ null
  pub address :
      (i : ℕ) (t : TaskDescription) → get_elem? image.tasks i ≡ some t → t.context < 2 ^ 32
  pub not_idle :
      (i : ℕ) (t : TaskDescription)
      → get_elem? image.tasks i ≡ some t
      → (image.idle_ctx_array == t.context) ≡ false
  pub not_reserve :
      (i j : ℕ) (t : TaskDescription)
      → get_elem? image.tasks i ≡ some t
      → j < 10
      → (reserve_at image j == t.context) ≡ false
  pub distinct :
      (i j : ℕ) (t u : TaskDescription)
      → i < j
      → get_elem? image.tasks i ≡ some t
      → get_elem? image.tasks j ≡ some u
      → (u.context == t.context) ≡ false

get_elem?-within :
    (ts : List TaskDescription) (i : ℕ)
    → i < length ts
    → (t : TaskDescription) × (get_elem? ts i ≡ some t)
get_elem?-within [] i h = absurd (omega arith)
get_elem?-within (t ∷ ts) zero h = (t, refl)
get_elem?-within (t ∷ ts) (suc i) h = get_elem?-within ts i (omega arith)

description_or : TaskDescription → Option TaskDescription → TaskDescription
description_or t none = t
description_or t (some u) = u

pub some-inj : (t u : TaskDescription) → some t ≡ some u → t ≡ u
unfolding description_or
some-inj t u e = ap (description_or t) e

task_at-some :
    (image : Image) (i : ℕ) (t : TaskDescription)
    → get_elem? image.tasks i ≡ some t
    → task_at image i ≡ ok t
unfolding task_at
task_at-some image i t e = ap (λ o. elim o [ none ↦ fault | some u ↦ ok u ]) e

pub task_at-ok :
    (image : Image) (i : ℕ)
    → HasTasks image
    → i < image.nb_tasks
    → (t : TaskDescription) × (get_elem? image.tasks i ≡ some t) × (task_at image i ≡ ok t)
task_at-ok image i tasks h =
    let (t, e) = get_elem?-within image.tasks i (omega (arith, tasks.count)) in
    (t, e, task_at-some image i t e)
