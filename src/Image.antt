-- ===== src/Image.antt =====
-- What the kernel is built for: `user_tasks_image` (educrtos/user_tasks.h), as
-- educrtos/system_desc.c lays it out.
pub mod Tasks
pub mod Reserve
use rtas2021_artifact.Base.{
  ℕ, ◌+◌, ◌*◌, ◌^◌, List, [], ◌∷◌, length, get_elem?, none, some, Run, ok, fault,
}
use rtas2021_artifact.Store.{Ptr}

pub record TaskDescription : Type 0 where
  pub context : Ptr
  pub start_pc : ℕ
  pub task_begin : ℕ
  pub task_end : ℕ
  pub priority : ℕ

-- `idle_ctx_array` and `reserve` are the addresses of the arrays' first elements; `context_size` is
-- `sizeof(struct context)`, which depends on the scheduler.
pub record Image : Type 0 where
  pub nb_tasks : ℕ
  pub nb_contexts : ℕ
  pub tasks : List TaskDescription
  pub idle_start : ℕ
  pub idle_end : ℕ
  pub idle_ctx_array : Ptr
  pub reserve : Ptr
  pub context_size : ℕ

-- `&user_tasks_image.reserve[i]`.
abbrev pub reserve_at : Image → ℕ → Ptr
reserve_at image i = image.reserve + i * image.context_size

-- `&user_tasks_image.tasks[i]`, read; out of the array it is a fault.
unfoldable pub task_at : Image → ℕ → Run TaskDescription
task_at image i = elim (get_elem? image.tasks i) [ none ↦ fault | some t ↦ ok t ]

abbrev pub dynamic_task_initial_height : ℕ
dynamic_task_initial_height = 3

abbrev pub contexts_per_task : ℕ
contexts_per_task = 2 ^ dynamic_task_initial_height

-- One entry TASK(name, file, priority) of the TASKS macro: where its binary and its contexts are
-- placed (by the assembler and the linker), and its priority.
pub record TaskEntry : Type 0 where
  pub contexts_for : Ptr
  pub begin_at : ℕ
  pub end_at : ℕ
  pub priority : ℕ

unfoldable pub describe_tasks : List TaskEntry → List TaskDescription
describe_tasks [] = []
describe_tasks (e ∷ entries) =
    record {
      context = e.contexts_for;
      start_pc = 0;
      task_begin = e.begin_at;
      task_end = e.end_at;
      priority = e.priority;
    }
    ∷ describe_tasks entries

-- `user_tasks_image` of a list of tasks.
unfoldable pub system_desc :
    List TaskEntry → (idle_begin idle_end idle_ctx_array reserve context_size : ℕ) → Image
unfolding describe_tasks
system_desc entries idle_begin idle_end idle_ctx_array reserve context_size = record {
  nb_tasks = length entries;
  nb_contexts = length entries * contexts_per_task;
  tasks = describe_tasks entries;
  idle_start = idle_begin;
  idle_end = idle_end;
  idle_ctx_array = idle_ctx_array;
  reserve = reserve;
  context_size = context_size;
}
