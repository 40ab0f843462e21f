-- ===== src/Contract.antt =====
-- What the rest of the kernel needs of a scheduler (educrtos/scheduler.h): the laws of its
-- operations, which both schedulers fill.
use rtas2021_artifact.Base.{ℕ, ◌+◌, ◌-◌, ◌≤◌, ◌<◌, ◌^◌, ◌≡◌, ◌≢◌, true, false, ◌==◌, Returns}
use rtas2021_artifact.Store.{Ptr, null, Context, next_of, write, SameButNext}
use rtas2021_artifact.Image.{Image, reserve_at}
use rtas2021_artifact.Image.Tasks.{HasTasks}
use rtas2021_artifact.Image.Reserve.{HasReserve}
use rtas2021_artifact.Kernel.{Kernel, Scheduler, context_is_idle}

-- The kernels agree on what the schedulers keep, and on the contexts that are in reserve.
pub record SameSchedule (k k' : Kernel) : Type 0 where
  pub mem : k'.mem ≡ k.mem
  pub ready_heap : k'.ready_heap ≡ k.ready_heap
  pub waiting_heap : k'.waiting_heap ≡ k.waiting_heap
  pub current : k'.current ≡ k.current
  pub idx_reserve : k'.idx_reserve ≡ k.idx_reserve

-- The next context that `dup_thread` takes from the reserve.
abbrev pub spare : Image → Kernel → Ptr
spare image k = reserve_at image (k.idx_reserve - 1)

-- The kernel with the context `c` in the place of the spare one, which is taken.
abbrev pub duplicated : Image → Context → Kernel → Kernel
duplicated image c k = record k {
  mem = write k.mem (spare image k) c;
  idx_reserve = k.idx_reserve - 1;
}

-- `Running p k`: the scheduler's data is sound and `p` has the processor by right. `Held p k`: it is
-- sound and `p` has the processor, but another context may deserve it. `Between k`: it is sound, and
-- the context that had the processor was given back.
pub record Contract (image : Image) (s : Scheduler) : Type 1 where
  pub Running : Ptr → Kernel → Type 0
  pub Held : Ptr → Kernel → Type 0
  pub Between : Kernel → Type 0
  pub not_null : (p : Ptr) (k : Kernel) → Running p k → p ≢ null
  pub address : (p : Ptr) (k : Kernel) → Running p k → p < 2 ^ 32
  pub idle_between : (p : Ptr) (k : Kernel) → Held p k → context_is_idle image p ≡ true → Between k
  pub stable : (p : Ptr) (k k' : Kernel) → SameSchedule k k' → Running p k → Running p k'
  pub kept :
      (p a : Ptr) (k : Kernel) (c : Context)
      → c.sched_context ≡ (k.mem a).sched_context
      → Running p k
      → Running p (record k { mem = write k.mem a c })
  pub dated :
      (p : Ptr) (k : Kernel) (c : Context)
      → next_of c ≡ next_of (k.mem p)
      → Running p k
      → Held p (record k { mem = write k.mem p c })
  pub waits :
      (p : Ptr) (k : Kernel)
      → context_is_idle image p ≡ false
      → Held p k
      → Returns (λ k'. Between k' × (k'.screen ≡ k.screen)) (s.sched_set_waiting p k)
  pub wakes :
      (p : Ptr) (k : Kernel) (curtime : ℕ)
      → Running p k
      → Returns (λ k'. Held p k' × (k'.screen ≡ k.screen)) (s.sched_wake_tasks curtime k)
  pub preempts :
      (p : Ptr) (k : Kernel)
      → context_is_idle image p ≡ false
      → Held p k
      → Returns (λ (q, k'). Running q k' × (k'.screen ≡ k.screen)) (s.sched_maybe_preempt p k)
  pub chooses :
      (k : Kernel)
      → Between k
      → Returns (λ (q, k'). Running q k' × (k'.screen ≡ k.screen)) (s.sched_choose_next k)
  pub spares :
      (p : Ptr) (k : Kernel)
      → k.idx_reserve ≢ 0
      → Running p k
      → (spare image k ≢ null) × ((spare image k == p) ≡ false)
  pub duplicates :
      (p : Ptr) (k : Kernel) (c : Context)
      → k.idx_reserve ≢ 0
      → context_is_idle image p ≡ false
      → c.sched_context ≡ (k.mem p).sched_context
      → Running p k
      → Returns
          (λ k'.
            Running p k'
            × (k'.screen ≡ k.screen)
            × (k'.idx_reserve ≡ k.idx_reserve - 1)
            × SameButNext (write k.mem (spare image k) c) k'.mem)
          (s.sched_insert_duplicated_context p (spare image k) (duplicated image c k))

-- The contexts in reserve fit into their array, and there are contexts for them and for the tasks.
pub record IsFresh (image : Image) (k : Kernel) : Type 0 where
  pub few : k.idx_reserve ≤ 10
  pub room : image.nb_tasks + k.idx_reserve ≤ image.nb_contexts

-- What `boot` needs of the system description, and of `scheduler_init`: it leads to sound data.
pub record CanStart (image : Image) (s : Scheduler) (c : Contract image s) : Type 0 where
  pub tasks : HasTasks image
  pub reserve : HasReserve image
  pub idle : image.idle_ctx_array ≢ null
  pub starts :
      (k : Kernel)
      → IsFresh image k
      → Returns (λ k'. c.Between k' × (k'.screen ≡ k.screen)) (s.scheduler_init k)
