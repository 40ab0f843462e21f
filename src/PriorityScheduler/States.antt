-- ===== src/PriorityScheduler/States.antt =====
-- What the data of the priority scheduler is like while a context has the processor, and while none
-- has it.
use rtas2021_artifact.Base.{
  ℕ, ◌+◌, ◌≤◌, ◌<◌, ◌^◌, ◌≡◌, ◌≢◌, true, false, ◌||◌, List, [], arith, has, length, ◌==◌,
  Bool-cases, inl, inr, sym, ap, ◌∙◌,
}
use rtas2021_artifact.Store.{Ptr, null, Context, write}
use rtas2021_artifact.Queue.Sorted.{NoneAbove, insert_by, has-insert_by, length-insert_by}
use rtas2021_artifact.Image.{Image, reserve_at}
use rtas2021_artifact.Kernel.{Kernel, context_is_idle}
use rtas2021_artifact.PriorityScheduler.{Policy, waiting, ready}
use rtas2021_artifact.PriorityScheduler.Queues.{IsImage, Queues, key}
use rtas2021_artifact.PriorityScheduler.Waiting.{Blocked, wakeup}
use rtas2021_artifact.PriorityScheduler.Wake.{Woken, woken, still_waiting}
use rtas2021_artifact.PriorityScheduler.Members.{has-woken, length-woken, Queues-other}
use rtas2021_artifact.PriorityScheduler.Kept.{Queues-kept, ready-key-kept}
use rtas2021_artifact.Contract.{SameSchedule}

-- The contexts of two lists are addresses of 32 bits; none of them is the idle context or one of the
-- first `n` contexts in reserve.
pub record AreTasks (image : Image) (n : ℕ) (rs ws : List Ptr) : Type 0 where
  pub addresses : (a : Ptr) → (has a rs || has a ws) ≡ true → a < 2 ^ 32
  pub no_idle : (has image.idle_ctx_array rs || has image.idle_ctx_array ws) ≡ false
  pub few : n ≤ 10
  pub fresh : (i : ℕ) → i < n → (has (reserve_at image i) rs || has (reserve_at image i) ws) ≡ false

module _ (image : Image) (policy : Policy) where
  -- No context has the processor: all but those in reserve are in the queues, which have room for
  -- these.
  pub record AllQueued (k : Kernel) : Type 0 where
    pub rs : List Ptr
    pub ws : List Ptr
    pub queues : Queues image policy k rs ws
    pub tasks : AreTasks image k.idx_reserve rs ws
    pub room : length rs + length ws + k.idx_reserve ≤ image.nb_contexts

  -- `p` has the processor: it is in neither queue and not in reserve, and unless it is the idle
  -- context there is room for it in either queue.
  pub record HasProcessor (p : Ptr) (k : Kernel) : Type 0 where
    pub rs : List Ptr
    pub ws : List Ptr
    pub queues : Queues image policy k rs ws
    pub tasks : AreTasks image k.idx_reserve rs ws
    pub not_null : p ≢ null
    pub address : p < 2 ^ 32
    pub outside : (has p rs || has p ws) ≡ false
    pub no_spare : (i : ℕ) → i < k.idx_reserve → (reserve_at image i == p) ≡ false
    pub room : length rs + length ws + k.idx_reserve ≤ image.nb_contexts
    pub own_room :
        context_is_idle image p ≡ false → length rs + length ws + k.idx_reserve < image.nb_contexts

  -- `p` deserves the processor: no ready context has a higher priority, and if `p` is the idle context
  -- none is ready.
  pub record Governs (p : Ptr) (k : Kernel) : Type 0 where
    pub held : HasProcessor p k
    pub highest :
        NoneAbove (ready policy) (key (ready policy) k.mem) (key (ready policy) k.mem p) held.rs
    pub idle_alone : context_is_idle image p ≡ true → held.rs ≡ []

  pub Governs-stable : (p : Ptr) (k k' : Kernel) → SameSchedule k k' → Governs p k → Governs p k'
  Governs-stable p k k' same g = record {
    held = record {
      rs = g.held.rs;
      ws = g.held.ws;
      queues = record {
        ready_is = rw (same.mem, same.ready_heap) g.held.queues.ready_is;
        waiting_is = rw (same.mem, same.waiting_heap) g.held.queues.waiting_is;
        ready_sorted = rw same.mem g.held.queues.ready_sorted;
        waiting_sorted = rw same.mem g.held.queues.waiting_sorted;
        apart = g.held.queues.apart;
        room = g.held.queues.room;
      };
      tasks = rw same.idx_reserve g.held.tasks;
      not_null = g.held.not_null;
      address = g.held.address;
      outside = g.held.outside;
      no_spare = rw same.idx_reserve g.held.no_spare;
      room = rw same.idx_reserve g.held.room;
      own_room = rw same.idx_reserve g.held.own_room;
    };
    highest = rw same.mem g.highest;
    idle_alone = g.idle_alone;
  }

  -- A context whose part for the scheduler stays the same is written.
  pub Governs-kept :
      (p a : Ptr) (k : Kernel) (c : Context)
      → c.sched_context ≡ (k.mem a).sched_context
      → Governs p k
      → Governs p (record k { mem = write k.mem a c })
  Governs-kept p a k c same g = record {
    held = record {
      rs = g.held.rs;
      ws = g.held.ws;
      queues = Queues-kept image policy k a c g.held.rs g.held.ws same g.held.queues;
      tasks = g.held.tasks;
      not_null = g.held.not_null;
      address = g.held.address;
      outside = g.held.outside;
      no_spare = g.held.no_spare;
      room = g.held.room;
      own_room = g.held.own_room;
    };
    highest = rw (ready-key-kept k.mem a c same policy) g.highest;
    idle_alone = g.idle_alone;
  }

  -- The context that has the processor is written.
  pub HasProcessor-dated :
      (p : Ptr) (k : Kernel) (c : Context)
      → HasProcessor p k
      → HasProcessor p (record k { mem = write k.mem p c })
  HasProcessor-dated p k c h = record {
    rs = h.rs;
    ws = h.ws;
    queues =
        Queues-other image policy k p c h.rs h.ws (ground (arith, h.outside))
          (ground (arith, h.outside)) h.queues;
    tasks = h.tasks;
    not_null = h.not_null;
    address = h.address;
    outside = h.outside;
    no_spare = h.no_spare;
    room = h.room;
    own_room = h.own_room;
  }

  module _ (ok_image : IsImage image) (p : Ptr) (k : Kernel) where
    pub Woken-HasProcessor :
        (t : ℕ) (h : HasProcessor p k) (k' : Kernel)
        → Woken image policy ok_image k t h.rs h.ws k'
        → HasProcessor p k'
    Woken-HasProcessor t h k' w =
        let members =
          λ (a : Ptr). has-woken policy (key (ready policy) k.mem) (wakeup k.mem) t a h.rs h.ws in
        let number = length-woken policy (key (ready policy) k.mem) (wakeup k.mem) t h.rs h.ws in
        let same : k'.idx_reserve ≡ k.idx_reserve = ap (λ j. j.idx_reserve) w.requeued.rest in
        record {
          rs = woken policy (key (ready policy) k.mem) (wakeup k.mem) t h.rs h.ws;
          ws = still_waiting policy (key (ready policy) k.mem) (wakeup k.mem) t h.ws;
          queues = w.queues;
          tasks = rw same (record {
            addresses = λ a i. h.tasks.addresses a (sym (members a) ∙ i);
            no_idle = members image.idle_ctx_array ∙ h.tasks.no_idle;
            few = h.tasks.few;
            fresh = λ i b. members (reserve_at image i) ∙ h.tasks.fresh i b;
          });
          not_null = h.not_null;
          address = h.address;
          outside = members p ∙ h.outside;
          no_spare = rw same h.no_spare;
          room = rw same (omega (arith, h.room, number));
          own_room = rw same λ busy. omega (arith, h.own_room busy, number);
        }

    pub Blocked-AllQueued :
        (h : HasProcessor p k) (k' : Kernel)
        → context_is_idle image p ≡ false
        → Blocked image policy k p h.rs h.ws k'
        → AllQueued k'
    unfolding context_is_idle
    Blocked-AllQueued h k' busy b =
        let inserted = λ (a : Ptr). has-insert_by waiting (key waiting k.mem) a p h.ws in
        let same : k'.idx_reserve ≡ k.idx_reserve = ap (λ j. j.idx_reserve) b.rest in
        record {
          rs = h.rs;
          ws = insert_by waiting (key waiting k.mem) p h.ws;
          queues = b.queues;
          tasks = rw same (record {
            addresses = λ a i. elim (Bool-cases (a == p)) [
              | inl at ↦ let e : a ≡ p = ground arith in rw e h.address
              | inr off ↦ h.tasks.addresses a (ground (arith, inserted a))
            ];
            no_idle = ground (arith, h.tasks.no_idle, inserted image.idle_ctx_array);
            few = h.tasks.few;
            fresh = λ i n.
                ground (arith, h.tasks.fresh i n, h.no_spare i n, inserted (reserve_at image i));
          });
          room =
              rw same (
                omega
                  (arith, h.own_room busy, length-insert_by waiting (key waiting k.mem) p h.ws));
        }
