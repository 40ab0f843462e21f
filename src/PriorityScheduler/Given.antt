-- ===== src/PriorityScheduler/Given.antt =====
-- Who has the processor behind `sched_choose_next` and `sched_maybe_preempt`
-- (educrtos/priority_scheduler.c).
use mathlib.Core.Path.{subst}
use rtas2021_artifact.Base.{
  sym, ap, ◌∙◌, ℕ, ◌+◌, ◌≤◌, ◌<◌, ◌≡◌, refl, false, ◌||◌, List, [], ◌∷◌, arith, has, length, ◌==◌,
  Bool-cases, inl, inr,
}
use rtas2021_artifact.Store.{Ptr}
use rtas2021_artifact.Queue.Sorted.{NoneAbove, insert_by, has-insert_by, length-insert_by}
use rtas2021_artifact.Image.{Image, reserve_at}
use rtas2021_artifact.Kernel.{Kernel, context_is_idle, context_idle}
use rtas2021_artifact.PriorityScheduler.{Policy, ready}
use rtas2021_artifact.PriorityScheduler.Queues.{IsImage, Queues, key}
use rtas2021_artifact.PriorityScheduler.Choose.{first_or, others, runs, stays_ready, gives_way}
use rtas2021_artifact.PriorityScheduler.States.{AreTasks, HasProcessor, Governs}

module _ (image : Image) (policy : Policy) (k k' : Kernel) (same_n : k'.idx_reserve ≡ k.idx_reserve)
    (same_key : key (ready policy) k'.mem ≡ key (ready policy) k.mem) where
  abbrev keys : Ptr → ℕ
  keys = key (ready policy) k.mem

  -- A member of the queues is not the idle context.
  busy_member :
      (x : Ptr) (xs ws : List Ptr)
      → AreTasks image k.idx_reserve (x ∷ xs) ws
      → context_is_idle image x ≡ false
  unfolding context_is_idle
  busy_member x xs ws t = ground (arith, t.no_idle)

  -- The first of the ready contexts gets the processor.
  first-Governs :
      (x : Ptr) (xs ws : List Ptr)
      → Queues image policy k (x ∷ xs) ws
      → AreTasks image k.idx_reserve (x ∷ xs) ws
      → length (x ∷ xs) + length ws + k.idx_reserve ≤ image.nb_contexts
      → Queues image policy k' xs ws
      → NoneAbove (ready policy) keys (keys x) xs
      → Governs image policy x k'
  unfolding context_is_idle
  first-Governs x xs ws q t room q' high = record {
    held = record {
      rs = xs;
      ws = ws;
      queues = q';
      tasks = rw same_n (record {
        addresses = λ a i. t.addresses a (ground arith);
        no_idle = ground (arith, t.no_idle);
        few = t.few;
        fresh = λ i n. ground (arith, t.fresh i n);
      });
      not_null = q.ready_is.chain.1;
      address = t.addresses x (ground arith);
      outside = ground (arith, q.ready_is.chain.2, q.apart x);
      no_spare = rw same_n λ i n. ground (arith, t.fresh i n);
      room = rw same_n (omega (arith, room));
      own_room = rw same_n λ busy. omega (arith, room);
    };
    highest = rw same_key high;
    idle_alone = λ idle. absurd (ground (arith, t.no_idle));
  }

  module _ (ok_image : IsImage image) (ws : List Ptr) where
    idle-Governs :
        Queues image policy k' [] ws
        → AreTasks image k.idx_reserve [] ws
        → length ws + k.idx_reserve ≤ image.nb_contexts
        → Governs image policy (context_idle image) k'
    unfolding context_is_idle context_idle
    idle-Governs q t room = record {
      held = record {
        rs = [];
        ws = ws;
        queues = q;
        tasks = rw same_n t;
        not_null = ok_image.idle;
        address = ok_image.idle_address;
        outside = t.no_idle;
        no_spare = rw same_n λ i n. ok_image.reserve_idle i (omega (arith, t.few));
        room = rw same_n (omega (arith, room));
        own_room = λ busy. absurd (ground arith);
      };
      highest = tt;
      idle_alone = λ idle. refl;
    }

    -- The first of the ready contexts, or the idle context if there is none.
    pub chosen-Governs :
        (rs : List Ptr)
        → Queues image policy k rs ws
        → AreTasks image k.idx_reserve rs ws
        → length rs + length ws + k.idx_reserve ≤ image.nb_contexts
        → Queues image policy k' (others rs) ws
        → NoneAbove (ready policy) keys (keys (first_or (context_idle image) rs)) (others rs)
        → Governs image policy (first_or (context_idle image) rs) k'
    chosen-Governs [] q t room q' high = idle-Governs q' t (omega (arith, room))
    chosen-Governs (x ∷ xs) q t room q' high = first-Governs x xs ws q t room q' high

  -- The state of the context `p` that has the processor, before.
  module _ (p : Ptr) (h : HasProcessor image policy p k)
      (busy : context_is_idle image p ≡ false) where
    stays-Governs :
        (rs : List Ptr)
        → h.rs ≡ rs
        → Queues image policy k' rs h.ws
        → NoneAbove (ready policy) keys (keys p) rs
        → Governs image policy p k'
    stays-Governs rs e q' high = record {
      held = record {
        rs = rs;
        ws = h.ws;
        queues = q';
        tasks = rw same_n (subst (λ l. AreTasks image k.idx_reserve l h.ws) e h.tasks);
        not_null = h.not_null;
        address = h.address;
        outside = ap (λ l. has p l || has p h.ws) (sym e) ∙ h.outside;
        no_spare = rw same_n h.no_spare;
        room =
            rw same_n
              (subst (λ l. length l + length h.ws + k.idx_reserve ≤ image.nb_contexts) e h.room);
        own_room = rw same_n λ b.
            subst (λ l. length l + length h.ws + k.idx_reserve < image.nb_contexts) e
              (h.own_room b);
      };
      highest = rw same_key high;
      idle_alone = λ idle. absurd (ground (arith, busy));
    }

    swapped-Governs :
        (x : Ptr) (xs : List Ptr)
        → h.rs ≡ x ∷ xs
        → Queues image policy k' (insert_by (ready policy) keys p xs) h.ws
        → NoneAbove (ready policy) keys (keys x) (insert_by (ready policy) keys p xs)
        → Governs image policy x k'
    unfolding context_is_idle
    swapped-Governs x xs e q' high =
        let q = subst (λ l. Queues image policy k l h.ws) e h.queues in
        let t = subst (λ l. AreTasks image k.idx_reserve l h.ws) e h.tasks in
        let out : (has p (x ∷ xs) || has p h.ws) ≡ false =
          ap (λ l. has p l || has p h.ws) (sym e) ∙ h.outside in
        let room : length (x ∷ xs) + length h.ws + k.idx_reserve < image.nb_contexts =
          subst (λ l. length l + length h.ws + k.idx_reserve < image.nb_contexts) e
            (h.own_room busy) in
        let inserted = λ (a : Ptr). has-insert_by (ready policy) keys a p xs in
        let number = length-insert_by (ready policy) keys p xs in
        record {
          held = record {
            rs = insert_by (ready policy) keys p xs;
            ws = h.ws;
            queues = q';
            tasks = rw same_n (record {
              addresses = λ a i. elim (Bool-cases (a == p)) [
                | inl at ↦ let b : a ≡ p = ground arith in rw b h.address
                | inr off ↦ t.addresses a (ground (arith, inserted a))
              ];
              no_idle = ground (arith, t.no_idle, busy, inserted image.idle_ctx_array);
              few = t.few;
              fresh =
                  λ i n. ground (arith, t.fresh i n, h.no_spare i n, inserted (reserve_at image i));
            });
            not_null = q.ready_is.chain.1;
            address = t.addresses x (ground arith);
            outside = ground (arith, q.ready_is.chain.2, q.apart x, inserted x, out);
            no_spare = rw same_n λ i n. ground (arith, t.fresh i n);
            room = rw same_n (omega (arith, room, number));
            own_room = rw same_n λ b. omega (arith, room, number);
          };
          highest = rw same_key high;
          idle_alone = λ idle. absurd (ground (arith, t.no_idle));
        }

    -- A task that is not preempted keeps the processor; one that is goes to the ready queue.
    pub preempted-Governs :
        (rs : List Ptr)
        → h.rs ≡ rs
        → Queues image policy k' (stays_ready policy keys p rs) h.ws
        → NoneAbove
            (ready policy)
            keys
            (keys (runs policy keys p rs))
            (stays_ready policy keys p rs)
        → Governs image policy (runs policy keys p rs) k'
    preempted-Governs [] e q' high = stays-Governs [] e q' high
    preempted-Governs (x ∷ xs) e q' high = elim (Bool-cases (gives_way policy keys p (x ∷ xs))) [
      | inl higher ↦ rw higher (swapped-Governs x xs e (rw higher at q') (rw higher at high))
      | inr lower ↦ rw lower (stays-Governs (x ∷ xs) e (rw lower at q') (rw lower at high))
    ]
