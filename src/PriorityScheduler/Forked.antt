-- ===== src/PriorityScheduler/Forked.antt =====
-- `sched_insert_duplicated_context` (educrtos/priority_scheduler.c): a copy of the running context
-- becomes ready.
use mathlib.Core.Path.{subst}
use rtas2021_artifact.Base.{
  ℕ, ◌-◌, ◌<◌, ◌≡◌, ◌≢◌, false, ◌||◌, arith, has, ◌==◌, Bool-cases, inl, inr, sym, ap, ◌∙◌, Returns,
  weaken,
}
use rtas2021_artifact.Store.{Ptr, null, Context, Store, write, SameButNext}
use rtas2021_artifact.Store.Write.{write-at, write-off}
use rtas2021_artifact.Queue.Sorted.{
  gt_refl, NoneAbove, NoneAbove-insert_by, insert_by, has-insert_by, length-insert_by,
}
use rtas2021_artifact.Image.{Image, reserve_at}
use rtas2021_artifact.Image.Reserve.{reserve_at-not_null, reserve_at-address, reserve_at-distinct}
use rtas2021_artifact.Kernel.{Kernel, context_is_idle}
use rtas2021_artifact.PriorityScheduler.{Policy, ready, insert_duplicated_context}
use rtas2021_artifact.PriorityScheduler.Queues.{
  IsImage, Queues, Requeued, key, key-same, insert_ready-Queues,
}
use rtas2021_artifact.PriorityScheduler.Members.{NoneAbove-frame, Queues-other, write-other}
use rtas2021_artifact.PriorityScheduler.Kept.{ready_priority-sched}
use rtas2021_artifact.PriorityScheduler.States.{Governs}
use rtas2021_artifact.Contract.{spare, duplicated}

module _ (image : Image) (policy : Policy) (ok_image : IsImage image) (p : Ptr) (k : Kernel)
    (c : Context) (more : k.idx_reserve ≢ 0) (g : Governs image policy p k) where
  abbrev child : Ptr
  child = spare image k

  abbrev copied : Store
  copied = write k.mem child c

  abbrev keys : Ptr → ℕ
  keys = key (ready policy) copied

  pub child-not_null : child ≢ null
  child-not_null = reserve_at-not_null image (k.idx_reserve - 1) ok_image.reserve

  pub child-other : (child == p) ≡ false
  child-other = g.held.no_spare (k.idx_reserve - 1) (omega arith)

  p-other : (p == child) ≡ false
  p-other = ground (arith, child-other)

  child-fresh : (has child g.held.rs || has child g.held.ws) ≡ false
  child-fresh = g.held.tasks.fresh (k.idx_reserve - 1) (omega arith)

  fresh_r : has child g.held.rs ≡ false
  fresh_r = ground (arith, child-fresh)

  fresh_w : has child g.held.ws ≡ false
  fresh_w = ground (arith, child-fresh)

  duplicated-Queues : Queues image policy (duplicated image c k) g.held.rs g.held.ws
  duplicated-Queues =
      let q =
        Queues-other image policy k child c g.held.rs g.held.ws fresh_r fresh_w g.held.queues in
      record {
        ready_is = q.ready_is;
        waiting_is = q.waiting_is;
        ready_sorted = q.ready_sorted;
        waiting_sorted = q.waiting_sorted;
        apart = q.apart;
        room = q.room;
      }

  module _ (same : c.sched_context ≡ (k.mem p).sched_context)
      (busy : context_is_idle image p ≡ false) where
    key-p : keys p ≡ key (ready policy) k.mem p
    key-p = ap (ready policy).get_priority (write-off k.mem child p c p-other)

    key-child : keys child ≡ keys p
    key-child =
        ap (ready policy).get_priority (write-at k.mem child c)
        ∙ ready_priority-sched policy c (k.mem p) same
        ∙ sym key-p

    highest : NoneAbove (ready policy) keys (keys p) (insert_by (ready policy) keys child g.held.rs)
    highest =
        NoneAbove-insert_by (ready policy) keys (keys p) child g.held.rs
          (subst (λ b. NoneAbove (ready policy) keys b g.held.rs) (sym key-p)
            (NoneAbove-frame (ready policy) (key (ready policy) k.mem) keys
              (key (ready policy) k.mem p) g.held.rs
              (λ a i.
                ap (ready policy).get_priority
                  (write-other image policy k child c g.held.rs g.held.ws a g.held.rs fresh_r i))
              g.highest))
          (rw key-child (gt_refl (ready policy) (keys p)))

    forked-Governs :
        (k' : Kernel)
        → Queues image policy k' (insert_by (ready policy) keys child g.held.rs) g.held.ws
        → Requeued (duplicated image c k) k'
        → Governs image policy p k'
    unfolding context_is_idle
    forked-Governs k' q r =
        let same_n : k'.idx_reserve ≡ k.idx_reserve - 1 = ap (λ j. j.idx_reserve) r.rest in
        let same_key = key-same (ready policy) copied k'.mem r.kept in
        let inserted = λ (a : Ptr). has-insert_by (ready policy) keys a child g.held.rs in
        let number = length-insert_by (ready policy) keys child g.held.rs in
        let last : k.idx_reserve - 1 < 10 = omega (arith, g.held.tasks.few) in
        record {
          held = record {
            rs = insert_by (ready policy) keys child g.held.rs;
            ws = g.held.ws;
            queues = q;
            tasks = rw same_n (record {
              addresses = λ a i. elim (Bool-cases (a == child)) [
                | inl at ↦
                    let e : a ≡ child = ground arith in
                    rw e (reserve_at-address image (k.idx_reserve - 1) ok_image.reserve last)
                | inr off ↦ g.held.tasks.addresses a (ground (arith, inserted a))
              ];
              no_idle = ground (
                arith,
                g.held.tasks.no_idle,
                ok_image.reserve_idle (k.idx_reserve - 1) last,
                inserted image.idle_ctx_array,
              );
              few = omega (arith, g.held.tasks.few);
              fresh = λ i n. ground (
                arith,
                g.held.tasks.fresh i (omega arith),
                reserve_at-distinct image i (k.idx_reserve - 1) ok_image.reserve (omega arith),
                inserted (reserve_at image i),
              );
            });
            not_null = g.held.not_null;
            address = g.held.address;
            outside = ground (arith, g.held.outside, p-other, inserted p);
            no_spare = rw same_n λ i n. g.held.no_spare i (omega arith);
            room = rw same_n (omega (arith, g.held.room, number));
            own_room = rw same_n λ b. omega (arith, g.held.own_room b, number);
          };
          highest = rw same_key highest;
          idle_alone = λ idle. absurd (ground (arith, busy));
        }

    pub insert_duplicated_context-Governs :
        Returns
          (λ k'.
            Governs image policy p k'
            × (k'.screen ≡ k.screen)
            × (k'.idx_reserve ≡ k.idx_reserve - 1)
            × SameButNext copied k'.mem)
          (insert_duplicated_context image policy p child (duplicated image c k))
    unfolding insert_duplicated_context
    insert_duplicated_context-Governs =
        weaken
          (insert_ready-Queues image policy ok_image (duplicated image c k) child g.held.rs
            g.held.ws child-not_null fresh_r fresh_w (omega (arith, g.held.room)) duplicated-Queues)
          λ k' (q, r). (
            forked-Governs k' q r,
            ap (λ j. j.screen) r.rest,
            ap (λ j. j.idx_reserve) r.rest,
            r.kept,
          )
