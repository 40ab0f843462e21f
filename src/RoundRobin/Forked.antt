-- ===== src/RoundRobin/Forked.antt =====
-- A new context in the ring (sched_insert_duplicated_context of
-- educrtos/round_robin_scheduler.c).
use mathlib.Core.Path.{subst}
use rtas2021_artifact.Base.{
  ◌-◌, ◌<◌, ◌^◌, ◌≡◌, refl, ◌≢◌, true, false, ◌∷◌, arith, has, ◌==◌, Bool-cases, inl, inr, sym, ap,
  ◌∙◌, Returns, returns,
}
use rtas2021_artifact.Store.{Ptr, null, Context, Store, next_of, with_next, write, SameButNext}
use rtas2021_artifact.Store.Write.{write-at, write-off}
use rtas2021_artifact.Queue.Chain.{load-ok, set_next-ok, SameButNext-write}
use rtas2021_artifact.Image.{Image}
use rtas2021_artifact.Image.Reserve.{
  HasReserve, reserve_at-not_null, reserve_at-address, reserve_at-distinct,
}
use rtas2021_artifact.Kernel.{Kernel}
use rtas2021_artifact.RoundRobin.{insert_duplicated_context}
use rtas2021_artifact.Contract.{spare, duplicated}
use rtas2021_artifact.RoundRobin.Ring.{IsClosed, InRing}

module _ (image : Image) (reserve : HasReserve image) (p : Ptr) (k : Kernel) (c : Context)
    (more : k.idx_reserve ≢ 0) (h : InRing image p k) where
  abbrev child : Ptr
  child = spare image k

  abbrev copied : Store
  copied = write k.mem child c

  pub child-not_null : child ≢ null
  child-not_null = reserve_at-not_null image (k.idx_reserve - 1) reserve

  child-fresh : has child h.ring.members ≡ false
  child-fresh = h.ring.fresh (k.idx_reserve - 1) (omega arith)

  pub child-other : (child == p) ≡ false
  child-other = elim (Bool-cases (child == p)) [
    | inl at ↦
        let e : child ≡ p = ground arith in
        absurd (ground (arith, ap (λ b. has b h.ring.members) e, child-fresh, h.among))
    | inr off ↦ off
  ]

  -- The copy is linked behind its original and leads to where that led.
  linked-InRing :
      c.sched_context ≡ (k.mem p).sched_context
      → InRing image p
          (record (duplicated image c k) { mem = write copied p (with_next child (copied p)) })
  linked-InRing same = record {
    ring = record {
      members = child ∷ h.ring.members;
      closed = closed;
      here = ground (arith, h.ring.here);
      few = omega (arith, h.ring.few);
      fresh = λ i n. ground (
        arith,
        h.ring.fresh i (omega arith),
        reserve_at-distinct image i (k.idx_reserve - 1) reserve (omega arith),
      );
    };
    among = ground (arith, h.among);
  }
    where
      m' : Store
      m' = write copied p (with_next child (copied p))

      last : k.idx_reserve - 1 < 10
      last = omega (arith, h.ring.few)

      after_child : next_of (m' child) ≡ next_of (k.mem p)
      after_child =
          ap next_of (write-off copied p child _ child-other ∙ write-at k.mem child c)
          ∙ ap (λ s. s.next) same

      after_p : next_of (m' p) ≡ child
      after_p = ap next_of (write-at copied p (with_next child (copied p)))

      after :
          (a : Ptr) → (a == child) ≡ false → (a == p) ≡ false → next_of (m' a) ≡ next_of (k.mem a)
      after a off_c off_p =
          ap next_of (write-off copied p a _ off_p ∙ write-off k.mem child a c off_c)

      closed : IsClosed m' (child ∷ h.ring.members)
      closed a i = elim (Bool-cases (a == child)) [
        | inl at ↦
            let e : a ≡ child = ground arith in
            subst
              (λ b.
                (b ≢ null) × (b < 2 ^ 32) × (has (next_of (m' b)) (child ∷ h.ring.members) ≡ true))
              (sym e)
              (
                child-not_null,
                reserve_at-address image (k.idx_reserve - 1) reserve last,
                ap (λ n. has n (child ∷ h.ring.members)) after_child
                    ∙ ground (arith, (h.ring.closed p h.among).2),
              )
        | inr off ↦
            let old : has a h.ring.members ≡ true = ground arith in
            elim (Bool-cases (a == p)) [
              | inl here ↦
                  let e : a ≡ p = ground arith in
                  (
                    (h.ring.closed a old).0,
                    (h.ring.closed a old).1,
                    ap (λ b. has (next_of (m' b)) (child ∷ h.ring.members)) e
                        ∙ ap (λ n. has n (child ∷ h.ring.members)) after_p
                        ∙ ground arith,
                  )
              | inr away ↦ (
                (h.ring.closed a old).0,
                (h.ring.closed a old).1,
                ap (λ n. has n (child ∷ h.ring.members)) (after a off away)
                    ∙ ground (arith, (h.ring.closed a old).2),
              )
            ]
      ]

  pub insert_duplicated_context-InRing :
      c.sched_context ≡ (k.mem p).sched_context
      → Returns
          (λ k'.
            InRing image p k'
            × (k'.screen ≡ k.screen)
            × (k'.idx_reserve ≡ k.idx_reserve - 1)
            × SameButNext copied k'.mem)
          (insert_duplicated_context p child (duplicated image c k))
  unfolding insert_duplicated_context
  insert_duplicated_context-InRing same =
      rw
        (
          load-ok p copied np,
          load-ok child copied child-not_null,
          agree,
          set_next-ok p child copied np,
        )
        (returns (linked-InRing same, refl, refl, SameButNext-write copied p child))
    where
      np : p ≢ null
      np = (h.ring.closed p h.among).0

      apart : (p == child) ≡ false
      apart = ground (arith, child-other)

      both : next_of (copied p) ≡ next_of (copied child)
      both =
          ap next_of (write-off k.mem child p c apart)
          ∙ ap (λ s. s.next) (sym same)
          ∙ ap next_of (sym (write-at k.mem child c))

      agree : (next_of (copied p) == next_of (copied child)) ≡ true
      agree = ground (arith, both)
