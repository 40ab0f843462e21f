-- ===== src/RoundRobin/Ring.antt =====
-- The ring of educrtos/round_robin_scheduler.c: a set of contexts that their links do not leave.
use mathlib.Core.Path.{subst}
use rtas2021_artifact.Base.{
  ℕ, ◌≤◌, ◌<◌, ◌^◌, ◌≡◌, refl, ◌≢◌, true, false, List, arith, has, ◌==◌, Bool-cases, inl, inr, sym,
  ap, ◌∙◌, Returns, returns,
}
use rtas2021_artifact.Store.{Ptr, null, Context, Store, next_of, write}
use rtas2021_artifact.Store.Write.{write-at, write-off}
use rtas2021_artifact.Queue.Chain.{load-ok}
use rtas2021_artifact.Image.{Image, reserve_at}
use rtas2021_artifact.Kernel.{Kernel}
use rtas2021_artifact.RoundRobin.{choose_next}
use rtas2021_artifact.Contract.{SameSchedule}

-- The contexts of the list are addresses of 32 bits, not null, and their links stay in the list.
abbrev pub IsClosed : Store → List Ptr → Type 0
IsClosed m xs =
    (a : Ptr) → has a xs ≡ true → (a ≢ null) × (a < 2 ^ 32) × (has (next_of (m a)) xs ≡ true)

module _ (image : Image) where
  -- `current` is in a set of contexts that the links do not leave, and no context in reserve is.
  pub record IsRing (k : Kernel) : Type 0 where
    pub members : List Ptr
    pub closed : IsClosed k.mem members
    pub here : has k.current members ≡ true
    pub few : k.idx_reserve ≤ 10
    pub fresh : (i : ℕ) → i < k.idx_reserve → has (reserve_at image i) members ≡ false

  -- `p` has the processor, and is in that set.
  pub record InRing (p : Ptr) (k : Kernel) : Type 0 where
    pub ring : IsRing k
    pub among : has p ring.members ≡ true

  -- `sched_choose_next` returns the context behind the current one, which becomes the current one; it
  -- changes nothing else.
  pub choose_next-InRing :
      (k : Kernel)
      → IsRing k
      → Returns
          (λ (q, k').
            InRing q k'
            × (q ≡ next_of (k.mem k.current))
            × (k' ≡ record k { current = next_of (k.mem k.current) }))
          (choose_next k)
  unfolding choose_next
  choose_next-InRing k r = rw (load-ok k.current k.mem (r.closed k.current r.here).0) (
      returns (
        record {
          ring = record {
            members = r.members;
            closed = r.closed;
            here = (r.closed k.current r.here).2;
            few = r.few;
            fresh = r.fresh;
          };
          among = (r.closed k.current r.here).2;
        },
        refl,
        refl,
      ))

  -- Links that stay the same stay in the set.
  IsClosed-same :
      (m m' : Store) (xs : List Ptr)
      → ((a : Ptr) → next_of (m' a) ≡ next_of (m a))
      → IsClosed m xs
      → IsClosed m' xs
  IsClosed-same m m' xs same closed a i =
      ((closed a i).0, (closed a i).1, ap (λ n. has n xs) (same a) ∙ (closed a i).2)

  next-write :
      (m : Store) (p a : Ptr) (c : Context)
      → next_of c ≡ next_of (m p)
      → next_of (write m p c a) ≡ next_of (m a)
  next-write m p a c same = elim (Bool-cases (a == p)) [
    | inl at ↦
        let e : a ≡ p = ground arith in
        subst (λ b. next_of (write m p c b) ≡ next_of (m b)) (sym e)
          (ap next_of (write-at m p c) ∙ same)
    | inr off ↦ ap next_of (write-off m p a c off)
  ]

  pub InRing-updated :
      (p a : Ptr) (k : Kernel) (c : Context)
      → next_of c ≡ next_of (k.mem a)
      → InRing p k
      → InRing p (record k { mem = write k.mem a c })
  InRing-updated p a k c same h = record {
    ring = record {
      members = h.ring.members;
      closed =
          IsClosed-same k.mem (write k.mem a c) h.ring.members (λ b. next-write k.mem a b c same)
            h.ring.closed;
      here = h.ring.here;
      few = h.ring.few;
      fresh = h.ring.fresh;
    };
    among = h.among;
  }

  pub InRing-stable : (p : Ptr) (k k' : Kernel) → SameSchedule k k' → InRing p k → InRing p k'
  InRing-stable p k k' same h = record {
    ring = record {
      members = h.ring.members;
      closed = rw same.mem h.ring.closed;
      here = rw same.current h.ring.here;
      few = rw same.idx_reserve h.ring.few;
      fresh = rw same.idx_reserve h.ring.fresh;
    };
    among = h.among;
  }
