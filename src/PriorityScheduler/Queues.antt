-- ===== src/PriorityScheduler/Queues.antt =====
-- The two queues of the scheduler as two lists, and insertion into each.
use mathlib.Core.Path.{fun_ext}
use rtas2021_artifact.Base.{
  ◌==◌, ℕ, ◌+◌, ◌≤◌, ◌<◌, ◌^◌, ◌≡◌, refl, sym, ap, ◌∙◌, ◌≢◌, true, false, List, ◌∷◌, arith, has,
  length, Returns, returns, bind,
}
use rtas2021_artifact.Store.{Ptr, null, Store, next_of, SameOutside, SameButNext}
use rtas2021_artifact.Queue.{Priority, Heap}
use rtas2021_artifact.Queue.Chain.{Holds, IsChain-frame}
use rtas2021_artifact.Queue.Sorted.{
  IsSorted, insert_by, insert_by-IsSorted, has-insert_by, length-insert_by,
}
use rtas2021_artifact.Queue.Insert.{Inserted, insert_elt-Inserted}
use rtas2021_artifact.Image.{Image, reserve_at}
use rtas2021_artifact.Image.Reserve.{HasReserve}
use rtas2021_artifact.Kernel.{Kernel}
use rtas2021_artifact.PriorityScheduler.{Policy, waiting, ready, insert_ready}

-- The priorities that a store gives to the contexts.
abbrev pub key : Priority → Store → Ptr → ℕ
key o m q = o.get_priority (m q)

pub key-same : (o : Priority) (m m' : Store) → SameButNext m m' → key o m' ≡ key o m
key-same o m m' same =
    fun_ext λ q.
      sym (o.priority-next null (m' q)) ∙ ap o.get_priority (same q) ∙ o.priority-next null (m q)

-- What is assumed of the image: the idle context has an address that is not null, there is a
-- reserve of contexts without it, and the queues' sizes do not
-- wrap.
pub record IsImage (image : Image) : Type 0 where
  pub idle : image.idle_ctx_array ≢ null
  pub idle_address : image.idle_ctx_array < 2 ^ 32
  pub reserve : HasReserve image
  pub reserve_idle : (i : ℕ) → i < 10 → (reserve_at image i == image.idle_ctx_array) ≡ false
  pub small : image.nb_contexts + 1 < 2 ^ 32

-- The kernels differ at most in the queues and in the contexts' links.
pub record Requeued (k k' : Kernel) : Type 0 where
  pub rest :
      k' ≡ record k { ready_heap = k'.ready_heap; waiting_heap = k'.waiting_heap; mem = k'.mem }
  pub kept : SameButNext k.mem k'.mem

pub Requeued-refl : (k : Kernel) → Requeued k k
Requeued-refl k = record { rest = refl; kept = λ a. refl }

pub Requeued-trans : (k k' k'' : Kernel) → Requeued k k' → Requeued k' k'' → Requeued k k''
Requeued-trans k k' k'' r s = record {
  rest = s.rest ∙ ap (λ j. requeue j k'') r.rest;
  kept = λ a. s.kept a ∙ r.kept a;
}
  where
    requeue : Kernel → Kernel → Kernel
    requeue j i = record j { ready_heap = i.ready_heap; waiting_heap = i.waiting_heap; mem = i.mem }

-- Another queue is not touched.
pub Holds-frame :
    (m m' : Store) (h : Heap) (x : Ptr) (xs ys : List Ptr)
    → Holds m h ys
    → has x ys ≡ false
    → ((a : Ptr) → has a xs ≡ true → has a ys ≡ false)
    → SameOutside (x ∷ xs) m m'
    → Holds m' h ys
Holds-frame m m' h x xs ys is new apart outside = record {
  chain = IsChain-frame m m' h.head ys is.chain λ a i. ap next_of (outside a (away a i));
  size = is.size;
  bounded = is.bounded;
}
  where
    away : (a : Ptr) → has a ys ≡ true → has a (x ∷ xs) ≡ false
    away a i = ground (arith, apart a)

module _ (image : Image) (policy : Policy) where
  -- The ready queue holds `rs` and the waiting queue `ws`, in order and without a context in both.
  pub record Queues (k : Kernel) (rs ws : List Ptr) : Type 0 where
    pub ready_is : Holds k.mem k.ready_heap rs
    pub waiting_is : Holds k.mem k.waiting_heap ws
    pub ready_sorted : IsSorted (ready policy) (key (ready policy) k.mem) rs
    pub waiting_sorted : IsSorted waiting (key waiting k.mem) ws
    pub apart : (a : Ptr) → has a rs ≡ true → has a ws ≡ false
    pub room : length rs + length ws ≤ image.nb_contexts

  module _ (ok_image : IsImage image) (k : Kernel) (x : Ptr) (rs ws : List Ptr) (nx : x ≢ null)
      (new_r : has x rs ≡ false) (new_w : has x ws ≡ false)
      (room : length rs + length ws < image.nb_contexts) (q : Queues k rs ws) where
    abbrev pub readied : List Ptr
    readied = insert_by (ready policy) (key (ready policy) k.mem) x rs

    Queues-readied :
        (h : Heap) (m : Store)
        → Inserted (ready policy) k.mem x rs (h, m)
        → Queues (record k { ready_heap = h; mem = m }) readied ws
    Queues-readied h m i =
        let same_r = key-same (ready policy) k.mem m i.kept in
        let same_w = key-same waiting k.mem m i.kept in
        record {
          ready_is = i.holds;
          waiting_is =
              Holds-frame k.mem m k.waiting_heap x rs ws q.waiting_is new_w q.apart i.outside;
          ready_sorted =
              rw same_r
                (insert_by-IsSorted (ready policy) (key (ready policy) k.mem) x rs q.ready_sorted);
          waiting_sorted = rw same_w q.waiting_sorted;
          apart = λ a j.
              ground
                (arith, has-insert_by (ready policy) (key (ready policy) k.mem) a x rs, q.apart a);
          room = omega (arith, length-insert_by (ready policy) (key (ready policy) k.mem) x rs);
        }

    -- A context is made ready behind those of no lower priority.
    pub insert_ready-Queues :
        Returns (λ k'. Queues k' readied ws × Requeued k k') (insert_ready image policy x k)
    unfolding insert_ready
    insert_ready-Queues =
        bind
          (insert_elt-Inserted (ready policy) k.mem k.ready_heap x rs nx new_r
            (omega (arith, ok_image.small)) q.ready_is)
          λ (h, m) i. returns (Queues-readied h m i, record { rest = refl; kept = i.kept })

    abbrev pub blocked : List Ptr
    blocked = insert_by waiting (key waiting k.mem) x ws

    -- The same into the waiting queue.
    pub Queues-blocked :
        (h : Heap) (m : Store)
        → Inserted waiting k.mem x ws (h, m)
        → Queues (record k { waiting_heap = h; mem = m }) rs blocked
    Queues-blocked h m i =
        let same_r = key-same (ready policy) k.mem m i.kept in
        let same_w = key-same waiting k.mem m i.kept in
        record {
          ready_is =
              Holds-frame k.mem m k.ready_heap x ws rs q.ready_is new_r (λ a j. swapped a j)
                i.outside;
          waiting_is = i.holds;
          ready_sorted = rw same_r q.ready_sorted;
          waiting_sorted =
              rw same_w (insert_by-IsSorted waiting (key waiting k.mem) x ws q.waiting_sorted);
          apart =
              λ a j. ground (arith, has-insert_by waiting (key waiting k.mem) a x ws, q.apart a);
          room = omega (arith, length-insert_by waiting (key waiting k.mem) x ws);
        }
      where
        swapped : (a : Ptr) → has a ws ≡ true → has a rs ≡ false
        swapped a j = ground (arith, q.apart a)
