-- ===== src/Queue/Insert.antt =====
-- `insert_elt` of the linked queue (educrtos/heap.c) against insertion into a list.
use rtas2021_artifact.Base.{
  ℕ, zero, suc, ◌+◌, ◌^◌, ◌<◌, ◌≡◌, refl, ◌≢◌, Bool, true, false, List, [], ◌∷◌, arith, has, length,
  ◌==◌, Bool-cases, inl, inr, Returns, returns, weaken, bind, sym,
}
use mathlib.Core.Path.{subst}
use rtas2021_artifact.Store.{Ptr, null, Store, next_of, with_next, write, SameOutside, SameButNext}
use rtas2021_artifact.Queue.{Priority, Heap, link, insert_loop, insert_elt, incr}
use rtas2021_artifact.Queue.Chain.{IsChain, Holds, load-ok, set_next-ok, IsChain-frame}
use rtas2021_artifact.Queue.Sorted.{
  insert_by, insert_by-above, insert_by-below, has-insert_by, length-insert_by,
}
use rtas2021_artifact.Queue.Splice.{LoopDone, insert_loop-Spliced}

-- What inserting `elt` makes of a store and of a queue that held `xs`.
pub record Inserted (o : Priority) (m : Store) (elt : Ptr) (xs : List Ptr) (r : Heap × Store)
    : Type 0 where
  pub holds : Holds r.1 r.0 (insert_by o (λ q. o.get_priority (m q)) elt xs)
  pub outside : SameOutside (elt ∷ xs) m r.1
  pub kept : SameButNext m r.1

module _ (o : Priority) (m : Store) (h : Heap) (elt : Ptr) (ne : elt ≢ null) where
  abbrev whole : List Ptr → List Ptr
  whole = insert_by o (λ q. o.get_priority (m q)) elt

  -- The same before `size++`.
  record Placed (xs : List Ptr) (r : Heap × Store) : Type 0 where
    chain : IsChain r.1 r.0.head (whole xs)
    size : r.0.size ≡ h.size
    outside : SameOutside (elt ∷ xs) m r.1
    kept : SameButNext m r.1

  -- The new head is linked to what the queue held.
  front-Placed :
      (p : Ptr) (xs : List Ptr)
      → has elt xs ≡ false
      → IsChain m p xs
      → whole xs ≡ elt ∷ xs
      → Placed xs (record h { head = elt }, write m elt (with_next p (m elt)))
  unfolding write
  front-Placed p xs out c first = record {
    chain = rw first (refl, ne, out, IsChain-frame m m' _ xs (rw here c) λ a i. ground arith);
    size = refl;
    outside = λ a o. ground arith;
    kept = λ a. ground arith;
  }
    where
      m' : Store
      m' = write m elt (with_next p (m elt))

      here : next_of (m' elt) ≡ p
      here = ground arith

  Placed-below :
      (x : Ptr) (xs : List Ptr) (r : Heap × Store)
      → x ≢ null
      → has x xs ≡ false
      → elt ≢ x
      → h.head ≡ x
      → o.is_gt_priority (o.get_priority (m elt)) (o.get_priority (m x)) ≡ false
      → LoopDone o m h elt ne x xs r
      → Placed (x ∷ xs) r
  Placed-below x xs (h', m') nx new apart at lower (same, s) = record {
    chain = rw (insert_by-below o (λ q. o.get_priority (m q)) elt x xs lower) (
      (rw same at),
      nx,
      ground (arith, has-insert_by o (λ q. o.get_priority (m q)) x elt xs),
      s.chain,
    );
    size = rw same;
    outside = λ a away. s.outside a (ground arith);
    kept = s.kept;
  }

  first_round-Placed :
      (k : ℕ) (x : Ptr) (xs : List Ptr)
      → has elt (x ∷ xs) ≡ false
      → h.head ≡ x
      → IsChain m x (x ∷ xs)
      → suc (length xs) < k
      → Returns (Placed (x ∷ xs)) (insert_loop o k (o.get_priority (m elt)) elt null x h m)
  unfolding insert_loop link
  first_round-Placed zero x xs out at c fuel = absurd (omega arith)
  first_round-Placed (suc k) x xs out at c fuel =
      rw (more, load-ok x m c.1)
        (elim (Bool-cases above) [
          | inl higher ↦
              rw (higher, set_next-ok elt x m ne)
                (returns (
                  front-Placed x (x ∷ xs) out c
                    (insert_by-above o (λ q. o.get_priority (m q)) elt x xs higher)))
          | inr lower ↦ rw lower (
              weaken
                (insert_loop-Spliced o m h elt ne k x (next_of (m x)) xs c.1 (ground arith) c.2
                  (ground arith) refl c.3 (omega arith))
                λ r. Placed-below x xs r c.1 c.2 (ground arith) at lower)
        ])
    where
      above : Bool
      above = o.is_gt_priority (o.get_priority (m elt)) (o.get_priority (m x))

      more : (x == null) ≡ false
      more = ground arith

  Placed-counted :
      (xs : List Ptr) (r : Heap × Store)
      → suc (length xs) < 2 ^ 32
      → h.size ≡ length xs
      → Placed xs r
      → Inserted o m elt xs (record r.0 { size = incr r.0.size }, r.1)
  Placed-counted xs r small n p =
      let longer = length-insert_by o (λ q. o.get_priority (m q)) elt xs in
      record {
        holds = record {
          chain = p.chain;
          size = omega (arith, longer, p.size);
          bounded = omega (arith, longer);
        };
        outside = p.outside;
        kept = p.kept;
      }

module _ (o : Priority) (m : Store) (h : Heap) (elt : Ptr) where
  -- `insert_elt` returns, links the element behind the last one of no lower priority, counts it,
  -- and changes nothing but the links of the element and of those that were in the queue.
  pub insert_elt-Inserted :
      (xs : List Ptr)
      → elt ≢ null
      → has elt xs ≡ false
      → suc (length xs) < 2 ^ 32
      → Holds m h xs
      → Returns (Inserted o m elt xs) (insert_elt o elt h m)
  unfolding insert_elt
  insert_elt-Inserted [] ne out small is =
      rw (load-ok elt m ne, empty, set_next-ok elt null m ne)
        (returns (Placed-counted o m h elt ne [] _ small is.size placed))
    where
      empty : (h.head == null) ≡ true
      empty = ground arith

      placed :
          Placed o m h elt ne [] (record h { head = elt }, write m elt (with_next null (m elt)))
      placed = front-Placed o m h elt ne null [] refl refl refl
  insert_elt-Inserted (x ∷ xs) ne out small is =
      rw (load-ok elt m ne, more)
        (bind (subst from_head (sym is.chain.0) rounds)
          λ r p. returns (Placed-counted o m h elt ne (x ∷ xs) r small is.size p))
    where
      more : (h.head == null) ≡ false
      more = ground arith

      from_head : Ptr → Type 0
      from_head p =
          Returns (Placed o m h elt ne (x ∷ xs))
            (insert_loop o (h.size + 1) (o.get_priority (m elt)) elt null p h m)

      rounds : from_head x
      rounds =
          first_round-Placed o m h elt ne (h.size + 1) x xs out is.chain.0
            (refl, is.chain.1, is.chain.2, is.chain.3) (omega (arith, is.size))
