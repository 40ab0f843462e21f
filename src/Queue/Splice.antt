-- ===== src/Queue/Splice.antt =====
-- The loop of `insert_elt` of the linked queue (educrtos/heap.c) and the splice that ends it.
use rtas2021_artifact.Base.{
  ℕ, zero, suc, ◌<◌, ◌≡◌, refl, ◌≢◌, Bool, true, false, List, [], ◌∷◌, arith, has, length, ◌==◌,
  Bool-cases, inl, inr, ok, Returns, returns, weaken,
}
use rtas2021_artifact.Store.{Ptr, null, Store, next_of, with_next, write, SameOutside, SameButNext}
use rtas2021_artifact.Queue.{Priority, Heap, link, insert_loop}
use rtas2021_artifact.Queue.Chain.{IsChain, load-ok, set_next-ok, IsChain-frame}
use rtas2021_artifact.Queue.Sorted.{insert_by, insert_by-above, insert_by-below, has-insert_by}

-- The store after `prev->next = elt; elt->next = cur`.
abbrev splice : Store → Ptr → Ptr → Ptr → Store
splice m prev elt cur =
    let m' = write m prev (with_next elt (m prev)) in write m' elt (with_next cur (m' elt))

-- Behind `prev` the links lead through `out`; other contexts are as they were, and of those at
-- `prev :: elt :: xs` at most the links differ.
pub record Spliced (m : Store) (prev elt : Ptr) (xs out : List Ptr) (m' : Store) : Type 0 where
  pub chain : IsChain m' (next_of (m' prev)) out
  pub outside : SameOutside (prev ∷ elt ∷ xs) m m'
  pub kept : SameButNext m m'

splice-Spliced :
    (m : Store) (prev elt cur : Ptr) (xs : List Ptr)
    → elt ≢ null
    → prev ≢ elt
    → has prev xs ≡ false
    → has elt xs ≡ false
    → IsChain m cur xs
    → Spliced m prev elt xs (elt ∷ xs) (splice m prev elt cur)
unfolding write
splice-Spliced m prev elt cur xs ne apart out out' c = record {
  chain = (
    ground arith,
    ne,
    out',
    IsChain-frame m (splice m prev elt cur) _ xs (rw here c) λ a i. ground arith,
  );
  outside = λ a o. ground arith;
  kept = λ a. ground arith;
}
  where
    here : next_of (splice m prev elt cur elt) ≡ cur
    here = ground arith

module _ (o : Priority) (m : Store) (h : Heap) (elt : Ptr) (ne : elt ≢ null) where
  abbrev key : Ptr → ℕ
  key q = o.get_priority (m q)

  -- What the loop leaves behind `prev`.
  abbrev pub LoopDone : Ptr → List Ptr → Heap × Store → Type 0
  LoopDone prev xs (h', m') = (h' ≡ h) × Spliced m prev elt xs (insert_by o key elt xs) m'

  link-ok : (prev cur : Ptr) → prev ≢ null → link o elt prev cur h m ≡ ok (h, splice m prev elt cur)
  unfolding link
  link-ok prev cur np = rw (
    not_null,
    set_next-ok prev elt m np,
    set_next-ok elt cur (write m prev (with_next elt (m prev))) ne,
  )
    where
      not_null : (prev == null) ≡ false
      not_null = ground arith

  Spliced-cons :
      (prev x : Ptr) (xs out : List Ptr) (m' : Store)
      → next_of (m prev) ≡ x
      → x ≢ null
      → prev ≢ elt
      → has prev (x ∷ xs) ≡ false
      → has x out ≡ false
      → Spliced m x elt xs out m'
      → Spliced m prev elt (x ∷ xs) (x ∷ out) m'
  Spliced-cons prev x xs out m' at nx apart away new s = record {
    chain = (ground (arith, s.outside prev, at), nx, new, s.chain);
    outside = λ a away'. s.outside a (ground arith);
    kept = s.kept;
  }

  pub insert_loop-Spliced :
      (k : ℕ) (prev cur : Ptr) (xs : List Ptr)
      → prev ≢ null
      → prev ≢ elt
      → has prev xs ≡ false
      → has elt xs ≡ false
      → next_of (m prev) ≡ cur
      → IsChain m cur xs
      → length xs < k
      → Returns (LoopDone prev xs) (insert_loop o k (key elt) elt prev cur h m)
  unfolding insert_loop
  insert_loop-Spliced zero prev cur xs np apart away out at c fuel = absurd (omega arith)
  insert_loop-Spliced (suc k) prev cur [] np apart away out at c fuel =
      rw
        (
          end,
          set_next-ok prev elt m np,
          set_next-ok elt null (write m prev (with_next elt (m prev))) ne,
        )
        (returns (refl, splice-Spliced m prev elt null [] ne apart refl refl refl))
    where
      end : (cur == null) ≡ true
      end = ground arith
  insert_loop-Spliced (suc k) prev cur (x ∷ xs) np apart away out at c fuel =
      rw (more, load-ok cur m nc, c.0)
        (elim (Bool-cases above) [
          | inl higher ↦
              rw (higher, link-ok prev x np)
                (returns (
                  refl,
                  rw (insert_by-above o key elt x xs higher)
                      (splice-Spliced m prev elt x (x ∷ xs) ne apart away out start),
                ))
          | inr lower ↦ rw lower (
              weaken
                (insert_loop-Spliced k x (next_of (m x)) xs c.1 (ground arith) c.2 (ground arith)
                  refl c.3 (omega arith))
                λ (h', m') (same, s). (
                  same,
                  rw (insert_by-below o key elt x xs lower) (
                      Spliced-cons prev x xs _ m' (ground arith) c.1 apart away
                        (ground (arith, has-insert_by o key x elt xs)) s),
                ))
        ])
    where
      above : Bool
      above = o.is_gt_priority (key elt) (key x)

      nc : cur ≢ null
      nc = ground arith

      more : (cur == null) ≡ false
      more = ground arith

      start : IsChain m x (x ∷ xs)
      start = (refl, c.1, c.2, c.3)
