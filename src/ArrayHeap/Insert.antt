-- ===== src/ArrayHeap/Insert.antt =====
-- Insertion into the array heap.
use mathlib.Core.Path.{subst}
use rtas2021_artifact.Base.{
  ℕ, zero, suc, ◌+◌, ◌^◌, ◌≤◌, ◌<◌, ◌≡◌, ◌≢◌, refl, sym, true, false, arith, ltb, ◌==◌, ap, ◌∙◌,
  Bool-cases, inl, inr, Returns, returns, weaken, bind,
}
use rtas2021_artifact.Store.{Ptr, null, Store}
use rtas2021_artifact.Queue.{Priority, incr}
use rtas2021_artifact.Queue.Chain.{load-ok}
use rtas2021_artifact.ArrayHeap.{Array, ArrayHeap, put, parent_of, sift_up, insert_elt}
use rtas2021_artifact.ArrayHeap.Order.{
  IsHeap, IsHeapAbove, exchange-IsHeapAbove, IsHeapAbove-settled,
}
use rtas2021_artifact.ArrayHeap.Bag.{
  one, count, count_next, count-put_behind, count-swap, put-at, put-off,
}
use rtas2021_artifact.ArrayHeap.Holds.{
  read_cell-ok, write_cell-ok, hole-swap, count-not_null, priority_of, keys, keys-swap,
  priority_at-ok, Holds,
}

module _ (order : Priority) (m : Store) (nb n : ℕ) (room : n ≤ nb) (elt : Ptr) where
  open order use {is_gt_priority}

  -- The cell `i` is where `elt` goes.
  pub record Placed (a : Array) (i : ℕ) (r : ℕ × Array) : Type 0 where
    pub inside : r.0 < n
    pub ordered : IsHeap order (keys order m (put r.1 r.0 elt)) n
    pub counted : (x : Ptr) → count (put r.1 r.0 elt) n x ≡ count (put a i elt) n x

  sift_up-Placed :
      (k i : ℕ) (a : Array)
      → i < k
      → i < n
      → count (put a i elt) n null ≡ 0
      → IsHeapAbove order (keys order m (put a i elt)) n i
      → Returns (Placed a i) (sift_up nb order k (priority_of order m elt) i a m)
  unfolding sift_up
  sift_up-Placed zero i a f l none v = absurd (omega arith)
  sift_up-Placed (suc k) i a f l none v = elim (Bool-cases (i == 0)) [
    | inl root ↦ rw root (
        returns (record {
          inside = l;
          ordered = IsHeapAbove-settled order _ n i (λ pos. absurd (ground arith)) v;
          counted = λ x. refl;
        }))
    | inr low ↦
        let up : parent_of i < n = ground arith in
        let apart : (parent_of i == i) ≡ false = ground arith in
        let same : put a i elt (parent_of i) ≡ a (parent_of i) =
          put-off a i (parent_of i) elt apart in
        let filled : a (parent_of i) ≢ null =
          λ e. count-not_null (put a i elt) n (parent_of i) up none (same ∙ e) in
        let here : keys order m (put a i elt) i ≡ priority_of order m elt =
          ap (priority_of order m) (put-at a i elt) in
        let above : keys order m (put a i elt) (parent_of i) ≡ keys order m a (parent_of i) =
          ap (priority_of order m) same in
        rw
          (
            low,
            priority_at-ok order m nb a (parent_of i) (omega (arith, room)) filled,
            read_cell-ok nb a (parent_of i) (omega (arith, room)),
            write_cell-ok nb a i (a (parent_of i)) (omega (arith, room)),
          )
          (elim (Bool-cases
            (is_gt_priority (priority_of order m elt) (keys order m a (parent_of i)))) [
              | inl higher ↦
                  let moved = hole-swap a i (parent_of i) elt apart in
                  let counts : (x : Ptr)
                      → count (put (put a i (a (parent_of i))) (parent_of i) elt) n x
                        ≡ count (put a i elt) n x =
                    λ x.
                      ap (λ b. count b n x) moved
                      ∙ count-swap (put a i elt) n i (parent_of i) x l up apart in
                  rw higher (
                    weaken
                      (sift_up-Placed k (parent_of i) (put a i (a (parent_of i))) (ground arith) up
                        (counts null ∙ none)
                        (subst (λ f. IsHeapAbove order f n (parent_of i))
                          (sym (
                            ap (keys order m) moved
                            ∙ keys-swap order m (put a i elt) i (parent_of i) apart))
                          (exchange-IsHeapAbove order (keys order m (put a i elt)) n i
                            (ground arith) l (rw (here, above) higher) v)))
                      λ r placed. record {
                        inside = placed.inside;
                        ordered = placed.ordered;
                        counted = λ x. placed.counted x ∙ counts x;
                      })
              | inr settled ↦ rw settled (
                  returns (record {
                    inside = l;
                    ordered = IsHeapAbove-settled order _ n i (λ pos. rw (here, above) settled) v;
                    counted = λ x. refl;
                  }))
            ])
  ]

-- The bag with one more `elt`.
abbrev pub added : Ptr → (Ptr → ℕ) → Ptr → ℕ
added elt bag x = bag x + one elt x

module _ (order : Priority) (m : Store) (nb : ℕ) (elt : Ptr) (ne : elt ≢ null) (h : ArrayHeap)
    (bag : Ptr → ℕ) (small : nb < 2 ^ 32) (room : h.size < nb) (is : Holds order m nb h bag) where
  abbrev hung : Array
  hung = put h.array h.size elt

  hung-count : (x : Ptr) → count hung (h.size + 1) x ≡ added elt bag x
  hung-count x =
      let old = count-put_behind h.array h.size h.size elt x (omega arith) in
      let new : one (hung h.size) x ≡ one elt x = ap (λ q. one q x) (put-at h.array h.size elt) in
      omega (arith, count_next hung h.size x, old, new, is.counted x)

  hung-IsHeapAbove : IsHeapAbove order (keys order m hung) (h.size + 1) h.size
  hung-IsHeapAbove = record {
    edges = λ c p l other.
        rw
          (
            put-off h.array h.size c elt (ground arith),
            put-off h.array h.size (parent_of c) elt (ground arith),
          )
          (is.ordered c p (omega arith));
    bridged = λ c p q l e. absurd (omega arith);
  }

  -- The heap has room for one more context. Insertion of a context that is not null returns, with that
  -- context once more in the heap and no other change of what it holds, in the order of a binary heap
  -- again; the loop needs no more rounds than the heap has elements, and one more.
  pub insert_elt-Holds :
      Returns
        (λ h'. (h'.size ≡ h.size + 1) × Holds order m nb h' (added elt bag))
        (insert_elt nb order elt h m)
  unfolding insert_elt
  insert_elt-Holds =
      rw (fits, load-ok elt m ne)
        (bind
          (sift_up-Placed order m nb (h.size + 1) (omega arith) elt (h.size + 1) h.size h.array
            (omega arith) (omega arith) none hung-IsHeapAbove)
          λ (i, a) placed.
            rw (write_cell-ok nb a i elt (omega (arith, placed.inside)), grown)
              (returns (
                refl,
                record {
                  within = omega arith;
                  counted = λ x. placed.counted x ∙ hung-count x;
                  no_null = empty_handed;
                  ordered = placed.ordered;
                },
              )))
    where
      fits : ltb h.size nb ≡ true
      fits = ground arith

      grown : incr h.size ≡ h.size + 1
      grown = omega arith

      empty_handed : added elt bag null ≡ 0
      empty_handed = ground (arith, is.no_null)

      none : count hung (h.size + 1) null ≡ 0
      none = hung-count null ∙ empty_handed
