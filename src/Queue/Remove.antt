-- ===== src/Queue/Remove.antt =====
-- `remove_elt` and `get_first` on the linked queue.
use rtas2021_artifact.Base.{
  ◌≡◌, ◌≢◌, true, false, List, [], ◌∷◌, arith, ◌==◌, ok, halt, Returns, returns, codes,
}
use rtas2021_artifact.Store.{Ptr, null, Store}
use rtas2021_artifact.Queue.{Heap, remove_elt, get_first}
use rtas2021_artifact.Queue.Chain.{Holds, load-ok}

module _ (m : Store) (h : Heap) where
  -- `remove_elt` takes the first context off and leaves the rest of the queue.
  pub remove_elt-cons :
      (x : Ptr) (xs : List Ptr)
      → Holds m h (x ∷ xs)
      → Returns (λ (p, h'). (p ≡ x) × Holds m h' xs) (remove_elt h m)
  unfolding remove_elt
  remove_elt-cons x xs is =
      rw (more, load-ok h.head m nh)
        (returns (
          is.chain.0,
          record {
            chain = rw is.chain.0 is.chain.3;
            size = omega (arith, is.size, is.bounded);
            bounded = omega (arith, is.bounded);
          },
        ))
    where
      more : (h.head == null) ≡ false
      more = ground arith

      nh : h.head ≢ null
      nh = ground arith

  -- On an empty queue both stop the machine with the text of the assertion.
  pub remove_elt-nil : Holds m h [] → remove_elt h m ≡ halt (codes "Assertion heap->head failed")
  unfolding remove_elt
  remove_elt-nil is = rw empty
    where
      empty : (h.head == null) ≡ true
      empty = ground arith

  pub get_first-cons : (x : Ptr) (xs : List Ptr) → Holds m h (x ∷ xs) → get_first h ≡ ok x
  unfolding get_first
  get_first-cons x xs is = rw (more, is.chain.0)
    where
      more : (h.head == null) ≡ false
      more = ground arith
