-- ===== src/Queue/Chain.antt =====
-- What a queue stands for: the addresses that its links lead through, up to the null pointer.
use mathlib.Core.Path.{subst}
use rtas2021_artifact.Base.{
  ◌≡◌, refl, sym, ◌∙◌, ◌≢◌, true, false, List, [], ◌∷◌, arith, has, length,
}
use rtas2021_artifact.Store.{
  Ptr, null, Store, next_of, with_next, write, load, store, set_next, SameButNext,
}
use rtas2021_artifact.Base.{ok, ◌<◌, ◌^◌}
use rtas2021_artifact.Queue.{Heap}

-- From `p` the links lead through the distinct contexts `xs` to the null pointer.
abbrev pub IsChain : Store → Ptr → List Ptr → Type 0
IsChain m p [] = p ≡ null
IsChain m p (x ∷ xs) = (p ≡ x) × (x ≢ null) × (has x xs ≡ false) × IsChain m (next_of (m x)) xs

-- The queue holds the contexts `xs`, in this order.
pub record Holds (m : Store) (h : Heap) (xs : List Ptr) : Type 0 where
  pub chain : IsChain m h.head xs
  pub size : h.size ≡ length xs
  pub bounded : length xs < 2 ^ 32

pub load-ok : (p : Ptr) (m : Store) → p ≢ null → load p m ≡ ok (m p)
unfolding load
load-ok p m h = ground arith

pub set_next-ok :
    (p q : Ptr) (m : Store) → p ≢ null → set_next p q m ≡ ok (write m p (with_next q (m p)))
unfolding set_next load store
set_next-ok p q m h = ground arith

-- A chain survives a change that spares its contexts' links.
pub IsChain-frame :
    (m m' : Store) (p : Ptr) (xs : List Ptr)
    → IsChain m p xs
    → ((a : Ptr) → has a xs ≡ true → next_of (m' a) ≡ next_of (m a))
    → IsChain m' p xs
IsChain-frame m m' p [] c same = c
IsChain-frame m m' p (x ∷ xs) c same =
    (c.0, c.1, c.2, IsChain-frame m m' _ xs next λ a i. same a (ground arith))
  where
    next : IsChain m (next_of (m' x)) xs
    next = rw (same x (ground arith)) c.3

pub not-has-null : (m : Store) (p : Ptr) (xs : List Ptr) → IsChain m p xs → has null xs ≡ false
not-has-null m p [] c = refl
not-has-null m p (x ∷ xs) c = ground (arith, not-has-null m (next_of (m x)) xs c.3)

pub SameButNext-write : (m : Store) (p q : Ptr) → SameButNext m (write m p (with_next q (m p)))
unfolding write
SameButNext-write m p q a = ground arith

-- The links lead through one list only.
pub IsChain-unique :
    (m : Store) (p : Ptr) (xs ys : List Ptr) → IsChain m p xs → IsChain m p ys → xs ≡ ys
IsChain-unique m p [] [] c d = refl
IsChain-unique m p [] (y ∷ ys) c d = absurd (d.1 (sym d.0 ∙ c))
IsChain-unique m p (x ∷ xs) [] c d = absurd (c.1 (sym c.0 ∙ d))
IsChain-unique m p (x ∷ xs) (y ∷ ys) c d =
    let first : y ≡ x = sym d.0 ∙ c.0 in
    let rest =
      IsChain-unique m (next_of (m x)) xs ys c.3
        (subst (λ z. IsChain m (next_of (m z)) ys) first d.3) in
    rw (first, rest) refl
