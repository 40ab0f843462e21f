-- ===== src/ArrayHeap/Holds.antt =====
-- What the array heap holds, and its accesses to the array.
use mathlib.Core.Path.{fun_ext}
use rtas2021_artifact.Base.{ℕ, ◌≤◌, ◌<◌, ◌≡◌, ◌≢◌, refl, false, arith, ◌==◌, ok, ap}
use rtas2021_artifact.Store.{Ptr, null, Store}
use rtas2021_artifact.Queue.{Priority}
use rtas2021_artifact.Queue.Chain.{load-ok}
use rtas2021_artifact.ArrayHeap.{Array, ArrayHeap, put, read_cell, write_cell, priority_at}
use rtas2021_artifact.ArrayHeap.Order.{exchange, IsHeap}
use rtas2021_artifact.ArrayHeap.Bag.{count, count-here}

pub read_cell-ok : (nb : ℕ) (a : Array) (i : ℕ) → i < nb → read_cell nb a i ≡ ok (a i)
unfolding read_cell
read_cell-ok nb a i h = ground arith

pub write_cell-ok :
    (nb : ℕ) (a : Array) (i : ℕ) (v : Ptr) → i < nb → write_cell nb a i v ≡ ok (put a i v)
unfolding write_cell
write_cell-ok nb a i v h = ground arith

-- Two cells of the array are exchanged.
abbrev pub swap : Array → ℕ → ℕ → Array
swap a i j = put (put a i (a j)) j (a i)

-- A hole that is filled with `elt` moves from `i` to `j`.
pub hole-swap :
    (a : Array) (i j : ℕ) (elt : Ptr)
    → (j == i) ≡ false
    → put (put a i (a j)) j elt ≡ swap (put a i elt) i j
unfolding put
hole-swap a i j elt apart = fun_ext λ c. ground (arith, apart)

-- A context that is none of the first `n` is not null.
pub count-not_null : (a : Array) (n c : ℕ) → c < n → count a n null ≡ 0 → a c ≢ null
count-not_null a n c h none e = absurd (omega (arith, count-here a n c h, ap (count a n) e, none))

module _ (order : Priority) (m : Store) where
  abbrev pub priority_of : Ptr → ℕ
  priority_of p = order.get_priority (m p)

  -- The priorities of the cells.
  abbrev pub keys : Array → ℕ → ℕ
  keys a c = priority_of (a c)

  pub keys-swap :
      (a : Array) (i j : ℕ) → (j == i) ≡ false → keys (swap a i j) ≡ exchange (keys a) i j
  unfolding put
  keys-swap a i j apart = fun_ext λ c. ground (arith, apart)

  pub priority_at-ok :
      (nb : ℕ) (a : Array) (i : ℕ)
      → i < nb
      → a i ≢ null
      → priority_at nb order a i m ≡ ok (keys a i)
  unfolding priority_at
  priority_at-ok nb a i h n = rw (read_cell-ok nb a i h, load-ok (a i) m n) refl

  -- The heap holds each context as often as `bag` says, never the null pointer, in the order of a
  -- binary heap.
  pub record Holds (nb : ℕ) (h : ArrayHeap) (bag : Ptr → ℕ) : Type 0 where
    pub within : h.size ≤ nb
    pub counted : (x : Ptr) → count h.array h.size x ≡ bag x
    pub no_null : bag null ≡ 0
    pub ordered : IsHeap order (keys h.array) h.size
