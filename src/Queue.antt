-- ===== src/Queue.antt =====
-- The priority queue that educrtos/heap.c makes out of `INSTANTIATE_HEAP` under
-- SCHED_PRIORITY_QUEUE_USE_LIST: a sorted list, linked through `sched_context.next`.
pub mod Chain
pub mod Sorted
pub mod Splice
pub mod Insert
pub mod Remove
use Prim.Native.String.{String}
use rtas2021_artifact.Base.{
  ℕ, zero, suc, ◌+◌, ◌-◌, ◌%◌, ◌^◌, ◌≡◌, Bool, true, false, not, List, [], ◌∷◌, Run, ok, halt,
  out_of_fuel, ◌>>=◌, ◌>>◌, assert, ◌==◌, if◌then◌else◌, codes,
}
use rtas2021_artifact.Store.{Ptr, null, Context, Store, with_next, load, set_next}

-- The arguments of the macro: how to read an element's priority and how to compare two of them,
-- with what the queue needs of these (the comparison is a strict weak order, and an element's
-- priority does not depend on its link).
pub record Priority : Type 0 where
  pub get_priority : Context → ℕ
  pub is_gt_priority : ℕ → ℕ → Bool
  pub priority-next : (q : Ptr) (c : Context) → get_priority (with_next q c) ≡ get_priority c
  pub gt_asym : (a b : ℕ) → is_gt_priority a b ≡ true → is_gt_priority b a ≡ false
  pub ge_trans :
      (a b c : ℕ)
      → is_gt_priority b a ≡ false
      → is_gt_priority c b ≡ false
      → is_gt_priority c a ≡ false

pub record Heap : Type 0 where
  pub size : ℕ
  pub head : Ptr

unfoldable pub heap_init : Heap
heap_init = record { head = null; size = 0 }

-- `size++` and `size--` on an unsigned int.
abbrev pub incr : ℕ → ℕ
incr n = (n + 1) % 2 ^ 32

abbrev pub decr : ℕ → ℕ
decr n = (n + 2 ^ 32 - 1) % 2 ^ 32

pub remove_elt : Heap → Store → Run (Ptr × Heap)
remove_elt h m = do
  assert (not (h.head == null)) (codes "Assertion heap->head failed")
  c ← load h.head m
  ok (h.head, record { head = c.sched_context.next; size = decr h.size })

pub get_first : Heap → Run Ptr
get_first h = do assert (not (h.head == null)) (codes "Assertion heap->head failed"); ok h.head

module _ (order : Priority) where
  open order use {get_priority, is_gt_priority}

  -- The stores that link `elt` between `prev` and `cur`, where `prev` is null at the head.
  link : Ptr → Ptr → Ptr → Heap → Store → Run (Heap × Store)
  link elt prev cur h m = do
    (h', m') ←
        if prev == null
        then ok (record h { head = elt }, m)
        else (do m' ← set_next prev elt m; ok (h, m'))
    m'' ← set_next elt cur m'
    ok (h', m'')

  -- The `while(cur)` loop and the append that follows it.
  pub insert_loop : ℕ → ℕ → Ptr → Ptr → Ptr → Heap → Store → Run (Heap × Store)
  insert_loop zero priority elt prev cur h m = out_of_fuel
  insert_loop (suc k) priority elt prev cur h m =
      let append : Run (Heap × Store) = do
        m' ← set_next prev elt m
        m'' ← set_next elt null m'
        ok (h, m'')
      in let visit : Run (Heap × Store) = do
        c ← load cur m
        let onwards = insert_loop k priority elt cur c.sched_context.next h m
        if is_gt_priority priority (get_priority c) then link elt prev cur h m else onwards
        in if cur == null then append else visit

  pub insert_elt : Ptr → Heap → Store → Run (Heap × Store)
  unfolding insert_loop link
  insert_elt elt h m = do
    e ← load elt m
    (h', m') ←
        if h.head == null
        then (do m' ← set_next elt null m; ok (record h { head = elt }, m'))
        else insert_loop (h.size + 1) (get_priority e) elt null h.head h m
    ok (record h' { size = incr h'.size }, m')
