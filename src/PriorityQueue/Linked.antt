-- ===== src/PriorityQueue/Linked.antt =====
-- The linked queue is a priority queue.
use mathlib.Core.Path.{subst}
use rtas2021_artifact.Base.{
  ℕ, ◌+◌, ◌^◌, ◌<◌, ◌≡◌, ◌≢◌, refl, sym, ap, ◌∙◌, false, List, [], ◌∷◌, arith, has, length, ◌==◌,
  Bool-cases, inl, inr, ok, Returns, returns, weaken, bind, ◌>>=◌,
}
use rtas2021_artifact.Store.{Ptr, null, Store}
use rtas2021_artifact.Queue
use rtas2021_artifact.Queue.{Priority, Heap}
use rtas2021_artifact.Queue.Chain
use rtas2021_artifact.Queue.Insert.{insert_elt-Inserted}
use rtas2021_artifact.Queue.Remove.{remove_elt-cons, get_first-cons}
use rtas2021_artifact.Queue.Sorted.{
  NoneAbove, IsSorted, insert_by, insert_by-IsSorted, length-insert_by, gt_refl,
}
use rtas2021_artifact.ArrayHeap.Bag.{one}
use rtas2021_artifact.ArrayHeap.Insert.{added}
use rtas2021_artifact.ArrayHeap.Holds.{priority_of}
use rtas2021_artifact.PriorityScheduler.Queues.{key-same}
use rtas2021_artifact.PriorityQueue.{PriorityQueue, Bag, without, IsFirst}

-- How often a context is in a list.
abbrev pub occurs : List Ptr → Ptr → ℕ
occurs [] y = 0
occurs (x ∷ xs) y = occurs xs y + one x y

not-has-occurs : (xs : List Ptr) (y : Ptr) → occurs xs y ≡ 0 → has y xs ≡ false
not-has-occurs [] y h = refl
not-has-occurs (x ∷ xs) y h = ground (arith, not-has-occurs xs y)

occurs-insert_by :
    (o : Priority) (key : Ptr → ℕ) (e : Ptr) (xs : List Ptr) (y : Ptr)
    → occurs (insert_by o key e xs) y ≡ occurs xs y + one e y
occurs-insert_by o key e [] y = refl
occurs-insert_by o key e (x ∷ xs) y = elim (Bool-cases (o.is_gt_priority (key e) (key x))) [
  | inl above ↦ rw above refl
  | inr below ↦ rw below (omega (arith, occurs-insert_by o key e xs y))
]

pub no_members : (xs : List Ptr) → length xs ≡ 0 → xs ≡ []
no_members [] e = refl
no_members (x ∷ xs) e = absurd (omega arith)

one_self : (x : Ptr) → one x x ≡ 1
one_self x = ground arith

pub NoneAbove-occurs :
    (o : Priority) (key : Ptr → ℕ) (a : ℕ) (xs : List Ptr) (y : Ptr)
    → NoneAbove o key a xs
    → 0 < occurs xs y
    → o.is_gt_priority (key y) a ≡ false
NoneAbove-occurs o key a [] y n h = absurd (omega arith)
NoneAbove-occurs o key a (x ∷ xs) y n h = elim (Bool-cases (x == y)) [
  | inl at ↦ let e : x ≡ y = ground arith in subst (λ z. o.is_gt_priority (key z) a ≡ false) e n.0
  | inr off ↦ NoneAbove-occurs o key a xs y n.1 (ground arith)
]

module _ (order : Priority) (m : Store) where
  -- The heap's links lead through the contexts of the bag, sorted; the priorities are those of `m`.
  pub record IsLinked (q : Heap × Store) (n : ℕ) (bag : Bag) : Type 0 where
    pub members : List Ptr
    pub is : Chain.Holds q.1 q.0 members
    pub sorted : IsSorted order (priority_of order m) members
    pub same : priority_of order q.1 ≡ priority_of order m
    pub number : length members ≡ n
    pub counted : (x : Ptr) → occurs members x ≡ bag x

  pub inserts :
      (x : Ptr) (q : Heap × Store) (n : ℕ) (bag : Bag)
      → x ≢ null
      → n + 1 < 2 ^ 32
      → bag x ≡ 0
      → IsLinked q n bag
      → Returns (λ q'. IsLinked q' (n + 1) (added x bag)) (Queue.insert_elt order x q.0 q.1)
  inserts x (h, m') n bag nx room new l =
      weaken
        (insert_elt-Inserted order m' h x l.members nx
          (not-has-occurs l.members x (l.counted x ∙ new)) (omega (arith, l.number)) l.is)
        λ (h', m'') i. record {
          members = insert_by order (priority_of order m') x l.members;
          is = i.holds;
          sorted = rw l.same (insert_by-IsSorted order (priority_of order m) x l.members l.sorted);
          same = key-same order m' m'' i.kept ∙ l.same;
          number =
              omega (arith, length-insert_by order (priority_of order m') x l.members, l.number);
          counted = λ y.
              occurs-insert_by order (priority_of order m') x l.members y
              ∙ ap (λ t. t + one x y) (l.counted y);
        }

  pub removes :
      (q : Heap × Store) (n : ℕ) (bag : Bag) (l : IsLinked q (n + 1) bag)
      → (xs : List Ptr) → l.members ≡ xs
      → Returns
          (λ (x, h').
            IsFirst order m x bag
            × (Queue.get_first q.0 ≡ ok x)
            × IsLinked (h', q.1) n (without x bag))
          (Queue.remove_elt q.0 q.1)
  removes (h, m') n bag l [] e = absurd (omega (arith, l.number, ap length e))
  removes (h, m') n bag l (x ∷ xs) e =
      let is = subst (Chain.Holds m' h) e l.is in
      let sorted = subst (IsSorted order (priority_of order m)) e l.sorted in
      let counted : (y : Ptr) → occurs xs y + one x y ≡ bag y =
        λ y. subst (λ zs. occurs zs y ≡ bag y) e (l.counted y) in
      weaken (remove_elt-cons m' h x xs is) λ (p, h') (same, rest). (
        rw same (record {
          held = omega (arith, counted x, one_self x);
          highest = λ y some. elim (Bool-cases (x == y)) [
            | inl at ↦
                let f : x ≡ y = ground arith in
                subst
                  (λ z.
                    order.is_gt_priority (priority_of order m z) (priority_of order m x) ≡ false)
                  f (gt_refl order (priority_of order m x))
            | inr off ↦
                NoneAbove-occurs order (priority_of order m) (priority_of order m x) xs y sorted.0
                  (ground (arith, counted y))
          ];
        }),
        rw same (get_first-cons m' h x xs is),
        rw same (record {
          members = xs;
          is = rest;
          sorted = sorted.1;
          same = l.same;
          number = omega (arith, l.number, ap length e);
          counted = λ y. omega (arith, counted y);
        }),
      )

-- Its links are kept in the contexts.
unfoldable pub linked_queue :
    (order : Priority) (m : Store) (capacity : ℕ)
    → capacity + 1 < 2 ^ 32
    → PriorityQueue order m capacity
unfolding Queue.heap_init
linked_queue order m capacity small = record {
  State = Heap × Store;
  Holds = IsLinked order m;
  init = (Queue.heap_init, m);
  init-Holds = record {
    members = [];
    is = record { chain = refl; size = refl; bounded = omega arith };
    sorted = tt;
    same = refl;
    number = refl;
    counted = λ x. refl;
  };
  Holds-none =
      λ q bag y l. sym (l.counted y) ∙ ap (λ zs. occurs zs y) (no_members l.members l.number);
  insert_elt = λ x (h, m'). Queue.insert_elt order x h m';
  remove_elt = λ (h, m'). Queue.remove_elt h m' >>= (λ (x, h'). ok (x, (h', m')));
  get_first = λ (h, m'). Queue.get_first h;
  inserts = λ x q n bag nx room new l. inserts order m x q n bag nx (omega arith) new l;
  removes = λ q n bag l. bind (removes order m q n bag l l.members refl) λ (x, h') r. returns r;
}
