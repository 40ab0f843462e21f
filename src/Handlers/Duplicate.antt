-- ===== src/Handlers/Duplicate.antt =====
-- The creation of a thread (syscall_dup_thread of educrtos/high_level.c).
use rtas2021_artifact.Base.{
  [], List, halt, codes, true, ℕ, ◌-◌, ◌≡◌, refl, ◌≢◌, false, arith, ◌==◌, ok, Returns, returns,
  bind, sym, ap, ◌∙◌,
}
use mathlib.Core.Path.{subst}
use rtas2021_artifact.Store.{Ptr, null, Context, Store, write, with_next, SameButNext}
use rtas2021_artifact.Store.Write.{write-at, write-off, write-twice}
use rtas2021_artifact.Queue.Chain.{load-ok}
use rtas2021_artifact.Image.{Image}
use rtas2021_artifact.Kernel.{Kernel, Scheduler, context_is_idle}
use rtas2021_artifact.Terminal.Bounds.{IsOnScreen}
use rtas2021_artifact.LowLevel.{hw_context_set_return1}
use rtas2021_artifact.Format.{fatal}
use rtas2021_artifact.HighLevel.{dup_thread_handler, take_reserve, copy_context, set_return1}
use rtas2021_artifact.Contract.{Contract, spare}
use rtas2021_artifact.Handlers.Entry.{IsUser, switched, store-ok, hw_context_switch_no_idle-ok}

-- A context with the result of its system call.
abbrev returning : ℕ → Context → Context
returning r c = record c { hw_context = hw_context_set_return1 c.hw_context r }

set_return1-ok :
    (image : Image) (s : Scheduler) (p : Ptr) (r : ℕ) (m : Store)
    → p ≢ null
    → set_return1 image s p r m ≡ ok (write m p (returning r (m p)))
unfolding set_return1
set_return1-ok image s p r m n = rw (load-ok p m n, store-ok p (returning r (m p)) m n) refl

-- A context but for the register that holds the result of a system call.
abbrev pub with_eax : ℕ → Context → Context
with_eax r c = record c {
  hw_context = record c.hw_context { regs = record c.hw_context.regs { eax = r } };
}

-- The new thread `child` against the kernel `k` in which `parent` made the call.
pub record Duplicated (k : Kernel) (parent child : Ptr) (k' : Kernel) : Type 0 where
  pub runs : k'.processor.running ≡ parent
  pub taken : k'.idx_reserve ≡ k.idx_reserve - 1
  pub parent_result : (k'.mem parent).hw_context.regs.eax ≡ 1
  pub child_result : (k'.mem child).hw_context.regs.eax ≡ 0
  pub parent_kept :
      with_next null (with_eax 0 (k'.mem parent)) ≡ with_next null (with_eax 0 (k.mem parent))
  pub child_copied :
      with_next null (with_eax 0 (k'.mem child)) ≡ with_next null (with_eax 0 (k.mem parent))

-- The contexts of parent and child with the results of the call.
abbrev answered : Ptr → Ptr → Store → Store
answered p child m =
    let m' = write m p (returning 1 (m p)) in write m' child (returning 0 (m' child))

answered-Duplicated :
    (k k' : Kernel) (p child : Ptr)
    → (child == p) ≡ false
    → k'.idx_reserve ≡ k.idx_reserve - 1
    → SameButNext (write k.mem child (k.mem p)) k'.mem
    → Duplicated k p child (switched p (record k' { mem = answered p child k'.mem }))
unfolding hw_context_set_return1
answered-Duplicated k k' p child apart one_less kept = record {
  runs = refl;
  taken = one_less;
  parent_result =
      ap (λ c. c.hw_context.regs.eax)
        (write-off m' child p _ away ∙ write-at k'.mem p (returning 1 (k'.mem p)));
  child_result = ap (λ c. c.hw_context.regs.eax) here;
  parent_kept =
      ap (λ c. with_next null (with_eax 0 c))
        (write-off m' child p _ away ∙ write-at k'.mem p (returning 1 (k'.mem p)))
      ∙ ap (with_eax 0) (kept p)
      ∙ ap (λ c. with_next null (with_eax 0 c)) (write-off k.mem child p (k.mem p) away);
  child_copied =
      ap (λ c. with_next null (with_eax 0 c)) here
      ∙ ap (with_eax 0) (kept child)
      ∙ ap (λ c. with_next null (with_eax 0 c)) origin;
}
  where
    away : (p == child) ≡ false
    away = ground arith

    m' : Store
    m' = write k'.mem p (returning 1 (k'.mem p))

    here : answered p child k'.mem child ≡ returning 0 (k'.mem child)
    here =
        write-at m' child (returning 0 (m' child))
        ∙ ap (returning 0) (write-off k'.mem p child _ apart)

    origin : write k.mem child (k.mem p) child ≡ k.mem p
    origin = write-at k.mem child (k.mem p)

module _ (image : Image) (s : Scheduler) (c : Contract image s) (k : Kernel) (p : Ptr)
    (may : (k.mem p).range ≢ 0) (more : k.idx_reserve ≢ 0) (busy : context_is_idle image p ≡ false)
    (v : IsOnScreen k.screen) (r : c.Running p k) where
  abbrev child : Ptr
  child = spare image k

  np : p ≢ null
  np = c.not_null p k r

  nc : child ≢ null
  nc = (c.spares p k more r).0

  apart : (child == p) ≡ false
  apart = (c.spares p k more r).1

  abbrev cleared : Store
  cleared = write k.mem child (record (k.mem child) { range = 0 })

  copied-same : write cleared child (cleared p) ≡ write k.mem child (k.mem p)
  copied-same =
      write-twice k.mem child _ (cleared p)
      ∙ ap (write k.mem child) (write-off k.mem child p _ (ground (arith, apart)))

  -- A context that is not the idle one and has a range that is not 0 calls `dup_thread` while it has
  -- the processor and the reserve is not used up. Then, with a scheduler that keeps the contract, the
  -- call returns to the caller with 1, with the scheduler's data sound; one context of the reserve is
  -- taken, and it is a new thread whose call returns 0 and which is a copy of the caller: the registers
  -- but `eax`, the frame, the memory of the task, the dates, the priority, and the pid and the range
  -- too. Of the caller only `eax` and its link in a queue change.
  pub dup_thread_handler-Duplicated :
      Returns (λ k'. IsUser image s c k' × Duplicated k p child k') (dup_thread_handler image s p k)
  unfolding dup_thread_handler take_reserve copy_context
  dup_thread_handler-Duplicated =
      rw
        (
          load-ok p k.mem np,
          can,
          left,
          load-ok child k.mem nc,
          store-ok child (record (k.mem child) { range = 0 }) k.mem nc,
          load-ok p cleared np,
          store-ok child (cleared p) cleared nc,
          copied-same,
        )
        (bind (c.duplicates p k (k.mem p) more busy refl r) λ k' (runs, same, one_less, kept).
          let m' = write k'.mem p (returning 1 (k'.mem p)) in
          rw
            (
              set_return1-ok image s p 1 k'.mem np,
              set_return1-ok image s child 0 m' nc,
              hw_context_switch_no_idle-ok p (record k' { mem = answered p child k'.mem }) np,
            )
            (returns (
              record {
                runs =
                    c.stable p _ _
                      (record {
                        mem = refl;
                        ready_heap = refl;
                        waiting_heap = refl;
                        current = refl;
                        idx_reserve = refl;
                      })
                      (c.kept p child (record k' { mem = m' }) (returning 0 (m' child)) refl
                        (c.kept p p k' (returning 1 (k'.mem p)) refl runs));
                saved_in = refl;
                screen = subst (λ t. IsOnScreen t) (sym same) v;
              },
              answered-Duplicated k k' p child apart one_less kept,
            )))
    where
      can : ((k.mem p).range == 0) ≡ false
      can = ground arith

      left : (k.idx_reserve == 0) ≡ false
      left = ground arith

abbrev pub not_enough : List ℕ
not_enough = codes "Not enough ctx in reserve\n"

fatal-not_enough : {A : Type 0} → fatal {A = A} 0 not_enough [] ≡ halt not_enough
unfolding fatal
fatal-not_enough = refl

-- With no context left in reserve the machine stops, with the message that says so.
pub dup_thread_handler-halt :
    (image : Image) (s : Scheduler) (p : Ptr) (k : Kernel)
    → p ≢ null
    → (k.mem p).range ≢ 0
    → k.idx_reserve ≡ 0
    → dup_thread_handler image s p k ≡ halt not_enough
unfolding dup_thread_handler take_reserve
dup_thread_handler-halt image s p k np may none =
    rw (load-ok p k.mem np, can, empty, fatal-not_enough) refl
  where
    can : ((k.mem p).range == 0) ≡ false
    can = ground arith

    empty : (k.idx_reserve == 0) ≡ true
    empty = ground arith
