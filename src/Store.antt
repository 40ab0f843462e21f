-- ===== src/Store.antt =====
-- The contexts of the tasks and the memory that holds them: `struct context` of
-- educrtos/high_level.h with the parts that educrtos/low_level.h and educrtos/scheduler.h declare.
-- A pointer to a context is its address. Every address but 0 can be read and written (the kernel's
-- segments are flat), and distinct contexts do not overlap.
pub mod Write
use rtas2021_artifact.Base.{ℕ, false, Run, ok, fault, ◌>>=◌, ◌≡◌, ◌==◌, if◌then◌else◌, List, has}

abbrev pub Ptr : Type 0
Ptr = ℕ

abbrev pub null : Ptr
null = 0

-- The registers that `pusha` saves.
pub record Pusha : Type 0 where
  pub edi : ℕ
  pub esi : ℕ
  pub ebp : ℕ
  pub esp : ℕ
  pub ebx : ℕ
  pub edx : ℕ
  pub ecx : ℕ
  pub eax : ℕ

-- What an interrupt from privilege level 3 pushes.
pub record InterPrivilegeInterruptFrame : Type 0 where
  pub eip : ℕ
  pub cs : ℕ
  pub flags : ℕ
  pub esp : ℕ
  pub ss : ℕ

-- `struct hw_context` under DYNAMIC_DESCRIPTORS.
pub record HwContext : Type 0 where
  pub regs : Pusha
  pub iframe : InterPrivilegeInterruptFrame
  pub start_address : ℕ
  pub memsize : ℕ

-- `struct scheduling_context`, with the fields of every scheduler.
pub record SchedulingContext : Type 0 where
  pub wakeup_date : ℕ
  pub deadline : ℕ
  pub priority : ℕ
  pub next : Ptr

pub record Context : Type 0 where
  pub hw_context : HwContext
  pub sched_context : SchedulingContext
  pub pid : ℕ
  pub range : ℕ

abbrev pub Store : Type 0
Store = Ptr → Context

-- `ctx->sched_context.next`, and the context after `ctx->sched_context.next = q`.
abbrev pub next_of : Context → Ptr
next_of c = c.sched_context.next

abbrev pub with_next : Ptr → Context → Context
with_next q c = record c { sched_context = record c.sched_context { next = q } }

abbrev pub with_priority : ℕ → Context → Context
with_priority n c = record c { sched_context = record c.sched_context { priority = n } }

unfoldable pub write : Store → Ptr → Context → Store
write m p c a = if a == p then c else m a

-- `*p` and `*p = c`, which fault at the null pointer.
unfoldable pub load : Ptr → Store → Run Context
load p m = if p == null then fault else ok (m p)

unfoldable pub store : Ptr → Context → Store → Run Store
store p c m = if p == null then fault else ok (write m p c)

-- `p->sched_context.next = q`.
unfoldable pub set_next : Ptr → Ptr → Store → Run Store
unfolding load store
set_next p q m = do c ← load p m; store p (with_next q c) m

-- The stores differ at most at the addresses of `xs`.
abbrev pub SameOutside : List Ptr → Store → Store → Type 0
SameOutside xs m m' = (a : Ptr) → has a xs ≡ false → m' a ≡ m a

-- The stores differ at most in the `next` fields.
abbrev pub SameButNext : Store → Store → Type 0
SameButNext m m' = (a : Ptr) → with_next null (m' a) ≡ with_next null (m a)
