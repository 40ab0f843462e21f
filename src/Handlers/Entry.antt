-- ===== src/Handlers/Entry.antt =====
-- What it means that a task runs, the switch to a context, and the way into the kernel
-- (educrtos/low_level.c).
use rtas2021_artifact.Base.{◌+◌, ◌-◌, ◌^◌, ◌≡◌, refl, ap, ◌≢◌, arith, ok, Returns, returns}
use rtas2021_artifact.Bits.{u16, u32}
use rtas2021_artifact.Segment.{create_code_descriptor, create_data_descriptor}
use rtas2021_artifact.Store.{
  Ptr, null, Context, Store, store, write, Pusha, InterPrivilegeInterruptFrame,
}
use rtas2021_artifact.Store.Write.{write-at}
use rtas2021_artifact.Queue.Chain.{load-ok}
use rtas2021_artifact.Image.{Image}
use rtas2021_artifact.Kernel.{Kernel, Scheduler}
use rtas2021_artifact.Terminal.Bounds.{IsOnScreen}
use rtas2021_artifact.LowLevel.{
  hw_context_switch, hw_context_switch_no_idle, interrupt_prologue, pusha_size, frame_size,
}
use rtas2021_artifact.Contract.{Contract}

-- The kernel after the switch to `ctx`.
abbrev pub switched : Ptr → Kernel → Kernel
switched ctx k =
    let hw = (k.mem ctx).hw_context in
    record k {
      system_gdt = record k.system_gdt {
        user_code = create_code_descriptor hw.start_address hw.memsize 3 0 1 0 1 1;
        user_data = create_data_descriptor hw.start_address hw.memsize 3 0 1 0 1 1;
      };
      processor = record k.processor {
        esp0 = u32 (ctx + pusha_size + frame_size);
        ds = u16 hw.iframe.ss;
        running = ctx;
      };
    }

pub hw_context_switch_no_idle-ok :
    (ctx : Ptr) (k : Kernel) → ctx ≢ null → hw_context_switch_no_idle ctx k ≡ ok (switched ctx k)
unfolding hw_context_switch_no_idle
hw_context_switch_no_idle-ok ctx k h = rw (load-ok ctx k.mem h)

pub store-ok : (p : Ptr) (c : Context) (m : Store) → p ≢ null → store p c m ≡ ok (write m p c)
unfolding store
store-ok p c m h = ground arith

module _ (image : Image) (s : Scheduler) (c : Contract image s) where
  -- A user context runs: the scheduler knows it, the next interrupt saves its registers into it,
  -- and the cursor is on the screen.
  pub record IsUser (k : Kernel) : Type 0 where
    pub runs : c.Running k.processor.running k
    pub saved_in : k.processor.esp0 ≡ u32 (k.processor.running + pusha_size + frame_size)
    pub screen : IsOnScreen k.screen

  pub switch_no_idle-IsUser :
      (p : Ptr) (k : Kernel)
      → IsOnScreen k.screen
      → c.Running p k
      → Returns IsUser (hw_context_switch_no_idle p k)
  switch_no_idle-IsUser p k v r = rw (hw_context_switch_no_idle-ok p k (c.not_null p k r)) (
      returns (record {
        runs =
            c.stable p k (switched p k)
              (record {
                mem = refl;
                ready_heap = refl;
                waiting_heap = refl;
                current = refl;
                idx_reserve = refl;
              })
              r;
        saved_in = refl;
        screen = v;
      }))

  pub switch-IsUser :
      (p : Ptr) (k : Kernel)
      → IsOnScreen k.screen
      → c.Running p k
      → Returns IsUser (hw_context_switch p k)
  unfolding hw_context_switch
  switch-IsUser p k v r = switch_no_idle-IsUser p k v r

  -- The kernel behind the prologue: `ctx` is the context that ran, with its registers in it.
  pub record Entered (regs : Pusha) (frame : InterPrivilegeInterruptFrame) (k : Kernel)
      (r : Ptr × Kernel) : Type 0 where
    pub ran : r.0 ≡ k.processor.running
    pub runs : c.Running r.0 r.1
    pub screen : IsOnScreen r.1.screen
    pub regs_saved : (r.1.mem r.0).hw_context.regs ≡ regs
    pub frame_saved : (r.1.mem r.0).hw_context.iframe ≡ frame
    pub range_kept : (r.1.mem r.0).range ≡ (k.mem r.0).range
    pub reserve_kept : r.1.idx_reserve ≡ k.idx_reserve

  pub interrupt_prologue-Entered :
      (regs : Pusha) (frame : InterPrivilegeInterruptFrame) (k : Kernel)
      → IsUser k
      → Returns (Entered regs frame k) (interrupt_prologue regs frame k)
  unfolding interrupt_prologue
  interrupt_prologue-Entered regs frame k u =
      rw (found, load-ok p k.mem np, store-ok p saved k.mem np)
        (returns (record {
          ran = refl;
          runs =
              c.stable p (record k { mem = write k.mem p saved }) _
                (record {
                  mem = refl;
                  ready_heap = refl;
                  waiting_heap = refl;
                  current = refl;
                  idx_reserve = refl;
                })
                (c.kept p p k saved refl u.runs);
          screen = u.screen;
          regs_saved = ap (λ d. d.hw_context.regs) (write-at k.mem p saved);
          frame_saved = ap (λ d. d.hw_context.iframe) (write-at k.mem p saved);
          range_kept = ap (λ d. d.range) (write-at k.mem p saved);
          reserve_kept = refl;
        }))
    where
      p : Ptr
      p = k.processor.running

      np : p ≢ null
      np = c.not_null p k u.runs

      saved : Context
      saved = record (k.mem p) {
        hw_context = record (k.mem p).hw_context { regs = regs; iframe = frame };
      }

      found : u32 (k.processor.esp0 + 2 ^ 32 - frame_size - pusha_size) ≡ p
      found = omega (arith, u.saved_in, c.address p k u.runs)
