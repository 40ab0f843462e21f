-- ===== src/Handlers/Boot.antt =====
-- From the start of the kernel to the first user context (educrtos/high_level.c: high_level_init,
-- boot), with any scheduler that can start.
use mathlib.Core.Path.{subst}
use rtas2021_artifact.Base.{
  ℕ, zero, suc, ◌+◌, ◌≡◌, refl, ◌≢◌, true, arith, ltb, Run, Returns, returns, bind, sym, ◌∙◌,
}
use rtas2021_artifact.Store.{Ptr, null, Store}
use rtas2021_artifact.Queue.Chain.{load-ok, set_next-ok}
use rtas2021_artifact.Image.{Image, reserve_at}
use rtas2021_artifact.Image.Reserve.{reserve_at-not_null}
use rtas2021_artifact.Image.Tasks.{task_at-ok}
use rtas2021_artifact.Kernel.{Kernel, Scheduler}
use rtas2021_artifact.Terminal.Bounds.{IsOnScreen, terminal_write-IsOnScreen}
use rtas2021_artifact.Contract.{Contract, IsFresh, CanStart}
use rtas2021_artifact.HighLevel.{
  init_tasks, init_reserve_from, init_reserve, init_idle, high_level_init, boot,
}
use rtas2021_artifact.Handlers.Entry.{IsUser, switch-IsUser, store-ok}

-- The code returns.
abbrev IsTotal : {A : Type 0} → Run A → Type 0
IsTotal r = Returns (λ _. Unit {0}) r

module _ (image : Image) (s : Scheduler) (c : Contract image s) (can : CanStart image s c) where
  init_tasks-IsTotal :
      (rounds i : ℕ) (m : Store)
      → i + rounds ≡ image.nb_tasks
      → IsTotal (init_tasks image s rounds i m)
  unfolding init_tasks
  init_tasks-IsTotal zero i m e = returns tt
  init_tasks-IsTotal (suc rounds) i m e =
      let (t, at, read) = task_at-ok image i can.tasks (omega arith) in
      let nt = can.tasks.not_null i t at in
      rw (within, read, load-ok t.context m nt, store-ok t.context _ m nt)
        (init_tasks-IsTotal rounds (i + 1) _ (omega arith))
    where
      within : ltb i image.nb_tasks ≡ true
      within = ground arith

  init_reserve_from-IsTotal :
      (rounds i : ℕ) (m : Store) → IsTotal (init_reserve_from image s rounds i m)
  unfolding init_reserve_from
  init_reserve_from-IsTotal zero i m = returns tt
  init_reserve_from-IsTotal (suc rounds) i m =
      let (t, at, read) = task_at-ok image 0 can.tasks can.tasks.some_task in
      rw (read, load-ok at_i m ni, store-ok at_i _ m ni, set_next-ok at_i _ _ ni)
        (init_reserve_from-IsTotal rounds (i + 1) _)
    where
      at_i : Ptr
      at_i = reserve_at image i

      ni : at_i ≢ null
      ni = reserve_at-not_null image i can.reserve

  init_idle-IsTotal : (m : Store) → IsTotal (init_idle image s m)
  unfolding init_idle
  init_idle-IsTotal m =
      rw (load-ok image.idle_ctx_array m can.idle, store-ok image.idle_ctx_array _ m can.idle)
        (returns tt)

  -- What `scheduler_init` does for any memory, the initialisation does.
  pub high_level_init-Returns :
      (Q : Kernel → Type 0) (k : Kernel)
      → ((m : Store) → Returns Q (s.scheduler_init (record k { mem = m })))
      → Returns Q (high_level_init image s k)
  unfolding high_level_init init_reserve
  high_level_init-Returns Q k starts =
      bind (init_tasks-IsTotal image.nb_tasks 0 k.mem (omega arith)) λ m _.
        bind (init_reserve_from-IsTotal 10 0 m)
          λ m' _. bind (init_idle-IsTotal m') λ m'' _. starts m''

  -- The initialisation returns with sound data.
  high_level_init-Between :
      (k : Kernel)
      → IsFresh image k
      → Returns (λ k'. c.Between k' × (k'.screen ≡ k.screen)) (high_level_init image s k)
  high_level_init-Between k fresh =
      high_level_init-Returns _ k
        λ m. can.starts (record k { mem = m }) (record { few = fresh.few; room = fresh.room })

  -- With a scheduler that can start, `boot` leads from any kernel whose cursor is on the screen to a
  -- user context: no assertion fails, no access is out of bounds, and the scheduler's data, the place
  -- where registers are saved and the cursor are sound.
  pub boot-IsUser :
      (k : Kernel)
      → IsFresh image k
      → IsOnScreen k.screen
      → Returns (IsUser image s c) (boot image s k)
  unfolding boot
  boot-IsUser k fresh v = bind (high_level_init-Between k fresh) λ k' (between, same).
      bind (c.chooses k' between) λ (q, k'') (next, same').
        bind (terminal_write-IsOnScreen _ k''.screen (subst IsOnScreen (sym (same' ∙ same)) v))
          λ screen v'.
            switch-IsUser image s c q (record k'' { screen = screen }) v'
              (c.stable q k'' _
                (record {
                  mem = refl;
                  ready_heap = refl;
                  waiting_heap = refl;
                  current = refl;
                  idx_reserve = refl;
                })
                next)
