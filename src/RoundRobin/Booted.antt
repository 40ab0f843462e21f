-- ===== src/RoundRobin/Booted.antt =====
-- The ring behind `boot` of educrtos/high_level.c, with educrtos/round_robin_scheduler.c.
use mathlib.Core.Path.{subst}
use rtas2021_artifact.Base.{◌≡◌, ◌≢◌, ap, sym, ◌∙◌, Returns, returns, bind, weaken}
use rtas2021_artifact.Store.{null}
use rtas2021_artifact.Image.{Image}
use rtas2021_artifact.Image.Reserve.{HasReserve}
use rtas2021_artifact.Image.Tasks.{HasTasks}
use rtas2021_artifact.Kernel.{Kernel}
use rtas2021_artifact.Terminal.Bounds.{IsOnScreen, terminal_write-IsOnScreen}
use rtas2021_artifact.LowLevel.{hw_context_switch}
use rtas2021_artifact.HighLevel.{boot}
use rtas2021_artifact.Handlers.Entry.{hw_context_switch_no_idle-ok}
use rtas2021_artifact.Handlers.Boot.{high_level_init-Returns}
use rtas2021_artifact.RoundRobin.{round_robin_scheduler}
use rtas2021_artifact.RoundRobin.Links.{context_of, c-not_null}
use rtas2021_artifact.RoundRobin.Sound.{round_robin_contract, round_robin_starts}
use rtas2021_artifact.RoundRobin.Turns.{
  IsTurn, behind, behind_within, init-IsTurn, choose_next-IsTurn,
}

-- The tasks are linked to a ring, each to the next one and the last to the first, and the task behind
-- the first, or the only one, runs, as it is its turn.
pub record IsFirstTurn (image : Image) (tasks : HasTasks image) (k : Kernel) : Type 0 where
  pub turn : IsTurn image tasks (behind image tasks 0) k
  pub runs : k.processor.running ≡ context_of image (behind image tasks 0)

module _ (image : Image) (reserve : HasReserve image) (tasks : HasTasks image)
    (idle : image.idle_ctx_array ≢ null) where
  pub boot-IsFirstTurn :
      (k : Kernel)
      → IsOnScreen k.screen
      → Returns (IsFirstTurn image tasks) (boot image (round_robin_scheduler image) k)
  unfolding boot hw_context_switch
  boot-IsFirstTurn k v =
      bind
        (high_level_init-Returns image (round_robin_scheduler image)
          (round_robin_contract image reserve) (round_robin_starts image reserve tasks idle)
          (λ k'. IsTurn image tasks 0 k' × (k'.screen ≡ k.screen)) k
          (λ m.
            weaken (init-IsTurn image tasks (record k { mem = m }))
              λ k' (turn, kept). (turn, ap (λ j. j.screen) kept)))
        λ k' (turn, same).
          bind (choose_next-IsTurn image tasks 0 k' turn) λ (q, k'') (at, turn', same').
            bind (terminal_write-IsOnScreen _ k''.screen (subst IsOnScreen (sym (same' ∙ same)) v))
              λ screen v'.
                let nq : q ≢ null = λ e.
                  c-not_null image tasks (behind image tasks 0)
                    (behind_within image tasks 0 turn.within) (sym at ∙ e) in
                rw (hw_context_switch_no_idle-ok q (record k'' { screen = screen }) nq) (
                  returns (record {
                    turn = record { within = turn'.within; here = turn'.here; round = turn'.round };
                    runs = at;
                  }))
