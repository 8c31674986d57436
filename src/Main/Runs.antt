-- ===== src/Main/Runs.antt =====
-- Rounds of the loop of cpp/main.cpp, from its start, with the messages of clients between them.
use edmcoverlay_for_linux.Base.{ℕ, ◌≡◌, true, false, some, List, []}
use edmcoverlay_for_linux.Base.Text.{Bytes}
use edmcoverlay_for_linux.Base.Map.{Map}
use edmcoverlay_for_linux.Draw.{Item}
use edmcoverlay_for_linux.Main.{Loop, Checks, Action, round}
use edmcoverlay_for_linux.Main.Screen.{run_actions, all_rendered, pictures}

module _ {N : Type 0} where
  -- The variables, the drawables, and what is on the window, as the loop goes on. It starts without
  -- drawables. A message gives any drawables that the redraw cannot miss: where all have marks, all
  -- had them before, and show the same as before.
  pub data Runs : Loop → Map (Item N) → List (Item N) → Type 0 where
    start : (s : Loop) → s.window_was_hidden ≡ false → Runs s [] []
    looped :
        (program_name : Bytes) (c : Checks) (clock : ℕ → ℕ) {s : Loop} {draws : Map (Item N)}
        {screen : List (Item N)} (r : Loop × Map (Item N) × List (Action N))
        → Runs s draws screen
        → round program_name c clock draws s ≡ some r
        → Runs r.0 r.1 (run_actions r.2 screen)
    message :
        {s : Loop} {draws : Map (Item N)} {screen : List (Item N)} (draws' : Map (Item N))
        → Runs s draws screen
        → (all_rendered draws' ≡ true
            → (all_rendered draws ≡ true) × (pictures draws ≡ pictures draws'))
        → Runs s draws' screen
