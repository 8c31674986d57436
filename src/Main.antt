-- ===== src/Main.antt =====
-- The loop of cpp/main.cpp: it runs the commands, takes out what has expired, and redraws the
-- overlay when something changed.
pub mod Left
pub mod Screen
pub mod Runs
pub mod Start
use edmcoverlay_for_linux.Base.{
  ℕ, zero, suc, ◌+◌, ◌%◌, ◌^◌, Bool, true, false, not, ◌&&◌, ◌||◌, Option, none, some, List, [],
  ◌∷◌, ◌++◌, map, if◌then◌else◌, ltb, ◌==◌, is_empty,
}
use edmcoverlay_for_linux.Base.Text.{Bytes, codes, bytes_eq}
use edmcoverlay_for_linux.Base.Map.{Map}
use edmcoverlay_for_linux.Strutils.{strcontains}
use edmcoverlay_for_linux.Draw.{Item, is_command, is_expired, set_already_rendered}

-- The variables of the loop; `accepting` tells that serverAcceptThread holds a thread.
pub record Loop : Type 0 where
  pub last_check_time : ℕ
  pub transparency_checks_counter : ℕ
  pub target_app_active : Bool
  pub command_hide_layer : Bool
  pub window_was_hidden : Bool
  pub accepting : Bool

-- The calls of XOverlayOutput.
pub data Action (N : Type 0) : Type 0 where
  clean_frame flush_frame : Action N
  draw : Item N → Action N

-- The callback of a command, if there is one, and what it returns: whether to leave the loop over
-- the drawables.
unfoldable pub run_command : Bytes → Loop → Loop × Bool
run_command command s =
    if bytes_eq command (codes "exit")
    then (record s { accepting = false; target_app_active = false }, true)
    else if bytes_eq command (codes "overlay_on")
    then (record s { command_hide_layer = false }, false)
    else if bytes_eq command (codes "overlay_off")
    then (record s { command_hide_layer = true }, false)
    else (s, false)

-- What the checks of the environment answer in one round: the clock before and in the branch, the
-- path of the focused program, and isTransparencyAvail before and after the pause.
pub record Checks : Type 0 where
  pub now : ℕ
  pub later : ℕ
  pub focused : Bytes
  pub transparent : Bool
  pub transparent_later : Bool

-- kAppActivityCheck, 1500 ms
abbrev pub k_app_activity_check : ℕ
k_app_activity_check = 1_500_000_000

-- The part of a round before the lock, and whether it leaves the loop.
unfoldable pub check_activity : Bytes → Checks → Loop → Loop × Bool
unfolding strcontains
check_activity program_name c s =
    if ltb (s.last_check_time + k_app_activity_check) c.now
    then (
      record s {
        transparency_checks_counter = (s.transparency_checks_counter + 1) % 2 ^ 64;
        last_check_time = c.later;
        target_app_active = is_empty program_name || strcontains c.focused program_name;
      },
      (s.transparency_checks_counter + 1) % 2 ^ 64 % 5 == 0
          && not c.transparent
          && not c.transparent_later,
    )
    else (s, false)

-- The state of the loop over the drawables: what is left, the variables, and skip_render.
pub record Pass (N : Type 0) : Type 0 where
  pub left : Map (Item N)
  pub loop : Loop
  pub skip_render : Bool

module _ {N : Type 0} where
  -- `iter` moves on.
  abbrev pub kept : Bytes × Item N → Pass N → Pass N
  kept e p = record p { left = e ∷ p.left }

  -- The loop over the drawables; `clock n` is the time of its n-th round.
  unfoldable pub erase_loop : (ℕ → ℕ) → ℕ → Map (Item N) → Loop → Bool → Pass N
  unfolding run_command is_command is_expired
  erase_loop clock n [] s skip = record { left = []; loop = s; skip_render = skip }
  erase_loop clock n ((key, i) ∷ rest) s skip = elim (is_command i) [
    | true ↦
        let (s', leave) = run_command i.command s in
        let more = erase_loop clock (suc n) rest s' false in
        if leave then record { left = (key, i) ∷ rest; loop = s'; skip_render = false } else more
    | false ↦
        let erased = erase_loop clock (suc n) rest s false in
        let kept = kept (key, i) (erase_loop clock (suc n) rest s (skip && i.already_rendered)) in
        if is_expired (clock n) i.ttl then erased else kept
  ]

  -- drawitem.second.setAlreadyRendered()
  abbrev pub rendered : Bytes × Item N → Bytes × Item N
  rendered e = (e.0, set_already_rendered e.1)

  abbrev pub redraw : Map (Item N) → List (Action N)
  redraw draws =
      Action.clean_frame ∷ map (λ (e : Bytes × Item N). Action.draw e.1) draws
      ++ (Action.flush_frame ∷ [])

  -- The callable of accessContext: the variables, the drawables and the calls then.
  unfoldable pub draw_frame : Pass N → Loop × Map (Item N) × List (Action N)
  draw_frame p =
      if p.loop.target_app_active && not p.loop.command_hide_layer
      then (if not p.skip_render || p.loop.window_was_hidden
          then (record (p.loop) { window_was_hidden = false }, map rendered p.left, redraw p.left)
          else (record (p.loop) { window_was_hidden = false }, p.left, []))
      else (
        record (p.loop) { window_was_hidden = true },
        p.left,
        if not p.loop.window_was_hidden then Action.clean_frame ∷ Action.flush_frame ∷ [] else [],
      )

  unfoldable pub process_frame :
      (ℕ → ℕ) → Map (Item N) → Loop → Loop × Map (Item N) × List (Action N)
  unfolding erase_loop draw_frame
  process_frame clock all_draws s = draw_frame (erase_loop clock 0 all_draws s true)

  -- A round of the loop; `none` is the break after the transparency is lost.
  unfoldable pub round :
      Bytes
      → Checks
      → (ℕ → ℕ)
      → Map (Item N)
      → Loop
      → Option (Loop × Map (Item N) × List (Action N))
  unfolding check_activity process_frame
  round program_name c clock all_draws s =
      let (s', leave) = check_activity program_name c s in
      if leave then none else some (process_frame clock all_draws s')
