-- ===== src/Main/Screen.antt =====
-- What the screen shows after a round of the loop of cpp/main.cpp.
use edmcoverlay_for_linux.Base.{
  ℕ, suc, ◌≡◌, refl, ap, sym, ◌∙◌, inl, inr, Bool, true, false, not, ◌&&◌, ◌||◌, List, [], ◌∷◌,
  ◌++◌, map, if◌then◌else◌, arith, Bool-cases, append_assoc, append-nil,
}
use edmcoverlay_for_linux.Base.Text.{Bytes}
use edmcoverlay_for_linux.Base.Map.{Map}
use edmcoverlay_for_linux.Draw.{Item, set_already_rendered}
use edmcoverlay_for_linux.Main.{
  Loop, Pass, Action, run_command, erase_loop, draw_frame, process_frame, rendered, redraw,
}

-- The loop shows the layer.
abbrev pub visible : Loop → Bool
visible s = s.target_app_active && not s.command_hide_layer

module _ {N : Type 0} where
  -- The drawables on the window after the calls, given those before.
  unfoldable pub run_actions : List (Action N) → List (Item N) → List (Item N)
  run_actions [] screen = screen
  run_actions (Action.clean_frame ∷ calls) screen = run_actions calls []
  run_actions (Action.flush_frame ∷ calls) screen = run_actions calls screen
  run_actions (Action.draw i ∷ calls) screen = run_actions calls (screen ++ (i ∷ []))

  abbrev pub all_rendered : Map (Item N) → Bool
  all_rendered [] = true
  all_rendered ((key, i) ∷ rest) = i.already_rendered && all_rendered rest

  -- The drawables as data, whatever their marks.
  abbrev pub pictures : Map (Item N) → List (Item N)
  pictures draws = map (λ (e : Bytes × Item N). set_already_rendered e.1) draws

  abbrev pub on_window : List (Item N) → List (Item N)
  on_window screen = map (λ (i : Item N). set_already_rendered i) screen

  -- A hidden window is empty; one that is not shows all drawables if all have their marks.
  abbrev pub IsInSync : Loop → Map (Item N) → List (Item N) → Type 0
  IsInSync s draws screen =
      (s.window_was_hidden ≡ true → screen ≡ [])
      × (s.window_was_hidden ≡ false
          → all_rendered draws ≡ true
          → on_window screen ≡ pictures draws)

  -- The window shows exactly the drawables, all of them marked, or is hidden and empty.
  abbrev pub IsShown : Loop → Map (Item N) → List (Item N) → Type 0
  IsShown s draws screen =
      if s.window_was_hidden
      then screen ≡ []
      else (on_window screen ≡ pictures draws) × (all_rendered draws ≡ true)

  run_actions-draws :
      (draws : Map (Item N)) (screen : List (Item N))
      → run_actions
          (map (λ (e : Bytes × Item N). Action.draw e.1) draws ++ (Action.flush_frame ∷ []))
          screen
        ≡ screen ++ map (λ (e : Bytes × Item N). e.1) draws
  unfolding run_actions
  run_actions-draws [] screen = sym (append-nil screen)
  run_actions-draws ((key, i) ∷ draws) screen =
      run_actions-draws draws (screen ++ (i ∷ []))
      ∙ append_assoc screen (i ∷ []) (map (λ (e : Bytes × Item N). e.1) draws)

  redrawn :
      (draws : Map (Item N)) (screen : List (Item N))
      → run_actions (redraw draws) screen ≡ map (λ (e : Bytes × Item N). e.1) draws
  unfolding run_actions
  redrawn draws screen = run_actions-draws draws []

  all_rendered-rendered : (draws : Map (Item N)) → all_rendered (map rendered draws) ≡ true
  unfolding set_already_rendered
  all_rendered-rendered [] = refl
  all_rendered-rendered (e ∷ draws) = all_rendered-rendered draws

  pictures-rendered :
      (draws : Map (Item N))
      → on_window (map (λ (e : Bytes × Item N). e.1) draws) ≡ pictures (map rendered draws)
  unfolding set_already_rendered
  pictures-rendered [] = refl
  pictures-rendered ((key, i) ∷ draws) = ap (◌∷◌ (set_already_rendered i)) (pictures-rendered draws)

  -- A pass that says that the frame may be skipped has taken nothing out, and met only marks.
  skipped :
      (clock : ℕ → ℕ) (n : ℕ) (draws : Map (Item N)) (s : Loop) (skip : Bool)
      → (erase_loop clock n draws s skip).skip_render ≡ true
      → ((erase_loop clock n draws s skip).left ≡ draws)
        × ((erase_loop clock n draws s skip).loop ≡ s)
        × (all_rendered draws ≡ true)
        × (skip ≡ true)
  unfolding erase_loop
  skipped clock n [] s skip h = (refl, refl, refl, h)
  skipped clock n ((key, i) ∷ rest) s skip h = ground (
    arith,
    skipped clock (suc n) rest (run_command i.command s).0 false,
    skipped clock (suc n) rest s false,
    skipped clock (suc n) rest s (skip && i.already_rendered),
  )

  -- The commands leave this variable alone.
  erase_loop-hidden :
      (clock : ℕ → ℕ) (n : ℕ) (draws : Map (Item N)) (s : Loop) (skip : Bool)
      → (erase_loop clock n draws s skip).loop.window_was_hidden ≡ s.window_was_hidden
  unfolding erase_loop run_command
  erase_loop-hidden clock n [] s skip = refl
  erase_loop-hidden clock n ((key, i) ∷ rest) s skip = ground (
    arith,
    erase_loop-hidden clock (suc n) rest (run_command i.command s).0 false,
    erase_loop-hidden clock (suc n) rest s false,
    erase_loop-hidden clock (suc n) rest s (skip && i.already_rendered),
  )

  draw_frame-IsShown :
      (p : Pass N) (screen : List (Item N))
      → (p.loop.window_was_hidden ≡ true → screen ≡ [])
      → (p.loop.window_was_hidden ≡ false
          → p.skip_render ≡ true
          → (on_window screen ≡ pictures p.left) × (all_rendered p.left ≡ true))
      → IsShown (draw_frame p).0 (draw_frame p).1 (run_actions (draw_frame p).2 screen)
  unfolding draw_frame run_actions
  draw_frame-IsShown p screen hidden shown = elim (Bool-cases (visible p.loop)) [
    | inl on ↦ elim (Bool-cases (not p.skip_render || p.loop.window_was_hidden)) [
      | inl anew ↦
          rw (on, anew, run_actions-draws p.left [])
            (pictures-rendered p.left, all_rendered-rendered p.left)
      | inr same ↦ rw (on, same) (shown (ground arith) (ground arith))
    ]
    | inr off ↦ elim (Bool-cases p.loop.window_was_hidden) [
      | inl was ↦ rw (off, was) (hidden was)
      | inr fresh ↦ rw (off, fresh) refl
    ]
  ]

  -- A round keeps the window in step with the drawables: if the window was empty while hidden, and
  -- showed all drawables whenever all had their marks, then after the round it is hidden and empty
  -- or shows exactly the drawables that are left.
  pub process_frame-IsShown :
      (clock : ℕ → ℕ) (draws : Map (Item N)) (s : Loop) (screen : List (Item N))
      → IsInSync s draws screen
      → IsShown
          (process_frame clock draws s).0
          (process_frame clock draws s).1
          (run_actions (process_frame clock draws s).2 screen)
  unfolding process_frame
  process_frame-IsShown clock draws s screen (hidden, shown) =
      let p = erase_loop clock 0 draws s true in
      let kept = erase_loop-hidden clock 0 draws s true in
      draw_frame-IsShown p screen (λ h. hidden (sym kept ∙ h))
        (λ h skip.
          let (left, loop, marks, _) = skipped clock 0 draws s true skip in
          (shown (sym kept ∙ h) marks ∙ ap pictures (sym left), ap all_rendered left ∙ marks))
