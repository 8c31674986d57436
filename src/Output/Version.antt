-- ===== src/Output/Version.antt =====
-- showVersionString of cpp/xoverlayoutput.cpp.
use edmcoverlay_for_linux.Base.{
  ℕ, ◌≡◌, refl, ◌++◌, none, Ends, Outcome-cases, inl, inr, ok, map_outcome,
}
use edmcoverlay_for_linux.Base.Int.{ℤ}
use edmcoverlay_for_linux.Base.Text.{Bytes}
use edmcoverlay_for_linux.Json.{Json}
use edmcoverlay_for_linux.Draw.{Item, is_shape_vector, mode_eq}
use edmcoverlay_for_linux.Svg.TextTags.{Renderer}
use edmcoverlay_for_linux.Svg.Build.{build_svg_task, convert_as, converted}
use edmcoverlay_for_linux.Output.{Server, Lunasvg, Screen}
use edmcoverlay_for_linux.Output.Live.{live, AreProper, GivesNewIds}
use edmcoverlay_for_linux.Output.Sound.{IsSound, new_picture}
use edmcoverlay_for_linux.Output.Freed.{draw_as_svg-destroy}
use edmcoverlay_for_linux.Output.Drawing.{draw_as_svg}
use edmcoverlay_for_linux.Output.Window.{show_version_string, version_task}

module _ (X : Server) (fresh : GivesNewIds X) {D : Type 0} (L : Lunasvg D) (J : Json)
    (R : Renderer) where
  open J use {Node}

  version_task-render :
      (width : ℤ) (now : ℕ) (version color : Bytes)
      → (task : Item Node) × (build_svg_task J R width (version_task X L J R now version color)
          ≡ ok task)
        × (task.svg.render ≡ none)
  unfolding build_svg_task convert_as converted is_shape_vector mode_eq
  version_task-render width now version color = (_, refl, refl)

  -- The version string leaves nothing on the server but the picture of the window, if that had none:
  -- the pixmap of its drawable is freed at once. The requests stay proper, provided they were.
  show_version_string-freed :
      (width : ℤ) (now : ℕ) (version color : Bytes) (s : Screen)
      → IsSound s
      → Ends
          (λ s'. (live s'.requests ≡ new_picture s s' ++ live s.requests) × AreProper s'.requests)
          (show_version_string X L J R width now version color s)
  unfolding show_version_string map_outcome
  show_version_string-freed width now version color s sound =
      let (task, built, first) = version_task-render width now version color in
      elim (Outcome-cases (draw_as_svg X L task s)) [
        | inl ((task', s'), drawn) ↦
            rw (built, Ends, drawn)
              (draw_as_svg-destroy X fresh L task task' s s' first sound drawn)
        | inr (inl bad) ↦ rw (built, Ends, bad) tt
        | inr (inr (e, bad)) ↦ rw (built, Ends, bad) tt
      ]
