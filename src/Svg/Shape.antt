-- ===== src/Svg/Shape.antt =====
-- makeSvgShape of cpp/svgbuilder.cpp.
use edmcoverlay_for_linux.Base.{
  Result, ok, thrown, ℕ, ◌+◌, ◌-◌, ◌%◌, ◌^◌, ltb, ◌&&◌, not, some, [], ◌++◌, if◌then◌else◌,
}
use edmcoverlay_for_linux.Base.Int.{ℤ, pos, negsuc, pos_part, neg_part, ◌+ℤ◌, ◌-ℤ◌}
use edmcoverlay_for_linux.Base.Text.{Bytes, codes, int_to_string, bytes_eq}
use edmcoverlay_for_linux.Json.{Json}
use edmcoverlay_for_linux.Draw.{Item, Mode, new_item}
use edmcoverlay_for_linux.Draw.Vector.{
  Marker, is_cross, is_circle, has_text, for_each_vector_points_pair,
}
use edmcoverlay_for_linux.Svg.TextTags.{Renderer, make_svg_text_multiline}

-- An int that takes a result wider than it; where the result does not fit, the source overflows.
unfoldable pub wrap_int : ℤ → ℤ
wrap_int z =
    let m = (pos_part z % 2 ^ 32 + 2 ^ 32 - neg_part z % 2 ^ 32) % 2 ^ 32 in
    if ltb m (2 ^ 31) then pos m else negsuc (2 ^ 32 - 1 - m)

abbrev pub k_marker_half_size : ℤ
k_marker_half_size = pos 4

-- drawLineWithColor
unfoldable pub draw_line_with_color : Bytes → ℤ → ℤ → ℤ → ℤ → Bytes → Bytes
draw_line_with_color color x1 y1 x2 y2 out =
    out
    ++ (codes "<line x1='"
        ++ int_to_string x1
        ++ codes "' y1='"
        ++ int_to_string y1
        ++ codes "' x2='"
        ++ int_to_string x2
        ++ codes "' y2='"
        ++ int_to_string y2
        ++ codes "' stroke='"
        ++ color
        ++ codes "' stroke-width='1'/>")

unfoldable pub draw_circle : Marker → Bytes → Bytes
draw_circle m out =
    out
    ++ (codes "<circle cx='"
        ++ int_to_string m.x
        ++ codes "' cy='"
        ++ int_to_string m.y
        ++ codes "' r='4' fill='none' stroke='"
        ++ m.color
        ++ codes "' stroke-width='1' />")

unfoldable pub draw_cross : Marker → Bytes → Bytes
unfolding draw_line_with_color wrap_int
draw_cross m out =
    let left = wrap_int (m.x -ℤ k_marker_half_size) in
    let right = wrap_int (m.x +ℤ k_marker_half_size) in
    let top = wrap_int (m.y -ℤ k_marker_half_size) in
    let bottom = wrap_int (m.y +ℤ k_marker_half_size) in
    draw_line_with_color m.color left bottom right top
      (draw_line_with_color m.color left top right bottom out)

module _ (J : Json) (R : Renderer) where
  open J use {Node}

  -- textTask
  unfoldable pub marker_text : Marker → ℕ → Item Node
  unfolding wrap_int
  marker_text m size = record (new_item J.null 0) {
    drawmode = Mode.text;
    x = wrap_int (wrap_int (m.x +ℤ k_marker_half_size) +ℤ pos 1);
    y = wrap_int (m.y -ℤ pos 0);
    color = m.color;
    text = record { text = m.text; size = []; font_size = some size };
  }

  -- drawMarker
  unfoldable pub draw_marker : Marker → ℕ → Bytes → Bytes
  unfolding draw_circle draw_cross marker_text is_circle is_cross has_text make_svg_text_multiline
  draw_marker m size out =
      let circled = if is_circle m then draw_circle m out else out in
      let crossed = if is_cross m then draw_cross m circled else circled in
      if has_text m then make_svg_text_multiline R (marker_text m size) crossed else crossed

  unfoldable pub draw_rect : Item Node → Bytes → Bytes
  draw_rect task out =
      out
      ++ (codes "<rect x='"
          ++ int_to_string task.x
          ++ codes "' y='"
          ++ int_to_string task.y
          ++ codes "' width='"
          ++ int_to_string task.shape.w
          ++ codes "' height='"
          ++ int_to_string task.shape.h
          ++ codes "' fill='none' stroke='"
          ++ task.color
          ++ codes "' stroke-width='1' />")

  unfoldable pub make_svg_shape : Item Node → Bytes → Result Bytes
  unfolding for_each_vector_points_pair draw_line_with_color draw_marker draw_rect
  make_svg_shape task out =
      elim (for_each_vector_points_pair J task (draw_line_with_color task.color) draw_marker out) [
        | thrown e ↦ thrown e
        | ok (had_vec, drawn) ↦ ok (
            if not had_vec && bytes_eq task.shape.shape (codes "rect")
            then draw_rect task drawn
            else drawn)
      ]
