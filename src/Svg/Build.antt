-- ===== src/Svg/Build.antt =====
-- SvgBuilder::BuildSvgTask of cpp/svgbuilder.cpp.
pub mod Built
pub mod Corner
pub mod Faults
use edmcoverlay_for_linux.Base.{
  ℕ, ◌+◌, ◌-◌, ◌*◌, ◌/◌, ◌%◌, ◌^◌, Bool, true, false, List, [], ◌∷◌, ◌++◌, if◌then◌else◌, ltb, ◌==◌,
  Result, ok, thrown, ◌>>=◌,
}
use edmcoverlay_for_linux.Base.Int.{ℤ, pos, negsuc, ◌-ℤ◌, min_ℤ, max_ℤ, pos_part, neg_part}
use edmcoverlay_for_linux.Base.Text.{Bytes, codes, int_to_string}
use edmcoverlay_for_linux.Json.{Json}
use edmcoverlay_for_linux.Draw.{Item, Mode, no_text, no_shape, is_shape_vector, shape_font_size}
use edmcoverlay_for_linux.Draw.Vector.{int_max, int_min, get_coord}
use edmcoverlay_for_linux.Svg.TextTags.{Renderer, make_svg_text_multiline}
use edmcoverlay_for_linux.Svg.Shape.{k_marker_half_size, wrap_int, make_svg_shape}

-- minX, minY, maxX and maxY
pub record Bounds : Type 0 where
  pub min_x : ℤ
  pub min_y : ℤ
  pub max_x : ℤ
  pub max_y : ℤ

abbrev pub no_bounds : Bounds
no_bounds = record { min_x = int_max; min_y = int_max; max_x = int_min; max_y = int_min }

unfoldable pub extend : ℤ → ℤ → Bounds → Bounds
extend x y b = record {
  min_x = min_ℤ b.min_x x;
  min_y = min_ℤ b.min_y y;
  max_x = max_ℤ b.max_x x;
  max_y = max_ℤ b.max_y y;
}

-- windowWidth / 4, towards zero
unfoldable pub quarter : ℤ → ℤ
quarter (pos n) = pos (n / 4)
quarter (negsuc n) = if ltb n 3 then pos 0 else negsuc ((n + 1) / 4 - 1)

module _ (J : Json) where
  open J use {Node}

  -- The loop over the points.
  unfoldable pub bounds_loop : List (Bytes × Node) → Bounds → Result Bounds
  unfolding extend get_coord
  bounds_loop [] b = ok b
  bounds_loop ((_, val) ∷ rest) b = elim (get_coord J val (codes "x")) [
    | thrown e ↦ thrown e
    | ok x ↦ elim (get_coord J val (codes "y")) [
      | thrown e ↦ thrown e
      | ok y ↦ bounds_loop rest (extend x y b)
    ]
  ]

  -- The width and the height of the picture, and its corner.
  pub record Frame : Type 0 where
    pub width : ℤ
    pub height : ℤ
    pub corner_x : ℤ
    pub corner_y : ℤ

  -- One point has room for its marker and a label.
  unfoldable pub vector_frame : ℤ → Item Node → Bounds → Frame
  unfolding quarter wrap_int
  vector_frame window_width task b =
      if J.size task.shape.vect == 1
      then record {
        width = quarter window_width;
        height = wrap_int (pos ((2 * 4 + 1 + shape_font_size task.shape + 0) % 2 ^ 32));
        corner_x = wrap_int (b.min_x -ℤ pos 5);
        corner_y = wrap_int (b.min_y -ℤ pos 5);
      }
      else record {
        width = wrap_int (b.max_x -ℤ b.min_x);
        height = wrap_int (b.max_y -ℤ b.min_y);
        corner_x = b.min_x;
        corner_y = b.min_y;
      }

  -- The <g> that moves the corner to 0;0
  unfoldable pub moved : ℤ → ℤ → Bytes
  unfolding wrap_int
  moved x y =
      codes "<g transform='translate("
      ++ int_to_string (wrap_int (pos 0 -ℤ x))
      ++ codes ","
      ++ int_to_string (wrap_int (pos 0 -ℤ y))
      ++ codes ")'>"

  unfoldable pub vector_header : Frame → Bytes
  unfolding moved
  vector_header f =
      codes "<svg xmlns=\"http://www.w3.org/2000/svg\" width=\""
      ++ int_to_string f.width
      ++ codes "\" height=\""
      ++ int_to_string f.height
      ++ codes "\" overflow='visible' >"
      ++ moved f.corner_x f.corner_y

  unfoldable pub plain_header : Item Node → Bytes
  unfolding moved
  plain_header task =
      codes "<svg xmlns=\"http://www.w3.org/2000/svg\" overflow='visible' >" ++ moved task.x task.y

  module _ (R : Renderer) where
    -- `res`, from the stream and the corner
    unfoldable pub converted : Item Node → Bytes → ℤ → ℤ → Item Node
    converted task stream x y = record task {
      x = x;
      y = y;
      text = no_text;
      shape = no_shape J.null;
      svg = record (task.svg) { svg = stream ++ codes "</g></svg>" };
      drawmode = Mode.svg;
    }

    -- The switch over the mode, and what stands behind it, given the header and the corner.
    unfoldable pub convert_as : Mode → Item Node → Bytes → ℤ → ℤ → Result (Item Node)
    unfolding converted make_svg_text_multiline make_svg_shape
    convert_as Mode.text task header x y =
        ok (converted task (make_svg_text_multiline R task header) x y)
    convert_as Mode.shape task header x y = elim (make_svg_shape J R task header) [
      | thrown e ↦ thrown e
      | ok stream ↦ ok (converted task stream x y)
    ]
    convert_as Mode.idk task header x y = ok task
    convert_as Mode.svg task header x y = ok task

    abbrev pub convert : Item Node → Bytes → ℤ → ℤ → Result (Item Node)
    convert task = convert_as task.drawmode task

    unfoldable pub build_svg_task : ℤ → Item Node → Result (Item Node)
    unfolding convert_as
    build_svg_task window_width task = elim (is_shape_vector task) [
      | false ↦ convert task (plain_header task) task.x task.y
      | true ↦ elim (bounds_loop (J.items task.shape.vect) no_bounds) [
        | thrown e ↦ thrown e
        | ok b ↦
            let f = vector_frame window_width task b in
            convert task (vector_header f) f.corner_x f.corner_y
      ]
    ]
