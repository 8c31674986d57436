-- ===== src/Svg/Build/Faults.antt =====
-- When BuildSvgTask (cpp/svgbuilder.cpp) returns.
use edmcoverlay_for_linux.Base.{
  ◌≡◌, refl, inl, inr, ◌↔◌, true, List, [], ◌∷◌, Result, ok, Result-cases, Bool-cases, All, arith,
}
use edmcoverlay_for_linux.Base.Int.{ℤ, eqb_ℤ}
use edmcoverlay_for_linux.Base.Text.{Bytes, codes}
use edmcoverlay_for_linux.Json.{Json}
use edmcoverlay_for_linux.Draw.{Item, Mode, is_shape_vector, shape_font_size}
use edmcoverlay_for_linux.Draw.Vector.{
  Marker, uninit_coord, get_coord, mark, parse_point, points_loop, for_each_vector_points_pair,
}
use edmcoverlay_for_linux.Draw.Vector.Polyline.{HasCoordinates, HasCoordinates-lacks}
use edmcoverlay_for_linux.Svg.Shape.{draw_line_with_color, draw_marker, make_svg_shape}
use edmcoverlay_for_linux.Svg.TextTags.{Renderer}
use edmcoverlay_for_linux.Svg.Build.{
  Bounds, no_bounds, extend, bounds_loop, convert_as, converted, build_svg_task, plain_header,
  vector_header, vector_frame,
}

-- The code returned a value.
abbrev pub Returns : {A : Type 0} → Result A → Type 0
Returns {A} r = (a : A) × (r ≡ ok a)

module _ (J : Json) where
  open J use {Node}

  abbrev pub IsReadable : Bytes × Node → Type 0
  IsReadable e = Returns (get_coord J e.1 (codes "x")) × Returns (get_coord J e.1 (codes "y"))

  bounds_loop-Returns :
      (nodes : List (Bytes × Node)) (b : Bounds)
      → All IsReadable nodes
      → Returns (bounds_loop J nodes b)
  unfolding bounds_loop
  bounds_loop-Returns [] b h = (b, refl)
  bounds_loop-Returns ((k, val) ∷ rest) b (((x, gx), (y, gy)), h) =
      let (b', e) = bounds_loop-Returns rest (extend x y b) h in (b', rw (gx, gy, bounds_loop) e)

  bounds_loop-IsReadable :
      (nodes : List (Bytes × Node)) (b b' : Bounds)
      → bounds_loop J nodes b ≡ ok b'
      → All IsReadable nodes
  unfolding bounds_loop
  bounds_loop-IsReadable [] b b' h = tt
  bounds_loop-IsReadable ((k, val) ∷ rest) b b' h =
      elim (Result-cases (get_coord J val (codes "x"))) [
        | inl (e, t) ↦ absurd (ground arith)
        | inr (x, gx) ↦ elim (Result-cases (get_coord J val (codes "y"))) [
          | inl (e, t) ↦ absurd (ground arith)
          | inr (y, gy) ↦
              (((x, gx), (y, gy)), bounds_loop-IsReadable rest (extend x y b) b' (ground arith))
        ]
      ]

  module _ {S : Type 0} (draw_line : ℤ → ℤ → ℤ → ℤ → S → S) (draw_marker : Marker → S → S) where
    points_loop-Returns :
        (nodes : List (Bytes × Node)) (x1 y1 x2 y2 : ℤ) (s : S)
        → All (HasCoordinates J) nodes
        → Returns (points_loop J draw_line draw_marker nodes x1 y1 x2 y2 s)
    unfolding points_loop
    points_loop-Returns [] x1 y1 x2 y2 s h = (s, refl)
    points_loop-Returns ((k, val) ∷ rest) x1 y1 x2 y2 s (here, h) =
        let there = HasCoordinates-lacks J (k, val) here in
        elim (Result-cases (parse_point J val)) [
          | inl (e, t) ↦ (s, rw (there, t, points_loop) refl)
          | inr ((x, y, marker), t) ↦
              let s' = mark J draw_line draw_marker marker s in
              elim (Bool-cases (eqb_ℤ x1 uninit_coord)) [
                | inl first ↦
                    let (r, e) = points_loop-Returns rest x y x2 y2 s' h in
                    (r, rw (there, t, first, points_loop) e)
                | inr later ↦ elim (Bool-cases (eqb_ℤ x2 uninit_coord)) [
                  | inl second ↦
                      let (r, e) = points_loop-Returns rest x1 y1 x y (draw_line x1 y1 x y s') h in
                      (r, rw (there, t, later, second, points_loop) e)
                  | inr third ↦
                      let (r, e) = points_loop-Returns rest x2 y2 x y (draw_line x2 y2 x y s') h in
                      (r, rw (there, t, later, third, points_loop) e)
                ]
              ]
        ]

  module _ (R : Renderer) where
    make_svg_shape-Returns :
        (task : Item Node) (out : Bytes)
        → (is_shape_vector task ≡ true → All IsReadable (J.items task.shape.vect))
        → Returns (make_svg_shape J R task out)
    unfolding make_svg_shape for_each_vector_points_pair
    make_svg_shape-Returns task out h = elim (Bool-cases (is_shape_vector task)) [
      | inr plain ↦ rw (plain, make_svg_shape) (_, refl)
      | inl vector ↦
          let (drawn, e) =
            points_loop-Returns (draw_line_with_color task.color)
              (λ m. draw_marker J R m (shape_font_size task.shape)) (J.items task.shape.vect)
              uninit_coord uninit_coord uninit_coord uninit_coord out (h vector) in
          rw (vector, make_svg_shape, e) (_, refl)
    ]

    convert_as-Returns :
        (m : Mode) (task : Item Node) (header : Bytes) (x y : ℤ)
        → (is_shape_vector task ≡ true → All IsReadable (J.items task.shape.vect))
        → Returns (convert_as J R m task header x y)
    unfolding convert_as
    convert_as-Returns Mode.idk task header x y h = (task, refl)
    convert_as-Returns Mode.svg task header x y h = (task, refl)
    convert_as-Returns Mode.text task header x y h = (_, refl)
    convert_as-Returns Mode.shape task header x y h =
        let (out, e) = make_svg_shape-Returns task header h in
        (converted J R task out x y, rw (e, convert_as) refl)

    pub build_svg_task_iff :
        (window_width : ℤ) (task : Item Node)
        → Returns (build_svg_task J R window_width task)
          ↔ (is_shape_vector task ≡ true → All IsReadable (J.items task.shape.vect))
    unfolding build_svg_task
    build_svg_task_iff window_width task = (to, from)
      where
        to :
            Returns (build_svg_task J R window_width task)
            → is_shape_vector task ≡ true
            → All IsReadable (J.items task.shape.vect)
        to (r, h) vector = elim (Result-cases (bounds_loop J (J.items task.shape.vect) no_bounds)) [
          | inl (e, t) ↦ absurd (ground arith)
          | inr (b, t) ↦ bounds_loop-IsReadable (J.items task.shape.vect) no_bounds b t
        ]

        from :
            (is_shape_vector task ≡ true → All IsReadable (J.items task.shape.vect))
            → Returns (build_svg_task J R window_width task)
        from h = elim (Bool-cases (is_shape_vector task)) [
          | inr plain ↦
              let (r, e) =
                convert_as-Returns task.drawmode task (plain_header J task) task.x task.y h in
              (r, rw (plain, build_svg_task) e)
          | inl vector ↦
              let (b, t) = bounds_loop-Returns (J.items task.shape.vect) no_bounds (h vector) in
              let f = vector_frame J window_width task b in
              let (r, e) =
                convert_as-Returns task.drawmode task (vector_header J f) f.corner_x f.corner_y h in
              (r, rw (vector, build_svg_task, t) e)
        ]
