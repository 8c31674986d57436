-- ===== src/Draw/Vector/Polyline.antt =====
-- ForEachVectorPointsPair (cpp/drawables.h) draws one line from each point to the next, and a
-- marker at each point that has a color, in the order of the points.
use edmcoverlay_for_linux.Base.{
  ℕ, ◌≡◌, refl, ◌≢◌, inl, inr, true, false, List, [], ◌∷◌, ok, thrown, All, Bool-cases,
  Result-cases,
}
use edmcoverlay_for_linux.Base.Int.{ℤ, eqb_ℤ, eqb_ℤ→eq}
use edmcoverlay_for_linux.Base.Text.{Bytes, codes}
use edmcoverlay_for_linux.Json.{Json}
use edmcoverlay_for_linux.Draw.{Item, is_shape_vector, shape_font_size}
use edmcoverlay_for_linux.Draw.Vector.{
  Marker, get_coord, lacks_coordinate, mark, parse_point, points_loop, for_each_vector_points_pair,
  uninit_coord,
}

abbrev pub Point : Type 0
Point = ℤ × ℤ × Marker

module _ (J : Json) where
  open J use {Node}

  -- The points before the first one that does not parse.
  unfoldable pub readable : List (Bytes × Node) → List Point
  readable [] = []
  readable ((_, val) ∷ rest) = elim (parse_point J val) [ thrown e ↦ [] | ok p ↦ p ∷ readable rest ]

  -- Both coordinates of the point can be read.
  abbrev pub HasCoordinates : Bytes × Node → Type 0
  HasCoordinates e =
      ((x : ℤ) × (get_coord J e.1 (codes "x") ≡ ok x))
      × ((y : ℤ) × (get_coord J e.1 (codes "y") ≡ ok y))

  pub HasCoordinates-lacks : (e : Bytes × Node) → HasCoordinates e → lacks_coordinate J e.1 ≡ false
  unfolding lacks_coordinate
  HasCoordinates-lacks e ((x, has_x), (y, has_y)) = rw (has_x, has_y) refl

  module _ {S : Type 0} (draw_line : ℤ → ℤ → ℤ → ℤ → S → S) (draw_marker : Marker → S → S) where
    -- The polyline through `points`, behind the point `last`.
    unfoldable pub polyline_from : Point → List Point → S → S
    polyline_from last [] s = s
    polyline_from last (p ∷ points) s =
        polyline_from p points
          (draw_line last.0 last.1 p.0 p.1 (mark J draw_line draw_marker p.2 s))

    unfoldable pub polyline : List Point → S → S
    unfolding polyline_from
    polyline [] s = s
    polyline (p ∷ points) s = polyline_from p points (mark J draw_line draw_marker p.2 s)

    abbrev IsPlaced : Point → Type 0
    IsPlaced p = p.0 ≢ uninit_coord

    eqb-uninit : (x : ℤ) → x ≢ uninit_coord → eqb_ℤ x uninit_coord ≡ false
    eqb-uninit x h = elim (Bool-cases (eqb_ℤ x uninit_coord)) [
      | inl t ↦ absurd (h (eqb_ℤ→eq x uninit_coord t))
      | inr f ↦ f
    ]

    points_loop-polyline_from :
        (nodes : List (Bytes × Node)) (x1 y1 : ℤ) (last : Point) (s : S)
        → x1 ≢ uninit_coord
        → last.0 ≢ uninit_coord
        → All HasCoordinates nodes
        → All IsPlaced (readable nodes)
        → points_loop J draw_line draw_marker nodes x1 y1 last.0 last.1 s
          ≡ ok (polyline_from last (readable nodes) s)
    unfolding points_loop polyline_from readable
    points_loop-polyline_from [] x1 y1 last s h1 h2 coords placed = refl
    points_loop-polyline_from ((k, val) ∷ rest) x1 y1 last s h1 h2 coords placed =
        elim (Result-cases (parse_point J val)) [
          | inl (e, t) ↦
              rw (HasCoordinates-lacks (k, val) coords.0, t, points_loop, readable, polyline_from)
          | inr (p, t) ↦
              let both : IsPlaced p × All IsPlaced (readable rest) = rw (t, readable) at placed in
              rw
                (
                  HasCoordinates-lacks (k, val) coords.0,
                  t,
                  points_loop,
                  readable,
                  eqb-uninit x1 h1,
                  eqb-uninit last.0 h2,
                )
                (points_loop-polyline_from rest last.0 last.1 p _ h2 both.0 coords.1 both.1)
        ]

    -- The loop with one point read, and with none.
    points_loop_one :
        (nodes : List (Bytes × Node)) (p : Point) (s : S)
        → p.0 ≢ uninit_coord
        → All HasCoordinates nodes
        → All IsPlaced (readable nodes)
        → points_loop J draw_line draw_marker nodes p.0 p.1 uninit_coord uninit_coord s
          ≡ ok (polyline_from p (readable nodes) s)
    unfolding points_loop polyline_from readable
    points_loop_one [] p s h coords placed = refl
    points_loop_one ((k, val) ∷ rest) p s h coords placed =
        elim (Result-cases (parse_point J val)) [
          | inl (e, t) ↦
              rw (HasCoordinates-lacks (k, val) coords.0, t, points_loop, readable, polyline_from)
          | inr (q, t) ↦
              let both : IsPlaced q × All IsPlaced (readable rest) = rw (t, readable) at placed in
              rw
                (HasCoordinates-lacks (k, val) coords.0, t, points_loop, readable, eqb-uninit p.0 h)
                (points_loop-polyline_from rest p.0 p.1 q _ h both.0 coords.1 both.1)
        ]

    points_loop-polyline :
        (nodes : List (Bytes × Node)) (s : S)
        → All HasCoordinates nodes
        → All IsPlaced (readable nodes)
        → points_loop J draw_line draw_marker nodes uninit_coord uninit_coord uninit_coord
            uninit_coord s
          ≡ ok (polyline (readable nodes) s)
    unfolding points_loop polyline readable
    points_loop-polyline [] s coords placed = refl
    points_loop-polyline ((k, val) ∷ rest) s coords placed =
        elim (Result-cases (parse_point J val)) [
          | inl (e, t) ↦
              rw (HasCoordinates-lacks (k, val) coords.0, t, points_loop, readable, polyline)
          | inr (q, t) ↦
              let both : IsPlaced q × All IsPlaced (readable rest) = rw (t, readable) at placed in
              rw (HasCoordinates-lacks (k, val) coords.0, t, points_loop, readable, polyline)
                (points_loop_one rest q _ both.0 coords.1 both.1)
        ]

  -- If both coordinates of each point can be read, as BuildSvgTask has found before, and no x that is read
  -- is the largest int, a "vect" shape is drawn as the polyline through the points before the first
  -- one that does not parse, each with its marker.
  pub for_each_vector_points_pair-polyline :
      {S : Type 0} (src : Item Node) (draw_line : ℤ → ℤ → ℤ → ℤ → S → S)
      (draw_marker : Marker → ℕ → S → S) (s : S)
      → is_shape_vector src ≡ true
      → All HasCoordinates (J.items src.shape.vect)
      → All (λ (p : Point). p.0 ≢ uninit_coord) (readable (J.items src.shape.vect))
      → for_each_vector_points_pair J src draw_line draw_marker s
        ≡ ok (
          true,
          polyline draw_line
              (λ m. draw_marker m (shape_font_size src.shape))
              (readable (J.items src.shape.vect))
              s,
        )
  unfolding for_each_vector_points_pair
  for_each_vector_points_pair-polyline src draw_line draw_marker s vect coords placed =
      rw
        (
          vect,
          points_loop-polyline draw_line (λ m. draw_marker m (shape_font_size src.shape))
              (J.items src.shape.vect) s coords placed,
        )
        refl
