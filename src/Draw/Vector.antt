-- ===== src/Draw/Vector.antt =====
-- The points of a "vect" shape (cpp/drawables.h): markers, and the walk that draws the lines.
pub mod Polyline
use edmcoverlay_for_linux.Base.{
  ℕ, ◌-◌, ◌^◌, Bool, true, false, not, ◌||◌, ◌&&◌, List, [], ◌∷◌, if◌then◌else◌, is_empty, Result,
  ok, thrown, Exception, ◌>>=◌,
}
use edmcoverlay_for_linux.Base.Int.{ℤ, pos, negsuc, eqb_ℤ}
use edmcoverlay_for_linux.Base.Text.{Bytes, codes, bytes_eq}
use edmcoverlay_for_linux.Json.{Json}
use edmcoverlay_for_linux.Draw.{Item, DrawShape, is_shape_vector, shape_font_size}

-- TMarkerInVectorInShape
pub record Marker : Type 0 where
  pub x : ℤ
  pub y : ℤ
  pub color : Bytes
  pub kind : Bytes
  pub text : Bytes

unfoldable pub is_set : Marker → Bool
is_set m = not (is_empty m.color)

unfoldable pub is_cross : Marker → Bool
is_cross m = bytes_eq m.kind (codes "cross")

unfoldable pub is_circle : Marker → Bool
is_circle m = bytes_eq m.kind (codes "circle")

unfoldable pub has_text : Marker → Bool
has_text m = not (is_empty m.text)

-- std::numeric_limits<int>::max(), min()
abbrev pub int_max : ℤ
int_max = pos (2 ^ 31 - 1)

abbrev pub int_min : ℤ
int_min = negsuc (2 ^ 31 - 1)

abbrev pub uninit_coord : ℤ
uninit_coord = int_max

module _ (J : Json) where
  open J use {Node}

  -- val[key] on a constant value: what is no object throws, but an object without the key is read all the
  -- same, which is undefined.
  unfoldable pub const_at : Node → Bytes → Result Node
  const_at val key =
      if J.contains val key
      then J.at val key
      else if J.is_object val
      then thrown Exception.undefined_behavior
      else thrown Exception.type_error

  -- val[key].get<int>()
  unfoldable pub get_coord : Node → Bytes → Result ℤ
  unfolding const_at
  get_coord val key = do v ← const_at val key; J.get_int v

  -- the lambda `getStr`
  unfoldable pub get_str : Node → Bytes → Result Bytes
  get_str val key = if J.contains val key then (do v ← J.at val key; J.get_string v) else ok []

  unfoldable pub from_vector_node : Node → Result Marker
  unfolding get_coord get_str
  from_vector_node val = do
    x ← get_coord val (codes "x")
    y ← get_coord val (codes "y")
    color ← get_str val (codes "color")
    kind ← get_str val (codes "marker")
    text ← get_str val (codes "text")
    ok (record { x = x; y = y; color = color; kind = kind; text = text })

  -- The body of the `try` block.
  unfoldable pub parse_point : Node → Result (ℤ × ℤ × Marker)
  unfolding get_coord from_vector_node
  parse_point val = do
    x ← get_coord val (codes "x")
    y ← get_coord val (codes "y")
    marker ← from_vector_node val
    ok (x, y, marker)

  -- What a read of a coordinate that is not there makes of the body of the `try` block; the first
  -- coordinate is read first.
  abbrev pub is_undefined : Result ℤ → Bool
  is_undefined (thrown Exception.undefined_behavior) = true
  is_undefined _ = false

  abbrev pub returns : Result ℤ → Bool
  returns (ok z) = true
  returns (thrown e) = false

  unfoldable pub lacks_coordinate : Node → Bool
  unfolding get_coord
  lacks_coordinate val =
      is_undefined (get_coord val (codes "x"))
      || returns (get_coord val (codes "x")) && is_undefined (get_coord val (codes "y"))

  -- The drawers change a state of type `S`.
  module _ {S : Type 0} (draw_line : ℤ → ℤ → ℤ → ℤ → S → S) (draw_marker : Marker → S → S) where
    unfoldable pub mark : Marker → S → S
    mark m s = if is_set m then draw_marker m s else s

    -- The loop over the points, with its variables x1, y1, x2 and y2. A point that does not parse
    -- ends it, but nothing catches the read of a coordinate that is not there.
    unfoldable pub points_loop : List (Bytes × Node) → ℤ → ℤ → ℤ → ℤ → S → Result S
    unfolding lacks_coordinate
    points_loop [] x1 y1 x2 y2 s = ok s
    points_loop ((_, val) ∷ rest) x1 y1 x2 y2 s = elim (lacks_coordinate val) [
      | true ↦ thrown Exception.undefined_behavior
      | false ↦ elim (parse_point val) [
        | thrown e ↦ ok s
        | ok (x, y, marker) ↦ elim (eqb_ℤ x1 uninit_coord) [
          | true ↦ points_loop rest x y x2 y2 (mark marker s)
          | false ↦ elim (eqb_ℤ x2 uninit_coord) [
            | true ↦ points_loop rest x1 y1 x y (draw_line x1 y1 x y (mark marker s))
            | false ↦ points_loop rest x2 y2 x y (draw_line x2 y2 x y (mark marker s))
          ]
        ]
      ]
    ]

  -- ForEachVectorPointsPair; the marker's drawer is given the size of the labels.
  unfoldable pub for_each_vector_points_pair :
      {S : Type 0}
      → Item Node
      → (ℤ → ℤ → ℤ → ℤ → S → S)
      → (Marker → ℕ → S → S)
      → S
      → Result (Bool × S)
  for_each_vector_points_pair src draw_line draw_marker s =
      if not (is_shape_vector src)
      then ok (false, s)
      else elim (points_loop draw_line (λ m. draw_marker m (shape_font_size src.shape))
          (J.items src.shape.vect) uninit_coord uninit_coord uninit_coord uninit_coord s) [
            | thrown e ↦ thrown e
            | ok s' ↦ ok (true, s')
          ]
