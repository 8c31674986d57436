-- ===== src/Tests/Drawing.antt =====
-- Drawables: parsing, equality, and the walk over the points.
use edmcoverlay_for_linux.Base.{
  ℕ, suc, ◌+◌, ◌%◌, ◌^◌, ◌≡◌, ◌≢◌, refl, true, false, not, ◌||◌, [], ◌∷◌, ◌++◌, All, some, ok,
}
use edmcoverlay_for_linux.Base.Int.{ℤ, pos, negsuc, is_negative}
use edmcoverlay_for_linux.Base.Text.{codes, to_string, digits, bytes_eq, bytes_compare}
use edmcoverlay_for_linux.Base.Map.{Map}
use edmcoverlay_for_linux.Base.Map
use edmcoverlay_for_linux.Draw.{
  Item, Mode, mode_eq, is_command, new_item, shape_font_size, is_shape_vector,
}
use edmcoverlay_for_linux.Draw.Parse.{
  processors, is_switched, process_fields, with_auto_id, store, parse_single_object, parse_elements,
  parse_json_string,
}
use edmcoverlay_for_linux.Draw.Parse.Stored.{
  IsParsed, parse_json_string-IsParsed, parse_single_object-auto_id,
}
use edmcoverlay_for_linux.Draw.Vector.{
  Marker, uninit_coord, parse_point, get_coord, const_at, get_str, from_vector_node,
  for_each_vector_points_pair,
}
use edmcoverlay_for_linux.Draw.Vector.Polyline.{
  HasCoordinates, Point, polyline, readable, for_each_vector_points_pair-polyline,
}
use edmcoverlay_for_linux.Tests.Toy.{toy, label, vector}

abbrev clock : ℕ → ℕ
clock n = 10 + n

-- What the object of the text becomes, and the drawable under its generated id.
abbrev hi : Item ℕ
hi = record (label [] (codes "hi") 10) { x = pos 3 }

abbrev named_hi : Item ℕ
named_hi = record hi { id = codes "AUTOID:0"; ttl = record { created_at = 10; ttl = pos 60 } }

abbrev both : Map (Item ℕ)
both = (codes "AUTOID:0", named_hi) ∷ (codes "v", vector (codes "v") 6 11) ∷ []

both_parsed : (parse_json_string toy clock 0 (codes "both")).0 ≡ ok both
unfolding parse_json_string parse_elements parse_single_object process_fields Map.find processors
    bytes_eq is_switched mode_eq store Map.set bytes_compare with_auto_id is_command to_string
    digits
both_parsed = refl

parse_json_string-IsParsed_example : IsParsed toy both
parse_json_string-IsParsed_example =
    parse_json_string-IsParsed toy clock 0 (codes "both") both both_parsed

hi_read : process_fields toy (toy.items 1) (new_item toy.null 10) ≡ ok hi
unfolding process_fields Map.find processors bytes_eq is_switched mode_eq
hi_read = refl

hi_is_task : (not (mode_eq hi.drawmode Mode.idk) || is_command hi) ≡ true
unfolding mode_eq
hi_is_task = refl

parse_single_object-auto_id_example :
    (m' : Map (Item ℕ)) × (i' : Item ℕ) × (parse_single_object toy 10 7 1 []
      ≡ (ok m', (7 + 1) % 2 ^ 64))
    × (Map.find (codes "AUTOID:" ++ to_string 7) m' ≡ some i')
    × (is_negative hi.ttl.ttl ≡ true
        → (i'.ttl.ttl ≡ pos 60) × (i'.ttl.created_at ≡ hi.ttl.created_at))
    × (is_negative hi.ttl.ttl ≡ false → i'.ttl ≡ hi.ttl)
parse_single_object-auto_id_example =
    parse_single_object-auto_id toy 10 7 1 [] hi hi_read refl hi_is_task

abbrev count_lines : ℤ → ℤ → ℤ → ℤ → ℕ → ℕ
count_lines x1 y1 x2 y2 n = suc n

abbrev count_markers : Marker → ℕ → ℕ → ℕ
count_markers m size n = n

abbrev line : Item ℕ
line = vector (codes "v") 6 1

line_is_vector : is_shape_vector line ≡ true
unfolding is_shape_vector mode_eq bytes_eq
line_is_vector = refl

line-HasCoordinates : All (HasCoordinates toy) (toy.items line.shape.vect)
unfolding get_coord const_at bytes_eq
line-HasCoordinates = (((negsuc 2, refl), (pos 5, refl)), (((pos 4, refl), (pos 8, refl)), tt))

line_placed : All (λ (p : Point). p.0 ≢ uninit_coord) (readable toy (toy.items line.shape.vect))
unfolding readable parse_point get_coord const_at from_vector_node get_str bytes_eq
line_placed = ((λ e. cc e), ((λ e. cc e), tt))

for_each_vector_points_pair-polyline_example :
    for_each_vector_points_pair toy line count_lines count_markers 0
    ≡ ok (
      true,
      polyline toy count_lines
          (λ m. count_markers m (shape_font_size line.shape))
          (readable toy (toy.items line.shape.vect))
          0,
    )
for_each_vector_points_pair-polyline_example =
    for_each_vector_points_pair-polyline toy line count_lines count_markers 0 line_is_vector
      line-HasCoordinates line_placed
