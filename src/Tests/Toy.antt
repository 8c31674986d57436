-- ===== src/Tests/Toy.antt =====
-- A JSON library that knows a few texts, and a renderer without fonts.
use edmcoverlay_for_linux.Base.{
  ℕ, ◌*◌, List, [], ◌∷◌, if◌then◌else◌, ◌==◌, ◌||◌, ◌&&◌, length, Result, ok, thrown, Exception,
  none,
}
use edmcoverlay_for_linux.Base.Int.{ℤ, pos, negsuc}
use edmcoverlay_for_linux.Base.Text.{Bytes, codes, bytes_eq}
use edmcoverlay_for_linux.Json.{Json}
use edmcoverlay_for_linux.Draw.{Item, Mode, new_item}
use edmcoverlay_for_linux.Svg.TextTags.{Renderer, Font}

-- A value is the number of its place in the document:
-- 1 is `{"text": "hi", "x": 3}`, 4 the vector of the points 7 and 8, 9 a vector whose point 11 lacks
-- its coordinates, 12 the array of 1 and 4, 13 a vector of the one point 7, 15 is `{"svg": "<svg/>", "id": "v"}`.
abbrev members : ℕ → List (Bytes × ℕ)
members n =
    if n == 1
    then (codes "text", 2) ∷ (codes "x", 3) ∷ []
    else if n == 4
    then (codes "shape", 5) ∷ (codes "vector", 6) ∷ (codes "id", 14) ∷ []
    else if n == 6
    then (codes "0", 7) ∷ (codes "1", 8) ∷ []
    else if n == 9
    then (codes "shape", 5) ∷ (codes "vector", 10) ∷ (codes "id", 14) ∷ []
    else if n == 10
    then (codes "0", 11) ∷ []
    else if n == 12
    then ([], 1) ∷ ([], 4) ∷ []
    else if n == 13
    then (codes "0", 7) ∷ []
    else if n == 15
    then (codes "svg", 16) ∷ (codes "id", 14) ∷ []
    else []

abbrev word : ℕ → Result Bytes
word n =
    if n == 2
    then ok (codes "hi")
    else if n == 5
    then ok (codes "vect")
    else if n == 14
    then ok (codes "v")
    else if n == 16
    then ok (codes "<svg/>")
    else thrown Exception.type_error

-- The points are 7, at (-3, 5), and 8, at (4, 8).
abbrev coordinate : ℕ → Bytes → Result ℕ
coordinate n key =
    if n == 7
    then ok (if bytes_eq key (codes "x") then 20 else 25)
    else if n == 8
    then ok (if bytes_eq key (codes "x") then 24 else 28)
    else thrown Exception.type_error

abbrev whole : ℕ → Result ℤ
whole n =
    if n == 20
    then ok (negsuc 2)
    else if n == 25
    then ok (pos 5)
    else if n == 24
    then ok (pos 4)
    else if n == 28
    then ok (pos 8)
    else if n == 3
    then ok (pos 3)
    else thrown Exception.type_error

abbrev document : Bytes → Result ℕ
document text =
    if bytes_eq text (codes "text")
    then ok 1
    else if bytes_eq text (codes "both")
    then ok 12
    else if bytes_eq text (codes "ready")
    then ok 15
    else if bytes_eq text (codes "broken")
    then ok 9
    else thrown Exception.parse_error

abbrev places : List (Bytes × ℕ) → List ℕ
places [] = []
places ((_, n) ∷ rest) = n ∷ places rest

abbrev pub toy : Json
toy = record {
  Node = ℕ;
  null = 0;
  parse = document;
  is_array = λ n. n == 12;
  elements = λ n. places (members n);
  items = members;
  size = λ n. length (members n);
  get_int = whole;
  get_uint32 = λ n. thrown Exception.type_error;
  get_string = word;
  is_object = λ n. n == 1 || n == 4 || n == 7 || n == 8 || n == 9 || n == 11 || n == 15;
  contains = λ n key. (n == 7 || n == 8) && (bytes_eq key (codes "x") || bytes_eq key (codes "y"));
  at = coordinate;
  node_eq = λ m n. m == n;
}

-- Letters eight pixels wide, and no pictures.
abbrev pub plain : Renderer
plain = record {
  render_to_png = λ size symbol. record { width = 0; height = 0; png_base64 = [] };
  compute_width =
      λ size text. record { computed_width = 8 * length text; font_used = Font.path [] };
}

-- A text drawable.
abbrev pub label : Bytes → Bytes → ℕ → Item ℕ
label id text created = record (new_item 0 created) {
  id = id;
  drawmode = Mode.text;
  text = record { text = text; size = []; font_size = none };
}

-- A drawable that is an SVG already.
abbrev pub picture : Bytes → Bytes → ℕ → Item ℕ
picture id svg created = record (new_item 0 created) {
  id = id;
  drawmode = Mode.svg;
  svg = record { svg = svg; css = []; font_file = []; render = none };
}

-- A vector over the points of `n`.
abbrev pub vector : Bytes → ℕ → ℕ → Item ℕ
vector id n created = record (new_item 0 created) {
  id = id;
  drawmode = Mode.shape;
  shape = record {
    shape = codes "vect";
    fill = [];
    w = pos 0;
    h = pos 0;
    vector_font_size = 0;
    vect = n;
  };
}
