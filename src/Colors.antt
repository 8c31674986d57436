-- ===== src/Colors.antt =====
-- cpp/x11_colors_mgr.h: from the name of a color to the pixel that X11 draws with.
pub mod Hex
pub mod Pixel
use edmcoverlay_for_linux.Base.{
  ℕ, zero, suc, ◌+◌, ◌-◌, ◌*◌, ◌/◌, ◌%◌, ◌^◌, Bool, true, false, not, ◌&&◌, ◌||◌, Option, none,
  some, List, [], ◌∷◌, if◌then◌else◌, ltb, leb, ◌==◌, length, Result, ok, thrown, Exception,
}
use edmcoverlay_for_linux.Base.Text.{Bytes, codes}
use edmcoverlay_for_linux.Base.Map.{Map}
use edmcoverlay_for_linux.Base.Map
use edmcoverlay_for_linux.Strutils.{to_lower}
use edmcoverlay_for_linux.Session.Framing.{skip_spaces}

-- TRGBAColor
pub record RgbaColor : Type 0 where
  pub red : ℕ
  pub green : ℕ
  pub blue : ℕ
  pub alpha : ℕ

abbrev pub k_alpha : ℕ
k_alpha = 240

abbrev rgba : ℕ → ℕ → ℕ → ℕ → RgbaColor
rgba r g b a = record { red = r; green = g; blue = b; alpha = a }

abbrev pub named_colors : Map RgbaColor
named_colors =
    (codes "transparent", rgba 0 0 0 0)
    ∷ (codes "solid_white", rgba 255 255 255 255)
    ∷ (codes "white", rgba 255 255 255 k_alpha)
    ∷ (codes "black", rgba 0 0 0 k_alpha)
    ∷ (codes "blue", rgba 0 0 255 k_alpha)
    ∷ (codes "yellow", rgba 255 255 0 k_alpha)
    ∷ (codes "green", rgba 0 255 0 k_alpha)
    ∷ (codes "red", rgba 255 0 0 k_alpha)
    ∷ []

unfoldable pub hex_digit : ℕ → Option ℕ
hex_digit c =
    if leb b'0' c && leb c b'9'
    then some (c - 48)
    else if leb b'a' c && leb c b'f'
    then some (c - 87)
    else if leb b'A' c && leb c b'F'
    then some (c - 55)
    else none

-- The second of the two characters that "%02x" may take, behind a digit or a sign.
unfoldable pub second_digit : Bytes → Option (ℕ × Bytes)
unfolding hex_digit
second_digit [] = none
second_digit (d ∷ rest) = elim (hex_digit d) [ none ↦ none | some v ↦ some (v, rest) ]

-- An unsigned int that takes the negative of a number.
abbrev pub negative_u32 : Option (ℕ × Bytes) → Option (ℕ × Bytes)
negative_u32 none = none
negative_u32 (some (v, rest)) = some ((2 ^ 32 - v) % 2 ^ 32, rest)

-- Behind the digit `v` in front of `rest`.
abbrev pub two_digits : ℕ → Bytes → Option (ℕ × Bytes) → Option (ℕ × Bytes)
two_digits v rest none = some (v, rest)
two_digits v rest (some (w, more)) = some (v * 16 + w, more)

abbrev is_x : Bytes → Bool
is_x [] = false
is_x (d ∷ rest) = d == b'x' || d == b'X'

-- "%02x" of sscanf on what stands behind the blanks. "0x" alone is no number.
unfoldable pub scan_field : Bytes → Option (ℕ × Bytes)
unfolding hex_digit second_digit
scan_field [] = none
scan_field (c ∷ rest) =
    if c == b'-'
    then negative_u32 (second_digit rest)
    else if c == b'+'
    then second_digit rest
    else if c == b'0' && is_x rest
    then none
    else elim (hex_digit c) [ none ↦ none | some v ↦ two_digits v rest (second_digit rest) ]

unfoldable pub scan_hex : Bytes → Option (ℕ × Bytes)
unfolding scan_field skip_spaces
scan_hex text = scan_field (skip_spaces text)

-- `n` such fields; those that are not reached keep their 0.
unfoldable pub scan_fields : ℕ → Bytes → List ℕ
unfolding scan_hex
scan_fields zero text = []
scan_fields (suc n) text = elim (scan_hex text) [
  | none ↦ 0 ∷ scan_fields n []
  | some (v, rest) ↦ v ∷ scan_fields n rest
]

-- static_cast<uint8_t>
abbrev byte : ℕ → ℕ
byte v = v % 256

abbrev pub rgb_of : List ℕ → RgbaColor
rgb_of (r ∷ g ∷ b ∷ rest) = rgba (byte r) (byte g) (byte b) k_alpha
rgb_of _ = rgba 0 0 0 k_alpha

abbrev pub argb_of : List ℕ → RgbaColor
argb_of (a ∷ r ∷ g ∷ b ∷ rest) = rgba (byte r) (byte g) (byte b) (byte a)
argb_of _ = rgba 0 0 0 0

-- The name behind a '#', if it starts with one.
abbrev pub behind_hash : Bytes → Option Bytes
behind_hash [] = none
behind_hash (c ∷ rest) = if c == b'#' then some rest else none

unfoldable pub named : Bytes → RgbaColor
named name = elim (Map.find name named_colors) [
  | none ↦ rgba 0xFF 0xFF 0xFF k_alpha
  | some color ↦ color
]

-- decodeRGBAColor
unfoldable pub decode_rgba_color : Bytes → RgbaColor
unfolding scan_fields named
decode_rgba_color name = elim (behind_hash name) [
  | none ↦ named name
  | some digits ↦
      if length name == 7
      then rgb_of (scan_fields 3 digits)
      else if length name == 9
      then argb_of (scan_fields 4 digits)
      else named name
]

-- upScale
unfoldable pub up_scale : ℕ → ℕ
up_scale color = color * 0xFFFF / 0xFF

-- XColor, without its flags
pub record XColor : Type 0 where
  pub red : ℕ
  pub green : ℕ
  pub blue : ℕ
  pub pixel : ℕ

-- `(pixel & 0x00ffffffu) | (alpha << 24)` on unsigned long: the shift is done on int, whose sign is
-- carried on to the upper half. The two parts share no bit.
unfoldable pub with_alpha : ℕ → ℕ → ℕ
with_alpha pixel alpha =
    pixel % 2 ^ 24 + (if ltb alpha 128 then alpha * 2 ^ 24 else 2 ^ 64 - 2 ^ 32 + alpha * 2 ^ 24)

-- `alloc` is XAllocColor on the colormap of the window: the pixel for red, green and blue.
module _ (alloc : ℕ → ℕ → ℕ → Option ℕ) where
  -- createXColorFromRGBA
  unfoldable pub create_x_color : RgbaColor → Result XColor
  unfolding up_scale with_alpha
  create_x_color c = elim (alloc (up_scale c.red) (up_scale c.green) (up_scale c.blue)) [
    | none ↦ thrown Exception.runtime_error
    | some pixel ↦ ok (record {
      red = up_scale c.red;
      green = up_scale c.green;
      blue = up_scale c.blue;
      pixel = with_alpha pixel c.alpha;
    })
  ]

  -- colorFromName
  unfoldable pub color_from_name : Bytes → Result XColor
  unfolding create_x_color decode_rgba_color
  color_from_name name = create_x_color (decode_rgba_color name)

  -- get, with known_xcolors before and behind it; an exception leaves the map as it was
  unfoldable pub get : Bytes → Map XColor → Result XColor × Map XColor
  unfolding color_from_name to_lower
  get name known = elim (Map.find (to_lower name) known) [
    | some color ↦ (ok color, known)
    | none ↦ elim (color_from_name (to_lower name)) [
      | thrown e ↦ (thrown e, known)
      | ok color ↦ (ok color, Map.set (to_lower name) color known)
    ]
  ]
