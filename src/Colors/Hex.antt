-- ===== src/Colors/Hex.antt =====
-- decodeRGBAColor of cpp/x11_colors_mgr.h reads back the hex codes of colors.
use edmcoverlay_for_linux.Base.{
  ℕ, suc, ◌+◌, ◌*◌, ◌/◌, ◌%◌, ◌<◌, ◌≡◌, refl, ap, ◌∙◌, some, List, [], ◌∷◌, ◌++◌, if◌then◌else◌,
  ltb, length, arith, All,
}
use edmcoverlay_for_linux.Base.Text.{Bytes}
use edmcoverlay_for_linux.Session.Framing.{skip_spaces, is_space}
use edmcoverlay_for_linux.Colors.{
  rgb_of, argb_of, k_alpha, hex_digit, second_digit, scan_field, scan_hex, scan_fields,
  decode_rgba_color,
}

unfoldable pub hex_char : ℕ → ℕ
hex_char v = if ltb v 10 then 48 + v else 87 + v

-- A byte as two hex digits.
unfoldable pub hex_byte : ℕ → Bytes
unfolding hex_char
hex_byte b = hex_char (b / 16) ∷ hex_char (b % 16) ∷ []

hex_digit-hex_char : (v : ℕ) → v < 16 → hex_digit (hex_char v) ≡ some v
unfolding hex_digit hex_char
hex_digit-hex_char v h = ground arith

skip_spaces-hex_char :
    (v : ℕ) (rest : Bytes) → v < 16 → skip_spaces (hex_char v ∷ rest) ≡ hex_char v ∷ rest
unfolding skip_spaces is_space hex_char
skip_spaces-hex_char v rest h = ground arith

-- The first digit is no sign and the second no x.
scan_field-hex_char :
    (v w : ℕ) (rest : Bytes)
    → v < 16
    → w < 16
    → scan_field (hex_char v ∷ hex_char w ∷ rest) ≡ some (v * 16 + w, rest)
unfolding scan_field second_digit hex_char
scan_field-hex_char v w rest h k = ground (arith, hex_digit-hex_char v h, hex_digit-hex_char w k)

scan_hex-hex_byte :
    (b : ℕ) (rest : Bytes) → b < 256 → scan_hex (hex_byte b ++ rest) ≡ some (b, rest)
unfolding scan_hex hex_byte
scan_hex-hex_byte b rest h =
    let e : b / 16 * 16 + b % 16 ≡ b = omega arith in
    ap scan_field (skip_spaces-hex_char (b / 16) (hex_char (b % 16) ∷ rest) (omega arith))
    ∙ scan_field-hex_char (b / 16) (b % 16) rest (omega arith) (omega arith)
    ∙ ap (λ b. some (b, rest)) e

abbrev pub IsByte : ℕ → Type 0
IsByte b = b < 256

-- Several bytes.
abbrev pub hex_code : List ℕ → Bytes
hex_code [] = []
hex_code (b ∷ bytes) = hex_byte b ++ hex_code bytes

scan_fields-cons :
    (n b : ℕ) (rest : Bytes)
    → b < 256
    → scan_fields (suc n) (hex_byte b ++ rest) ≡ b ∷ scan_fields n rest
unfolding scan_fields
scan_fields-cons n b rest h = rw (scan_hex-hex_byte b rest h, scan_fields) refl

scan_fields-hex_code :
    (bytes : List ℕ) → All IsByte bytes → scan_fields (length bytes) (hex_code bytes) ≡ bytes
unfolding scan_fields
scan_fields-hex_code [] h = refl
scan_fields-hex_code (b ∷ bytes) h =
    scan_fields-cons (length bytes) b (hex_code bytes) h.0
    ∙ ap (◌∷◌ b) (scan_fields-hex_code bytes h.1)

three : (r g b : ℕ) → length (hex_code (r ∷ g ∷ b ∷ [])) ≡ 6
unfolding hex_byte
three r g b = refl

four : (a r g b : ℕ) → length (hex_code (a ∷ r ∷ g ∷ b ∷ [])) ≡ 8
unfolding hex_byte
four a r g b = refl

byte_lem : (b : ℕ) → b < 256 → b % 256 ≡ b
byte_lem b h = omega arith

decode_long :
    (digits : Bytes)
    → length digits ≡ 6
    → decode_rgba_color (b'#' ∷ digits) ≡ rgb_of (scan_fields 3 digits)
unfolding decode_rgba_color
decode_long digits h = ground arith

decode_longer :
    (digits : Bytes)
    → length digits ≡ 8
    → decode_rgba_color (b'#' ∷ digits) ≡ argb_of (scan_fields 4 digits)
unfolding decode_rgba_color
decode_longer digits h = ground arith

-- The code "#rrggbb" of a color gives its red, green and blue, with the alpha of the overlay.
decode_rgba_color-rgb :
    (r g b : ℕ)
    → r < 256
    → g < 256
    → b < 256
    → decode_rgba_color (b'#' ∷ hex_code (r ∷ g ∷ b ∷ []))
      ≡ record { red = r; green = g; blue = b; alpha = k_alpha }
decode_rgba_color-rgb r g b hr hg hb =
    decode_long (hex_code (r ∷ g ∷ b ∷ [])) (three r g b)
    ∙ ap rgb_of (scan_fields-hex_code (r ∷ g ∷ b ∷ []) (hr, (hg, (hb, tt))))
    ∙ rw (byte_lem r hr, byte_lem g hg, byte_lem b hb) refl

-- The code "#aarrggbb" of a color gives its alpha, red, green and blue.
pub decode_rgba_color-argb :
    (a r g b : ℕ)
    → a < 256
    → r < 256
    → g < 256
    → b < 256
    → decode_rgba_color (b'#' ∷ hex_code (a ∷ r ∷ g ∷ b ∷ []))
      ≡ record { red = r; green = g; blue = b; alpha = a }
decode_rgba_color-argb a r g b ha hr hg hb =
    decode_longer (hex_code (a ∷ r ∷ g ∷ b ∷ [])) (four a r g b)
    ∙ ap argb_of (scan_fields-hex_code (a ∷ r ∷ g ∷ b ∷ []) (ha, (hr, (hg, (hb, tt)))))
    ∙ rw (byte_lem a ha, byte_lem r hr, byte_lem g hg, byte_lem b hb) refl
