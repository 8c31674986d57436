-- ===== src/Tests/Palette.antt =====
-- Colors.
use edmcoverlay_for_linux.Base.{ℕ, ◌+◌, ◌≡◌, Option, some, [], ◌∷◌, arith}
use edmcoverlay_for_linux.Base.Text.{codes}
use edmcoverlay_for_linux.Base.Map.{Map}
use edmcoverlay_for_linux.Base.Map
use edmcoverlay_for_linux.Strutils.{to_lower}
use edmcoverlay_for_linux.Colors.{decode_rgba_color, color_from_name, get}
use edmcoverlay_for_linux.Colors.Hex.{hex_code, decode_rgba_color-argb}
use edmcoverlay_for_linux.Colors.Pixel.{IsCache, get-IsCache}

decode_rgba_color-argb_example :
    decode_rgba_color (b'#' ∷ hex_code (128 ∷ 255 ∷ 160 ∷ 7 ∷ []))
    ≡ record { red = 255; green = 160; blue = 7; alpha = 128 }
decode_rgba_color-argb_example =
    decode_rgba_color-argb 128 255 160 7 (omega arith) (omega arith) (omega arith) (omega arith)

-- A server with a pixel for every color.
abbrev true_color : ℕ → ℕ → ℕ → Option ℕ
true_color r g b = some (r + g + b)

empty-IsCache : IsCache true_color []
unfolding Map.find
empty-IsCache name color e = absurd (cc)

get-IsCache_example :
    ((get true_color (codes "Red") []).0 ≡ color_from_name true_color (to_lower (codes "Red")))
    × IsCache true_color (get true_color (codes "Red") []).1
get-IsCache_example = get-IsCache true_color (codes "Red") [] empty-IsCache
