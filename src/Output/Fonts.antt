-- ===== src/Output/Fonts.antt =====
-- cpp/luna_default_fonts.h and cpp/common/font_size.hpp: the fonts and their sizes.
use edmcoverlay_for_linux.Base.{
  ℕ, ◌*◌, ◌/◌, ◌^◌, Bool, true, false, List, [], ◌∷◌, if◌then◌else◌, any, is_empty,
}
use edmcoverlay_for_linux.Base.Text.{Bytes, codes, bytes_eq}
use edmcoverlay_for_linux.Svg.Float.{round_float}
use edmcoverlay_for_linux.Svg.TextTags.{Font}

-- InstallNormalFontFileToLuna, with the set of the fonts installed; `add` is
-- lunasvg_add_font_face_from_file.
unfoldable pub install_normal_font_file_to_luna :
    (Bytes → Bool) → Bytes → List Bytes → Bool × List Bytes
install_normal_font_file_to_luna add path installed =
    if is_empty path
    then (false, installed)
    else if any (bytes_eq path) installed
    then (true, installed)
    else if add path
    then (true, path ∷ installed)
    else (false, installed)

-- GetEmojiFonts; the path is that of GetCustomDownloadedFont.
unfoldable pub emoji_fonts : Bytes → List Font
emoji_fonts custom =
    Font.path custom
    ∷ Font.family (codes "Segoe UI Emoji")
    ∷ Font.family (codes "Symbols Nerd Font Mono")
    ∷ Font.family (codes "Apple Color Emoji")
    ∷ Font.family (codes "FreeMono")
    ∷ Font.family (codes "Liberation Mono")
    ∷ []

-- GetTextFonts
unfoldable pub text_fonts : List Font
text_fonts =
    Font.family (codes "Liberation Mono")
    ∷ Font.family (codes "DejaVu Sans Mono")
    ∷ Font.family (codes "Unifont")
    ∷ Font.family (codes "Symbols Nerd Font Mono")
    ∷ Font.family (codes "FreeMono")
    ∷ []

-- convert of FontPixelSize: 72.0f / 96.0f is 3 / 4.
unfoldable pub px_to_pt : ℕ → ℕ
unfolding round_float
px_to_pt size = round_float (3 * round_float size) / 4

-- convert of FontPointSize: 96.0f / 72.0f is 11184811 / 2 ^ 23.
unfoldable pub pt_to_px : ℕ → ℕ
unfolding round_float
pt_to_px size = round_float (11184811 * round_float size) / 2 ^ 23
