-- ===== src/Emoji/FreeType.antt =====
-- The libraries that cpp/emoji_renderer/emoji_renderer.cpp calls: FreeType draws glyphs, fontconfig
-- finds the file of a font, libpng packs the picture. A call that may fail gives `false`.
use edmcoverlay_for_linux.Base.{ℕ, Bool, Option, List}
use edmcoverlay_for_linux.Base.Int.{ℤ}
use edmcoverlay_for_linux.Base.Text.{Bytes}

-- FT_PIXEL_MODE_GRAY, FT_PIXEL_MODE_BGRA, and the others.
pub data PixelMode : Type 0 where
  gray bgra other : PixelMode

-- FT_Bitmap. The rows go down, so the pitch is not negative.
pub record FtBitmap : Type 0 where
  pub width : ℕ
  pub rows : ℕ
  pub pitch : ℕ
  pub pixel_mode : PixelMode
  pub buffer : ℕ → ℕ

-- FT_LOAD_RENDER or FT_LOAD_NO_BITMAP, with FT_LOAD_COLOR or without.
pub record LoadOptions : Type 0 where
  pub no_bitmap : Bool
  pub color : Bool

-- FT_Library with the faces F. A face keeps its size and its glyph slot, so the calls give it back.
pub record FreeType (F : Type 0) : Type 0 where
  pub init : Bool
  pub new_face : Bytes → Option F
  pub set_transform : F → F
  pub sfnt_length : F → ℕ
  pub available_sizes : F → List ℤ
  pub select_size : ℕ → F → Bool × F
  pub set_pixel_sizes : ℕ → F → F
  pub char_index : F → ℕ → ℕ
  pub load_glyph : LoadOptions → ℕ → F → Bool × F
  pub render_glyph : F → Bool × F
  pub bitmap : F → FtBitmap
  pub advance : F → ℤ
  pub kerning : F → ℕ → ℕ → Option ℤ

-- FcFontMatch, and FcPatternGetString of FC_FILE.
pub record FontConfig (P : Type 0) : Type 0 where
  pub font_match : Bytes → Option P
  pub get_file : P → Option Bytes

-- Whether libpng's structs can be made, and what it writes for the width, the height and the rows.
pub record Png : Type 0 where
  pub create : Bool
  pub write : ℕ → ℕ → List Bytes → List Bytes
