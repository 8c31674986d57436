-- ===== src/Tests/Emojis.antt =====
-- The emoji renderer with a font of one gray pixel, and the sizes of a color font.
use edmcoverlay_for_linux.Base.{
  ℕ, List, Option, none, ◌*◌, ◌+◌, ◌%◌, ◌≡◌, refl, true, some, none, [], ◌∷◌, finished, Ends,
  IsDefined, length, take, arith, if◌then◌else◌, inr,
}
use edmcoverlay_for_linux.Base.Int.{pos, ◌-ℤ◌, ◌+ℤ◌}
use edmcoverlay_for_linux.Base.Text.{codes, bytes_eq, bytes_compare}
use edmcoverlay_for_linux.Svg.TextTags.{Font, PngData, png_is_valid, to_u32}
use edmcoverlay_for_linux.Emoji.Base64.{base64_char, six_bits, push_byte}
use edmcoverlay_for_linux.Emoji.FreeType.{FreeType, FtBitmap, PixelMode, FontConfig, Png}
use edmcoverlay_for_linux.Emoji.Request.{EmojiToRender}
use edmcoverlay_for_linux.Emoji.Bitmap.{Bitmap, copy_glyph, blend, scale_bitmap_to_fit_height}
use edmcoverlay_for_linux.Emoji.Bitmap.Pixels.{pixel_at}
use edmcoverlay_for_linux.Emoji.Bitmap.Copied.{Copies, copy_glyph-Copies}
use edmcoverlay_for_linux.Emoji.Bitmap.Scaled.{scale_bitmap_to_fit_height-Scaled}
use edmcoverlay_for_linux.Emoji.Faces.{State, best_match}
use edmcoverlay_for_linux.Emoji.Faces.Best.{Nearest, best_match-Nearest}
use edmcoverlay_for_linux.Emoji.Measure.{compute_width}
use edmcoverlay_for_linux.Emoji.Renderer.{render_to_png}
use edmcoverlay_for_linux.Emoji.Renderer.Calls.{Calls, render_to_png-again}
use edmcoverlay_for_linux.Emoji.Renderer.Finish.{render_to_png-IsDefined}
use edmcoverlay_for_linux.Emoji.Renderer.Fitted.{Fits, AreFitted, render_to_png-AreFitted}

best_match-Nearest_example :
    Nearest 32 (pos 109 ∷ pos 20 ∷ pos 44 ∷ []) (best_match 32 (pos 109) (pos 20 ∷ pos 44 ∷ []))
best_match-Nearest_example = best_match-Nearest 32 (pos 109) (pos 20 ∷ pos 44 ∷ [])

nearest_of_equals : best_match 32 (pos 109) (pos 20 ∷ pos 44 ∷ []) ≡ 1
unfolding best_match ◌-ℤ◌
nearest_of_equals = refl

abbrev gray_glyph : FtBitmap
gray_glyph = record {
  width = 1;
  rows = 1;
  pitch = 4;
  pixel_mode = PixelMode.gray;
  buffer = λ i. (200 + i) % 256;
}

abbrev colored_glyph : FtBitmap
colored_glyph = record {
  width = 2;
  rows = 2;
  pitch = 8;
  pixel_mode = PixelMode.bgra;
  buffer = λ i. i;
}

abbrev colored_bitmap : Bitmap
colored_bitmap = record {
  width = 2;
  height = 2;
  pixels = 2 ∷ 1 ∷ 0 ∷ 3 ∷ 6 ∷ 5 ∷ 4 ∷ 7 ∷ 10 ∷ 9 ∷ 8 ∷ 11 ∷ 14 ∷ 13 ∷ 12 ∷ 15 ∷ [];
}

copy_colored : copy_glyph 0 colored_glyph ≡ finished (some colored_bitmap)
unfolding copy_glyph
copy_colored = refl

copy_glyph-Copies_example : Copies 0 colored_glyph 1 0 (pixel_at colored_bitmap.pixels 8)
copy_glyph-Copies_example =
    copy_glyph-Copies 0 colored_glyph colored_bitmap 1 0 copy_colored (omega arith) (omega arith)
      (omega arith)

-- A face has no state; the font is in the file "e".
abbrev free_type : FreeType ℕ
free_type = record {
  init = true;
  new_face = λ file. if bytes_eq file (codes "e") then some 5 else none;
  set_transform = λ f. f;
  sfnt_length = λ f. 0;
  available_sizes = λ f. [];
  select_size = λ i f. (true, f);
  set_pixel_sizes = λ n f. f;
  char_index = λ f c. c;
  load_glyph = λ o i f. (true, f);
  render_glyph = λ f. (true, f);
  bitmap = λ f. gray_glyph;
  advance = λ f. pos 640;
  kerning = λ f p i. none;
}

abbrev font_config : FontConfig ℕ
font_config = record { font_match = λ family. none; get_file = λ p. none }

-- The rows, as they are.
abbrev png_rows : Png
png_rows = record { create = true; write = λ w h rows. rows }

abbrev request : EmojiToRender
request = record {
  emoji = 0x1F600;
  font = record {
    font_size = 1;
    font_face_or_path = Font.family (codes "x") ∷ Font.path (codes "e") ∷ [];
  };
  color = 0xFF8001;
}

abbrev fresh_state : State ℕ
fresh_state = record { faces = []; emojies = [] }

abbrev smiley : PngData
smiley = record { width = 1; height = 1; png_base64 = codes "/4AByA==" }

abbrev smiling_state : State ℕ
smiling_state = record { faces = (codes "e", 5) ∷ []; emojies = (request, smiley) ∷ [] }

abbrev measured_state : State ℕ
unfolding compute_width
measured_state =
    (compute_width free_type font_config request.font (b'a' ∷ b'b' ∷ []) smiling_state).1

render_smiley :
    render_to_png free_type font_config png_rows request fresh_state
    ≡ finished (smiley, smiling_state)
unfolding render_to_png bytes_eq base64_char bytes_compare six_bits push_byte blend
render_smiley = refl

smiley-valid : png_is_valid smiley ≡ true
unfolding png_is_valid
smiley-valid = refl

-- Two glyphs of 10 pixels.
text_width :
    (compute_width free_type font_config request.font (b'a' ∷ b'b' ∷ []) smiling_state).0
    ≡ record { computed_width = 20; font_used = Font.path (codes "e") }
unfolding compute_width bytes_eq to_u32 ◌+ℤ◌
text_width = refl

render_to_png-again_example :
    render_to_png free_type font_config png_rows request measured_state
    ≡ finished (smiley, measured_state)
unfolding measured_state
render_to_png-again_example =
    render_to_png-again free_type font_config png_rows request smiley fresh_state smiling_state
      measured_state render_smiley smiley-valid
      (Calls.width request.font (b'a' ∷ b'b' ∷ []) (Calls.here measured_state))

render_to_png-AreFitted_example :
    Ends
      (λ (r : PngData × State ℕ). Fits request r.0 × AreFitted r.1.emojies)
      (render_to_png free_type font_config png_rows request smiling_state)
render_to_png-AreFitted_example =
    render_to_png-AreFitted free_type font_config png_rows request smiling_state (inr refl, tt)

scale_bitmap_to_fit_height-Scaled_example :
    (scaled : Bitmap) × (scale_bitmap_to_fit_height colored_bitmap 3 ≡ some scaled)
    × (scaled.height ≡ 3)
    × (length scaled.pixels ≡ scaled.width * scaled.height * 4)
scale_bitmap_to_fit_height-Scaled_example =
    scale_bitmap_to_fit_height-Scaled colored_bitmap (refl, omega arith) 3 (omega arith)
      (omega arith) (omega arith) (omega arith) (omega arith)

abbrev first_row : Option Bitmap → Option (List ℕ)
first_row none = none
first_row (some b) = some (take 12 b.pixels)

-- The first row of the four pixels, three pixels high.
scaled_pixels_of_three :
    first_row (scale_bitmap_to_fit_height colored_bitmap 3)
    ≡ some (2 ∷ 1 ∷ 0 ∷ 3 ∷ 4 ∷ 3 ∷ 2 ∷ 5 ∷ 6 ∷ 5 ∷ 4 ∷ 7 ∷ [])
unfolding scale_bitmap_to_fit_height blend
scaled_pixels_of_three = refl

render_to_png-IsDefined_example :
    IsDefined (render_to_png free_type font_config png_rows request fresh_state)
render_to_png-IsDefined_example =
    render_to_png-IsDefined free_type font_config png_rows (λ f. (omega arith, omega arith)) request
      fresh_state
