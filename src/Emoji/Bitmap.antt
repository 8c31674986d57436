-- ===== src/Emoji/Bitmap.antt =====
-- Bitmap of cpp/emoji_renderer/emoji_renderer.cpp: the pixels copied from a glyph, scaled, and
-- packed. A read or a write past the end of the pixels is `none`.
pub mod Pixels
mod Loops
mod Inside
pub mod Scaled
pub mod Whole
pub mod Copied
use edmcoverlay_for_linux.Base.{
  ℕ, zero, suc, ◌+◌, ◌-◌, ◌*◌, ◌/◌, ◌%◌, ◌^◌, ◌==◌, ltb, Bool, ◌||◌, Option, none, some, List, [],
  ◌∷◌, ◌++◌, if◌then◌else◌, replicate, length, set_at, get_elem?, drop, is_empty, for_below, not,
  Outcome, finished, Exception, undefined,
}
use edmcoverlay_for_linux.Base.Text.{Bytes}
use edmcoverlay_for_linux.Emoji.FreeType.{PixelMode, FtBitmap, Png}
use edmcoverlay_for_linux.Emoji.Float.{Float, to_float, add, sub, mul, div, truncated}

infixl 5 ◌>>=◌
abbrev ◌>>=◌ {ℓ κ} : {A : Type ℓ} {B : Type κ} → Option A → (A → Option B) → Option B
none >>= next = none
some a >>= next = next a

-- The pixels are RGBA.
pub record Bitmap : Type 0 where
  pub width : ℕ
  pub height : ℕ
  pub pixels : List ℕ

-- Bitmap::Bitmap
unfoldable pub blank : ℕ → ℕ → Bitmap
blank w h = record { width = w; height = h; pixels = replicate (w * h * 4) 0 }

unfoldable pub write_pixel : ℕ → (ℕ × ℕ × ℕ × ℕ) → List ℕ → List ℕ
write_pixel i (r, g, b, a) px =
    set_at (i + 3) a (set_at (i + 2) b (set_at (i + 1) g (set_at i r px)))

-- bmp.pixels[idx + 0] = ... bmp.pixels[idx + 3] = ..., in place.
unfoldable pub put_pixel : ℕ → (ℕ × ℕ × ℕ × ℕ) → Option (List ℕ) → Option (List ℕ)
unfolding write_pixel
put_pixel i p px = do
  pixels ← px
  if ltb (i + 3) (length pixels) then some (write_pixel i p pixels) else none

-- The bitmap with the pixels that were written.
unfoldable pub copied_to : Bitmap → Option (List ℕ) → Outcome (Option Bitmap)
copied_to bmp none = undefined
copied_to bmp (some px) = finished (some (record bmp { pixels = px }))

-- The case FT_PIXEL_MODE_GRAY: the color of the request with the glyph's coverage as its alpha.
unfoldable pub gray_pixel : ℕ → FtBitmap → ℕ → ℕ → ℕ × ℕ × ℕ × ℕ
gray_pixel color glyph y x = (
  color / 2 ^ 16 % 256,
  color / 2 ^ 8 % 256,
  color % 256,
  glyph.buffer ((y * glyph.pitch + x) % 2 ^ 32),
)

unfoldable pub copy_gray : ℕ → FtBitmap → Bitmap → Outcome (Option Bitmap)
unfolding gray_pixel put_pixel for_below copied_to
copy_gray color glyph bmp = copied_to bmp (
    for_below glyph.rows
      (λ y.
        for_below glyph.width
          (λ x. put_pixel ((y * glyph.width + x) * 4 % 2 ^ 32) (gray_pixel color glyph y x)))
      (some bmp.pixels))

-- The case FT_PIXEL_MODE_BGRA
unfoldable pub bgra_pixel : FtBitmap → ℕ → ℕ → ℕ × ℕ × ℕ × ℕ
bgra_pixel glyph y x =
    let src = y * glyph.pitch in
    (
      glyph.buffer (src + (4 * x + 2)),
      glyph.buffer (src + (4 * x + 1)),
      glyph.buffer (src + 4 * x),
      glyph.buffer (src + (4 * x + 3)),
    )

unfoldable pub copy_bgra : FtBitmap → Bitmap → Outcome (Option Bitmap)
unfolding bgra_pixel put_pixel for_below copied_to
copy_bgra glyph bmp = copied_to bmp (
    for_below glyph.rows
      (λ y.
        for_below glyph.width
          (λ x. put_pixel (y * glyph.width * 4 % 2 ^ 32 + 4 * x) (bgra_pixel glyph y x)))
      (some bmp.pixels))

-- The switch over the pixel mode; `none` is its default.
unfoldable pub copy_glyph : ℕ → FtBitmap → Outcome (Option Bitmap)
unfolding copy_gray copy_bgra blank
copy_glyph color glyph = elim glyph.pixel_mode [
  | PixelMode.gray ↦ copy_gray color glyph (blank glyph.width glyph.rows)
  | PixelMode.bgra ↦ copy_bgra glyph (blank glyph.width glyph.rows)
  | PixelMode.other ↦ finished none
]

-- (1 - fx) * (1 - fy) * v00 + fx * (1 - fy) * v10 + (1 - fx) * fy * v01 + fx * fy * v11
unfoldable pub blend : Float → Float → ℕ → ℕ → ℕ → ℕ → ℕ
unfolding to_float add sub mul truncated
blend fx fy v00 v10 v01 v11 =
    let gx = sub (to_float 1) fx in
    let gy = sub (to_float 1) fy in
    truncated (
      add
        (add (add (mul (mul gx gy) (to_float v00)) (mul (mul fx gy) (to_float v10)))
          (mul (mul gx fy) (to_float v01)))
        (mul (mul fx fy) (to_float v11)))
    % 256

-- std::min(i + 1, size - 1)
unfoldable pub neighbor : ℕ → ℕ → ℕ
neighbor i size = if ltb (size - 1) (i + 1) then size - 1 else i + 1

unfoldable pub blended : Float → Float → Option ℕ → Option ℕ → Option ℕ → Option ℕ → Option ℕ
blended fx fy r00 r10 r01 r11 = do
  v00 ← r00
  v10 ← r10
  v01 ← r01
  v11 ← r11
  some (blend fx fy v00 v10 v01 v11)

-- pixels[i] = v, in place: there is no such byte past the end.
unfoldable pub put_byte : ℕ → Option ℕ → Option (List ℕ) → Option (List ℕ)
put_byte i r px = do
  pixels ← px
  v ← r
  if ltb i (length pixels) then some (set_at i v pixels) else none

module _ (bmp : Bitmap) where
  unfoldable pub sample : ℕ → ℕ → ℕ → Option ℕ
  sample y x c = get_elem? bmp.pixels (((y * bmp.width + x) * 4 + c) % 2 ^ 32)

  -- One byte of the scaled picture.
  unfoldable pub scaled_byte : Float → ℕ → ℕ → ℕ → Option ℕ
  unfolding sample blended neighbor to_float div sub truncated
  scaled_byte scale y x c =
      let src_y = div (to_float y) scale in
      let src_x = div (to_float x) scale in
      let y0 = truncated src_y in
      let x0 = truncated src_x in
      let fy = sub src_y (to_float y0) in
      let fx = sub src_x (to_float x0) in
      let y1 = neighbor y0 bmp.height in
      let x1 = neighbor x0 bmp.width in
      blended fx fy (sample y0 x0 c) (sample y0 x1 c) (sample y1 x0 c) (sample y1 x1 c)

  unfoldable pub put_scaled : Float → ℕ → ℕ → ℕ → ℕ → Option (List ℕ) → Option (List ℕ)
  unfolding scaled_byte put_byte
  put_scaled scale width y x c px =
      put_byte (((y * width + x) * 4 + c) % 2 ^ 32) (scaled_byte scale y x c) px

  unfoldable pub scaled_pixels : Float → ℕ → ℕ → Option (List ℕ)
  unfolding put_scaled for_below
  scaled_pixels scale width height =
      for_below height (λ y. for_below width (λ x. for_below 4 (λ c. put_scaled scale width y x c)))
        (some (replicate (width * height * 4) 0))

  -- scaleBitmapToFitHeight: the height wanted is an unsigned char.
  unfoldable pub new_width : Float → ℕ
  unfolding to_float mul truncated
  new_width scale = truncated (mul (to_float bmp.width) scale)

  unfoldable pub scale_bitmap_to_fit_height : ℕ → Option Bitmap
  unfolding to_float div new_width scaled_pixels blank
  scale_bitmap_to_fit_height desired =
      let scale = div (to_float desired) (to_float bmp.height) in
      if (bmp.height == 0 || bmp.width == 0) || is_empty bmp.pixels then some (blank 0 0) else do
        px ← scaled_pixels scale (new_width scale) desired
        some (record { width = new_width scale; height = desired; pixels = px })

-- The rows that libpng is given, each a pointer to its first pixel.
unfoldable pub rows_from : Bitmap → ℕ → ℕ → List Bytes
rows_from bmp zero y = []
rows_from bmp (suc n) y = drop (y * bmp.width * 4 % 2 ^ 32) bmp.pixels ∷ rows_from bmp n (suc y)

unfoldable pub joined : List Bytes → Bytes
joined [] = []
joined (data' ∷ rest) = data' ++ joined rest

-- encodePngRGBA. libpng refuses a picture without pixels, and aborts the process, since the program sets
-- no handler of its errors.
unfoldable pub encode_png_rgba : Png → Bitmap → Outcome Bytes
unfolding joined rows_from
encode_png_rgba P bmp =
    if not P.create
    then finished []
    else if bmp.width == 0 || bmp.height == 0
    then Outcome.terminated Exception.runtime_error
    else finished (joined (P.write bmp.width bmp.height (rows_from bmp bmp.height 0)))
