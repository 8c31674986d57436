-- ===== src/Emoji/Bitmap/Whole.antt =====
-- The pictures that renderToPng of cpp/emoji_renderer/emoji_renderer.cpp copies from glyphs can be scaled.
use native.Mathlib.Nat.{mul-le-mul}
use edmcoverlay_for_linux.Base.{
  ℕ, ◌*◌, ◌^◌, ◌≤◌, ◌<◌, ◌==◌, ◌≡◌, refl, false, Bool-cases, none, some, Option, Outcome, finished,
  ◌⊎◌, inl, inr, arith,
}
use edmcoverlay_for_linux.Emoji.FreeType.{FtBitmap}
use edmcoverlay_for_linux.Emoji.Bitmap.{
  Bitmap, copy_glyph, gray_pixel, bgra_pixel, blank, scale_bitmap_to_fit_height,
}
use edmcoverlay_for_linux.Emoji.Bitmap.Pixels.{Pixel}
use edmcoverlay_for_linux.Emoji.Bitmap.Copied.{
  PixelMode-cases, CopiedAs, copy_gray-CopiedAs, copy_bgra-CopiedAs,
}
use edmcoverlay_for_linux.Emoji.Bitmap.Scaled.{IsWhole, scale_bitmap_to_fit_height-Scaled}

-- A glyph of at most 2 ^ 13 pixels in each direction.
abbrev pub IsSmall : FtBitmap → Type 0
IsSmall glyph = (glyph.width ≤ 2 ^ 13) × (glyph.rows ≤ 2 ^ 13)

positive : (n : ℕ) → (n == 0) ≡ false → 0 < n
positive n h = ground arith

-- The picture of a small glyph can be scaled.
abbrev pub CanScale : Bitmap → Type 0
CanScale bmp = IsWhole bmp × (bmp.width ≤ 2 ^ 13) × (bmp.height ≤ 2 ^ 13)

-- The copy of a small glyph is a picture that can be scaled, or there is none.
abbrev pub CopiesWell : Outcome (Option Bitmap) → Type 0
CopiesWell o = (o ≡ finished none) ⊎ ((bmp : Bitmap) × (o ≡ finished (some bmp)) × CanScale bmp)

CopiedAs-CanScale :
    (pixel : ℕ → ℕ → Pixel) (glyph : FtBitmap) (o : Outcome (Option Bitmap))
    → IsSmall glyph
    → CopiedAs pixel glyph o
    → CopiesWell o
CopiedAs-CanScale pixel glyph o (narrow, low) (px, made, long, all) =
    let area : glyph.width * glyph.rows ≤ 2 ^ 13 * 2 ^ 13 = mul-le-mul narrow low in
    inr (
      record { width = glyph.width; height = glyph.rows; pixels = px },
      made,
      ((long, omega arith), narrow, low),
    )

pub copy_glyph-CanScale :
    (color : ℕ) (glyph : FtBitmap) → IsSmall glyph → CopiesWell (copy_glyph color glyph)
unfolding copy_glyph gray_pixel bgra_pixel
copy_glyph-CanScale color glyph (narrow, low) =
    let area : glyph.rows * glyph.width ≤ 2 ^ 13 * 2 ^ 13 = mul-le-mul low narrow in
    elim (PixelMode-cases glyph.pixel_mode) [
      | inl m ↦
          rw (m, copy_glyph)
            (CopiedAs-CanScale (gray_pixel color glyph) glyph _ (narrow, low)
              (copy_gray-CopiedAs color glyph (omega arith)))
      | inr (inl m) ↦
          rw (m, copy_glyph)
            (CopiedAs-CanScale (bgra_pixel glyph) glyph _ (narrow, low)
              (copy_bgra-CopiedAs glyph (omega arith)))
      | inr (inr m) ↦ rw (m, copy_glyph) (inl refl)
    ]

pub scale_bitmap_to_fit_height-some :
    (bmp : Bitmap) (desired : ℕ)
    → CanScale bmp
    → desired < 256
    → (scaled : Bitmap) × (scale_bitmap_to_fit_height bmp desired ≡ some scaled)
unfolding scale_bitmap_to_fit_height
scale_bitmap_to_fit_height-some bmp desired (whole, narrow, low) byte =
    elim (Bool-cases (bmp.height == 0)) [
      | inl flat ↦ (blank 0 0, rw (flat) refl)
      | inr tall ↦ elim (Bool-cases (bmp.width == 0)) [
        | inl thin ↦ (blank 0 0, rw (tall, thin) refl)
        | inr wide ↦
            let (scaled, e, height, long) =
              scale_bitmap_to_fit_height-Scaled bmp whole desired byte (positive bmp.height tall)
                (omega arith) narrow (positive bmp.width wide) in
            (scaled, e)
      ]
    ]
