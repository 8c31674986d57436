-- ===== src/Emoji/Bitmap/Copied.antt =====
-- The pixels that renderToPng of cpp/emoji_renderer/emoji_renderer.cpp copies from a glyph.
use native.Mathlib.Nat.{mod-eq_of_lt, mul_comm}
use edmcoverlay_for_linux.Base.{
  ℕ, List, ◌+◌, ◌*◌, ◌^◌, ◌%◌, ◌/◌, subst, ◌≤◌, ◌<◌, ◌≡◌, refl, sym, ◌∙◌, ap, arith, inl, inr, none,
  some, ◌⊎◌, replicate, length, for_below, Option, Outcome, finished,
}
use edmcoverlay_for_linux.Emoji.FreeType.{FtBitmap, PixelMode}
use edmcoverlay_for_linux.Emoji.Bitmap.{
  Bitmap, put_pixel, copied_to, gray_pixel, bgra_pixel, copy_gray, copy_bgra, copy_glyph, blank,
}
use edmcoverlay_for_linux.Emoji.Bitmap.Pixels.{Pixel, pixel_at}
use edmcoverlay_for_linux.Emoji.Bitmap.Loops.{
  cell_below, length-replicate, table, checked-table, table-pixel,
}

-- What a pixel of the copy is: in the gray mode the color of the request with the glyph's coverage,
-- in the other that of the glyph with blue and red swapped.
abbrev pub Copies : ℕ → FtBitmap → ℕ → ℕ → Pixel → Type 0
unfolding gray_pixel bgra_pixel
Copies color glyph y x p = elim glyph.pixel_mode [
  | PixelMode.gray ↦ p ≡ (
    color / 2 ^ 16 % 256,
    color / 2 ^ 8 % 256,
    color % 256,
    glyph.buffer ((y * glyph.pitch + x) % 2 ^ 32),
  )
  | PixelMode.bgra ↦ p ≡ (
    glyph.buffer (y * glyph.pitch + (4 * x + 2)),
    glyph.buffer (y * glyph.pitch + (4 * x + 1)),
    glyph.buffer (y * glyph.pitch + 4 * x),
    glyph.buffer (y * glyph.pitch + (4 * x + 3)),
  )
  | PixelMode.other ↦ ⊥
]

pub PixelMode-cases :
    (m : PixelMode) → (m ≡ PixelMode.gray) ⊎ ((m ≡ PixelMode.bgra) ⊎ (m ≡ PixelMode.other))
PixelMode-cases PixelMode.gray = inl refl
PixelMode-cases PixelMode.bgra = inr (inl refl)
PixelMode-cases PixelMode.other = inr (inr refl)

-- The copy is made, with as many bytes as its size says, and each pixel in its place.
abbrev pub CopiedAs : (ℕ → ℕ → Pixel) → FtBitmap → Outcome (Option Bitmap) → Type 0
CopiedAs pixel glyph o =
    (px : List ℕ) × (o
      ≡ finished (some (record { width = glyph.width; height = glyph.rows; pixels = px })))
    × (length px ≡ glyph.width * glyph.rows * 4)
    × ((y x : ℕ)
        → y < glyph.rows
        → x < glyph.width
        → pixel_at px ((y * glyph.width + x) * 4) ≡ pixel y x)

copied-table :
    (pixel : ℕ → ℕ → Pixel) (glyph : FtBitmap) (index : ℕ → ℕ → ℕ)
    → ((y x : ℕ) → y < glyph.rows → x < glyph.width → index y x ≡ (y * glyph.width + x) * 4)
    → CopiedAs pixel glyph (
        copied_to (blank glyph.width glyph.rows) (
          for_below glyph.rows
            (λ y. for_below glyph.width (λ x. put_pixel (index y x) (pixel y x)))
            (some (blank glyph.width glyph.rows).pixels)))
unfolding copied_to blank
copied-table pixel glyph index index_cell =
    let w = glyph.width in
    let h = glyph.rows in
    let px : List ℕ = replicate (w * h * 4) 0 in
    let long = length-replicate (w * h * 4) 0 in
    let flip = mul_comm w h in
    let (written, same) = checked-table w pixel h index index_cell px (omega arith) in
    (
      table w pixel h px,
      ap (copied_to (blank w h)) written,
      same ∙ long,
      λ y x above beside. table-pixel w pixel h y x px above beside (omega arith),
    )

pub copy_gray-CopiedAs :
    (color : ℕ) (glyph : FtBitmap)
    → glyph.rows * glyph.width * 4 ≤ 2 ^ 32
    → CopiedAs (gray_pixel color glyph) glyph (copy_gray color glyph (blank glyph.width glyph.rows))
unfolding copy_gray
copy_gray-CopiedAs color glyph small =
    let w = glyph.width in
    copied-table (gray_pixel color glyph) glyph (λ i j. (i * w + j) * 4 % 2 ^ 32)
      (λ i j up left.
        let inside = cell_below w glyph.rows i j up left in
        mod-eq_of_lt {n = (i * w + j) * 4} {m = 2 ^ 32} (omega arith))

pub copy_bgra-CopiedAs :
    (glyph : FtBitmap)
    → glyph.rows * glyph.width * 4 ≤ 2 ^ 32
    → CopiedAs (bgra_pixel glyph) glyph (copy_bgra glyph (blank glyph.width glyph.rows))
unfolding copy_bgra
copy_bgra-CopiedAs glyph small =
    let w = glyph.width in
    copied-table (bgra_pixel glyph) glyph (λ i j. i * w * 4 % 2 ^ 32 + 4 * j)
      (λ i j up left.
        let inside = cell_below w glyph.rows i j up left in
        let start = mod-eq_of_lt {n = i * w * 4} {m = 2 ^ 32} (omega arith) in omega arith)

-- What the copy is, if there is one.
CopiedAs-pixel :
    (pixel : ℕ → ℕ → Pixel) (glyph : FtBitmap) (o : Outcome (Option Bitmap)) (bmp : Bitmap)
    → CopiedAs pixel glyph o
    → o ≡ finished (some bmp)
    → (y x : ℕ) → y < glyph.rows
    → x < glyph.width
    → pixel_at bmp.pixels ((y * glyph.width + x) * 4) ≡ pixel y x
CopiedAs-pixel pixel glyph o bmp (px, made, long, all) copied y x above beside =
    let made_bmp : Bitmap = record { width = glyph.width; height = glyph.rows; pixels = px } in
    let both : finished (some made_bmp) ≡ finished (some bmp) = sym made ∙ copied in
    let e : made_bmp ≡ bmp = cc in
    subst (λ b. pixel_at b.pixels ((y * glyph.width + x) * 4) ≡ pixel y x) e (all y x above beside)

-- Each pixel of a copied glyph is the one that its mode says, in a bitmap of at most 2 ^ 32 bytes; in
-- the modes that the code does not know there is no copy.
pub copy_glyph-Copies :
    (color : ℕ) (glyph : FtBitmap) (bmp : Bitmap) (y x : ℕ)
    → copy_glyph color glyph ≡ finished (some bmp)
    → y < glyph.rows
    → x < glyph.width
    → glyph.rows * glyph.width * 4 ≤ 2 ^ 32
    → Copies color glyph y x (pixel_at bmp.pixels ((y * glyph.width + x) * 4))
unfolding copy_glyph gray_pixel bgra_pixel
copy_glyph-Copies color glyph bmp y x copied above beside small =
    elim (PixelMode-cases glyph.pixel_mode) [
      | inl m ↦
          let e : copy_gray color glyph (blank glyph.width glyph.rows) ≡ finished (some bmp) =
            rw (m, copy_glyph) at copied in
          rw (m) (
            CopiedAs-pixel (gray_pixel color glyph) glyph _ bmp
              (copy_gray-CopiedAs color glyph small) e y x above beside)
      | inr (inl m) ↦
          let e : copy_bgra glyph (blank glyph.width glyph.rows) ≡ finished (some bmp) =
            rw (m, copy_glyph) at copied in
          rw (m) (
            CopiedAs-pixel (bgra_pixel glyph) glyph _ bmp (copy_bgra-CopiedAs glyph small) e y x
              above beside)
      | inr (inr m) ↦
          let none_made : finished none ≡ finished (some bmp) = rw (m, copy_glyph) at copied in
          absurd (cc)
    ]
