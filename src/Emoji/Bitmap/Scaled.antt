-- ===== src/Emoji/Bitmap/Scaled.antt =====
-- scaleBitmapToFitHeight of cpp/emoji_renderer/emoji_renderer.cpp reads and writes inside the pictures.
use native.Mathlib.Nat.{mul_comm, mod-le, mul-pos}
use edmcoverlay_for_linux.Base.{
  ℕ, zero, suc, ◌+◌, ◌*◌, ◌%◌, ◌^◌, ◌≤◌, ◌<◌, ◌==◌, ◌≡◌, refl, ◌∙◌, arith, true, false, ltb, Option,
  some, List, [], ◌∷◌, length, get_elem?, set_at, replicate, for_below, is_empty,
}
use edmcoverlay_for_linux.Emoji.Float.{Float, to_float, div, sub, truncated}
use edmcoverlay_for_linux.Emoji.Bitmap.{
  Bitmap, neighbor, sample, scaled_byte, put_scaled, put_byte, blended, scaled_pixels, new_width,
  blend, scale_bitmap_to_fit_height,
}
use edmcoverlay_for_linux.Emoji.Bitmap.Pixels.{length-set_at}
use edmcoverlay_for_linux.Emoji.Bitmap.Loops.{cell_below, length-replicate}
use edmcoverlay_for_linux.Emoji.Bitmap.Inside.{scale, row_inside, column_inside}

-- The pixels are as many as the size says, and their indices fit in 32 bits.
abbrev pub IsWhole : Bitmap → Type 0
IsWhole bmp =
    (length bmp.pixels ≡ bmp.width * bmp.height * 4) × (bmp.width * bmp.height * 4 ≤ 2 ^ 32)

pub for_below-keeps {ℓ} :
    {A : Type ℓ} (P : A → Type 0) (n : ℕ) (f : ℕ → A → A) (a : A)
    → ((i : ℕ) (b : A) → i < n → P b → P (f i b))
    → P a
    → P (for_below n f a)
unfolding for_below
for_below-keeps P zero f a step p = p
for_below-keeps P (suc n) f a step p =
    step n (for_below n f a) (omega arith)
      (for_below-keeps P n f a (λ i b below q. step i b (omega arith) q) p)

get_elem?-inside : (xs : List ℕ) (i : ℕ) → i < length xs → (v : ℕ) × (get_elem? xs i ≡ some v)
get_elem?-inside [] i h = absurd (omega arith)
get_elem?-inside (x ∷ xs) zero h = (x, refl)
get_elem?-inside (x ∷ xs) (suc i) h = get_elem?-inside xs i (omega arith)

not_zero : (n : ℕ) → 0 < n → (n == 0) ≡ false
not_zero n h = ground arith

nonempty : (xs : List ℕ) → 0 < length xs → is_empty xs ≡ false
nonempty [] h = absurd (omega arith)
nonempty (x ∷ xs) h = refl

neighbor-inside : (i size : ℕ) → i < size → neighbor i size < size
unfolding neighbor
neighbor-inside i size h = ground arith

blended-some :
    (fx fy : Float) {r00 r10 r01 r11 : Option ℕ} (v00 v10 v01 v11 : ℕ)
    → r00 ≡ some v00
    → r10 ≡ some v10
    → r01 ≡ some v01
    → r11 ≡ some v11
    → blended fx fy r00 r10 r01 r11 ≡ some (blend fx fy v00 v10 v01 v11)
unfolding blended
blended-some fx fy v00 v10 v01 v11 e00 e10 e01 e11 = rw (e00, e10, e01, e11) refl

put_byte-some :
    (i v : ℕ) {r : Option ℕ} {o : Option (List ℕ)} (px : List ℕ)
    → r ≡ some v
    → o ≡ some px
    → i < length px
    → put_byte i r o ≡ some (set_at i v px)
unfolding put_byte
put_byte-some i v px read e inside =
    let there : ltb i (length px) ≡ true = ground arith in rw (read, e, there) refl

module _ (bmp : Bitmap) (whole : IsWhole bmp) where
  sample-inside :
      (y x c : ℕ) → y < bmp.height → x < bmp.width → c < 4 → (v : ℕ) × (sample bmp y x c ≡ some v)
  unfolding sample
  sample-inside y x c above beside small =
      let (long, fits) = whole in
      let inside = cell_below bmp.width bmp.height y x above beside in
      let flip = mul_comm bmp.width bmp.height in
      let cut = mod-le ((y * bmp.width + x) * 4 + c) (2 ^ 32) in
      get_elem?-inside bmp.pixels (((y * bmp.width + x) * 4 + c) % 2 ^ 32) (omega arith)

  scaled_byte-inside :
      (s : Float) (y x c : ℕ)
      → truncated (div (to_float y) s) < bmp.height
      → truncated (div (to_float x) s) < bmp.width
      → c < 4
      → (v : ℕ) × (scaled_byte bmp s y x c ≡ some v)
  unfolding scaled_byte
  scaled_byte-inside s y x c above beside small =
      let y0 = truncated (div (to_float y) s) in
      let x0 = truncated (div (to_float x) s) in
      let below = neighbor-inside y0 bmp.height above in
      let next = neighbor-inside x0 bmp.width beside in
      let (v00, e00) = sample-inside y0 x0 c above beside small in
      let (v10, e10) = sample-inside y0 (neighbor x0 bmp.width) c above next small in
      let (v01, e01) = sample-inside (neighbor y0 bmp.height) x0 c below beside small in
      let (v11, e11) =
        sample-inside (neighbor y0 bmp.height) (neighbor x0 bmp.width) c below next small in
      let fy = sub (div (to_float y) s) (to_float y0) in
      let fx = sub (div (to_float x) s) (to_float x0) in
      (blend fx fy v00 v10 v01 v11, blended-some fx fy v00 v10 v01 v11 e00 e10 e01 e11)

  abbrev Filled : ℕ → Option (List ℕ) → Type 0
  Filled n o = (px : List ℕ) × (o ≡ some px) × (length px ≡ n)

  put_scaled-Filled :
      (s : Float) (width height y x c : ℕ) (o : Option (List ℕ))
      → y < height
      → x < width
      → truncated (div (to_float y) s) < bmp.height
      → truncated (div (to_float x) s) < bmp.width
      → c < 4
      → Filled (width * height * 4) o
      → Filled (width * height * 4) (put_scaled bmp s width y x c o)
  unfolding put_scaled
  put_scaled-Filled s width height y x c o up left above beside small (px, e, long) =
      let (v, read) = scaled_byte-inside s y x c above beside small in
      let index = ((y * width + x) * 4 + c) % 2 ^ 32 in
      let cell = cell_below width height y x up left in
      let flip = mul_comm width height in
      let cut = mod-le ((y * width + x) * 4 + c) (2 ^ 32) in
      (
        set_at index v px,
        put_byte-some index v px read e (omega arith),
        length-set_at index v px ∙ long,
      )

  module _ (desired : ℕ) (byte : desired < 256) (some_height : 0 < bmp.height)
      (high : bmp.height ≤ 2 ^ 30) (narrow : bmp.width ≤ 2 ^ 13) where
    scaled_pixels-Filled :
        let s = scale desired bmp.height byte some_height high in
        Filled (new_width bmp s * desired * 4) (scaled_pixels bmp s (new_width bmp s) desired)
    unfolding scaled_pixels new_width
    scaled_pixels-Filled =
        let s = scale desired bmp.height byte some_height high in
        let width = new_width bmp s in
        let n = width * desired * 4 in
        for_below-keeps (Filled n) desired
          (λ y. for_below width (λ x. for_below 4 (λ c. put_scaled bmp s width y x c)))
          (some (replicate n 0))
          (λ y o above filled.
            for_below-keeps (Filled n) width (λ x. for_below 4 (λ c. put_scaled bmp s width y x c))
              o
              (λ x o' beside filled'.
                for_below-keeps (Filled n) 4 (λ c. put_scaled bmp s width y x c) o'
                  (λ c o'' small filled''.
                    put_scaled-Filled s width desired y x c o'' above beside
                      (row_inside desired bmp.height byte some_height high y above)
                      (column_inside desired bmp.height byte some_height high bmp.width x narrow
                        beside)
                      small filled'')
                  filled')
              filled)
          (replicate n 0, refl, length-replicate n 0)

    -- scaleBitmapToFitHeight, for a height below 256, reads inside the picture given and writes inside the
    -- new one: it gives a picture of the height wanted with as many bytes as its size says, and not the
    -- `none` of an access past an end. The picture given has at least one pixel, as many bytes as its
    -- size says and at most 2 ^ 32, and is at most 2 ^ 13 pixels wide and 2 ^ 30 high.
    pub scale_bitmap_to_fit_height-Scaled :
        0 < bmp.width
        → (scaled : Bitmap) × (scale_bitmap_to_fit_height bmp desired ≡ some scaled)
          × (scaled.height ≡ desired)
          × (length scaled.pixels ≡ scaled.width * scaled.height * 4)
    unfolding scale_bitmap_to_fit_height
    scale_bitmap_to_fit_height-Scaled some_width =
        let s = scale desired bmp.height byte some_height high in
        let (px, filled, long) = scaled_pixels-Filled in
        let tall = not_zero bmp.height some_height in
        let wide = not_zero bmp.width some_width in
        let cells = mul-pos some_width some_height in
        let full : is_empty bmp.pixels ≡ false = nonempty bmp.pixels (omega (arith, whole.0)) in
        (
          record { width = new_width bmp s; height = desired; pixels = px },
          rw (tall, wide, full, filled) refl,
          refl,
          long,
        )
