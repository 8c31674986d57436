-- ===== src/Emoji/Renderer/Fitted.antt =====
-- The heights of the pictures that renderToPng of cpp/emoji_renderer/emoji_renderer.cpp makes.
use edmcoverlay_for_linux.Base.{
  ap, map_outcome-finished, ℕ, ◌≡◌, refl, subst, ◌%◌, true, false, some, [], ◌∷◌, Bool-cases,
  Option-cases, arith, finished, Ends, inl, inr, ◌==◌, ◌||◌, not, ◌⊎◌, All, is_empty,
}
use edmcoverlay_for_linux.Base.Order.{equivalent}
use edmcoverlay_for_linux.Svg.TextTags.{PngData}
use edmcoverlay_for_linux.Emoji.FreeType.{FreeType, FontConfig, Png}
use edmcoverlay_for_linux.Emoji.Base64.{encode_base64}
use edmcoverlay_for_linux.Emoji.Request.{EmojiToRender, request_less}
use edmcoverlay_for_linux.Emoji.Base64.{encode_base64}
use edmcoverlay_for_linux.Emoji.Request.Order.{equivalent-size}
use edmcoverlay_for_linux.Emoji.Bitmap.{
  Bitmap, scale_bitmap_to_fit_height, scaled_pixels, new_width,
}
use edmcoverlay_for_linux.Emoji.Bitmap.{encode_png_rgba}
use edmcoverlay_for_linux.Emoji.Float.{to_float, div}
use edmcoverlay_for_linux.Emoji.Faces.{Pictures, find_picture, put_picture, no_result, State}
use edmcoverlay_for_linux.Emoji.Renderer.{render_to_png, scaled_png}
use edmcoverlay_for_linux.Emoji.Renderer.Cache.{render_loop-Good}

-- The picture is empty, or as high as the size wanted, which is cut to a byte.
abbrev pub Fits : EmojiToRender → PngData → Type 0
Fits what png = (png.height ≡ 0) ⊎ (png.height ≡ what.font.font_size % 256)

abbrev pub AreFitted : Pictures → Type 0
AreFitted m = All (λ (e : EmojiToRender × PngData). Fits e.0 e.1) m

equal_of :
    (a b : EmojiToRender)
    → request_less a b ≡ false
    → request_less b a ≡ false
    → equivalent request_less a b ≡ true
unfolding equivalent
equal_of a b h k = ground arith

same_size-Fits :
    (a b : EmojiToRender) (png : PngData)
    → equivalent request_less a b ≡ true
    → Fits a png
    → Fits b png
same_size-Fits a b png h (inl z) = inl z
same_size-Fits a b png h (inr e) =
    let size = (equivalent-size a b h).1.1 in inr (subst (λ n. png.height ≡ n % 256) size e)

find_picture-Fits :
    (what : EmojiToRender) (png : PngData) (m : Pictures)
    → AreFitted m
    → find_picture what m ≡ some png
    → Fits what png
unfolding find_picture
find_picture-Fits what png [] f h = absurd (cc)
find_picture-Fits what png ((k, p) ∷ m) f h = elim (Bool-cases (equivalent request_less k what)) [
  | inl same ↦
      let e : some p ≡ some png = rw (same, find_picture) at h in
      let q : p ≡ png = cc in same_size-Fits k what png same (subst (Fits k) q f.0)
  | inr other ↦ find_picture-Fits what png m f.1 (rw (other, find_picture) at h)
]

put_picture-AreFitted :
    (what : EmojiToRender) (png : PngData) (m : Pictures)
    → Fits what png
    → AreFitted m
    → AreFitted (put_picture what png m)
unfolding put_picture
put_picture-AreFitted what png [] fit f = (fit, tt)
put_picture-AreFitted what png ((k, p) ∷ m) fit f = elim (Bool-cases (request_less what k)) [
  | inl less ↦ rw (less, put_picture) (fit, f)
  | inr not_less ↦ elim (Bool-cases (request_less k what)) [
    | inl above ↦ rw (not_less, put_picture, above) (f.0, put_picture-AreFitted what png m fit f.1)
    | inr not_above ↦
        rw (not_less, put_picture, not_above)
          (same_size-Fits what k png (equal_of what k not_less not_above) fit, f.1)
  ]
]

scale_bitmap_to_fit_height-height :
    (bmp scaled : Bitmap) (desired : ℕ)
    → scale_bitmap_to_fit_height bmp desired ≡ some scaled
    → (scaled.height ≡ 0) ⊎ (scaled.height ≡ desired)
unfolding scale_bitmap_to_fit_height
scale_bitmap_to_fit_height-height bmp scaled desired h =
    let scale = div (to_float desired) (to_float bmp.height) in
    elim (Bool-cases ((bmp.height == 0 || bmp.width == 0) || is_empty bmp.pixels)) [
      | inl hollow ↦ inl (ground arith)
      | inr solid ↦ elim (Option-cases (scaled_pixels bmp scale (new_width bmp scale) desired)) [
        | inl bad ↦ absurd (cc)
        | inr (px, good) ↦ inr (cc)
      ]
    ]

module _ {F P : Type 0} (T : FreeType F) (C : FontConfig P) (G : Png) where
  scaled_png-height :
      (size : ℕ) (bmp : Bitmap) (png : PngData)
      → scaled_png T C G size bmp ≡ finished png
      → (png.height ≡ 0) ⊎ (png.height ≡ size % 256)
  unfolding scaled_png
  scaled_png-height size bmp png h =
      elim (Option-cases (scale_bitmap_to_fit_height bmp (size % 256))) [
        | inl bad ↦ absurd (cc)
        | inr (scaled, good) ↦
            let made =
              map_outcome-finished
                (λ data'. record {
                  width = scaled.width;
                  height = scaled.height;
                  png_base64 = encode_base64 data';
                })
                (encode_png_rgba G scaled) png (rw (good, scaled_png) at h) in
            let q : scaled.height ≡ png.height = ap (λ (p : PngData). p.height) made.1 in
            subst (λ n. (n ≡ 0) ⊎ (n ≡ size % 256)) q
              (scale_bitmap_to_fit_height-height bmp scaled (size % 256) good)
      ]

  -- Every picture that renderToPng gives, and every one that it keeps, is empty or as high as the
  -- request wants, modulo 256: the call keeps this of the pictures, provided it held before.
  pub render_to_png-AreFitted :
      (what : EmojiToRender) (s : State F)
      → AreFitted s.emojies
      → Ends (λ r. Fits what r.0 × AreFitted r.1.emojies) (render_to_png T C G what s)
  unfolding render_to_png
  render_to_png-AreFitted what s f = elim (Bool-cases (what.emoji == 0 || not T.init)) [
    | inl off ↦ rw (off, Ends) (inl refl, f)
    | inr on ↦ elim (Option-cases (find_picture what s.emojies)) [
      | inr (png, have) ↦ rw (on, have, Ends) (find_picture-Fits what png s.emojies f have, f)
      | inl absent ↦
          rw (on, absent, Ends)
            (render_loop-Good T C G what AreFitted (λ png m. Fits what png × AreFitted m)
              (λ m i. put_picture-AreFitted what no_result m (inl refl) i) (λ m i. (inl refl, i))
              (λ m bmp png scaled i.
                let fit = scaled_png-height what.font.font_size bmp png scaled in
                (fit, put_picture-AreFitted what png m fit i))
              what.font.font_face_or_path s f)
    ]
  ]
