-- ===== src/Emoji/Renderer.antt =====
-- EmojiRenderer::renderToPng of cpp/emoji_renderer/emoji_renderer.cpp.
mod Cache
pub mod Calls
pub mod Fitted
pub mod Finish
use edmcoverlay_for_linux.Base.{
  map_outcome, ℕ, zero, suc, ◌+◌, ◌-◌, ◌*◌, ◌/◌, ◌%◌, ◌^◌, ◌==◌, ltb, leb, Bool, true, false, not,
  ◌||◌, Option, none, some, List, [], ◌∷◌, if◌then◌else◌, length, Outcome, finished, undefined,
}
use edmcoverlay_for_linux.Base.Int.{ℤ, pos, negsuc, ◌+ℤ◌, ◌-ℤ◌, pos_part, neg_part}
use edmcoverlay_for_linux.Base.Text.{Bytes}
use edmcoverlay_for_linux.Base.Map.{Map, find, set}
use edmcoverlay_for_linux.Base.Order.{equivalent}
use edmcoverlay_for_linux.Svg.TextTags.{Font, PngData, TextWidth, to_u32}
use edmcoverlay_for_linux.Emoji.Base64.{encode_base64}
use edmcoverlay_for_linux.Emoji.Request.{FontRequirement, EmojiToRender, request_less, to_key}
use edmcoverlay_for_linux.Emoji.FreeType.{FreeType, FtBitmap, LoadOptions, FontConfig, Png}
use edmcoverlay_for_linux.Emoji.Bitmap.{
  Bitmap, copy_glyph, scale_bitmap_to_fit_height, encode_png_rgba,
}
use edmcoverlay_for_linux.Emoji.Faces.{
  Pictures, find_picture, put_picture, no_result, State, get_face, is_color_emoji_font, sized_face,
  render_options, measure_options,
}

module _ {F P : Type 0} (T : FreeType F) (C : FontConfig P) (G : Png) where
  -- From the face to its glyph's bitmap.
  unfoldable pub loaded_glyph : LoadOptions → EmojiToRender → F → Bool × F
  loaded_glyph options what face =
      let index = T.char_index face what.emoji in
      let loaded = T.load_glyph options index face in
      let rendered = T.render_glyph loaded.1 in
      let drawn = T.bitmap rendered.1 in
      if index == 0
      then (false, face)
      else if not loaded.0
      then loaded
      else if not rendered.0
      then rendered
      else (not (drawn.width == 0 || drawn.rows == 0), rendered.1)

  unfoldable pub drawn_glyph : EmojiToRender → F → Bool × F
  unfolding sized_face loaded_glyph is_color_emoji_font
  drawn_glyph what face =
      let face' = T.set_transform face in
      let sized = sized_face T C what.font.font_size face' in
      if sized.0 then loaded_glyph (render_options T C face') what sized.1 else sized

  -- The picture of a glyph; its size arrives at the scaling as an unsigned char.
  unfoldable pub scaled_png : ℕ → Bitmap → Outcome PngData
  unfolding scale_bitmap_to_fit_height encode_base64 encode_png_rgba map_outcome
  scaled_png size bmp = elim (scale_bitmap_to_fit_height bmp (size % 256)) [
    | none ↦ undefined
    | some scaled ↦
        map_outcome
          (λ data'. record {
            width = scaled.width;
            height = scaled.height;
            png_base64 = encode_base64 data';
          })
          (encode_png_rgba G scaled)
  ]

  -- The glyph is there: the picture is made, or the loop goes on with `rest`.
  unfoldable pub stored_png :
      EmojiToRender
      → F
      → State F
      → (State F → Outcome (PngData × State F))
      → Outcome (PngData × State F)
  unfolding put_picture copy_glyph scaled_png
  stored_png what face s rest = elim (copy_glyph what.color (T.bitmap face)) [
    | undefined ↦ undefined
    | Outcome.terminated e ↦ Outcome.terminated e
    | finished none ↦ rest (record s { emojies = put_picture what no_result s.emojies })
    | finished (some bmp) ↦ elim (scaled_png what.font.font_size bmp) [
      | finished png ↦ finished (png, record s { emojies = put_picture what png s.emojies })
      | undefined ↦ undefined
      | Outcome.terminated e ↦ Outcome.terminated e
    ]
  ]

  unfoldable pub with_face :
      EmojiToRender
      → Font
      → F
      → State F
      → (State F → Outcome (PngData × State F))
      → Outcome (PngData × State F)
  unfolding drawn_glyph stored_png set to_key
  with_face what font face s rest =
      let drawn = drawn_glyph what face in
      let s' = record s { faces = set (to_key font) drawn.1 s.faces } in
      if drawn.0 then stored_png what drawn.1 s' rest else rest s'

  -- The loop over the fonts.
  unfoldable pub render_loop : EmojiToRender → List Font → State F → Outcome (PngData × State F)
  unfolding get_face with_face
  render_loop what [] s = finished (no_result, s)
  render_loop what (font ∷ fonts) s =
      let found = get_face T C font s in
      elim found.0 [
        | none ↦ render_loop what fonts found.1
        | some face ↦ with_face what font face found.1 (λ s'. render_loop what fonts s')
      ]

  -- EmojiRenderer::renderToPng
  unfoldable pub render_to_png : EmojiToRender → State F → Outcome (PngData × State F)
  unfolding find_picture render_loop
  render_to_png what s =
      if what.emoji == 0 || not T.init
      then finished (no_result, s)
      else elim (find_picture what s.emojies) [
        | some png ↦ finished (png, s)
        | none ↦ render_loop what what.font.font_face_or_path s
      ]
