-- ===== src/Emoji/Renderer/Finish.antt =====
-- The copy and the scaling of renderToPng, cpp/emoji_renderer/emoji_renderer.cpp, stay inside the pictures.
use native.Mathlib.Nat.{mod-lt}
use edmcoverlay_for_linux.Base.{
  ◌%◌, ◌==◌, ◌||◌, not, Bool-cases, Option-cases, List, [], ◌∷◌, inl, inr, arith, Outcome,
  IsDefined, map_outcome-IsDefined,
}
use edmcoverlay_for_linux.Base.Map.{set}
use edmcoverlay_for_linux.Svg.TextTags.{Font, PngData}
use edmcoverlay_for_linux.Emoji.FreeType.{FreeType, FontConfig, Png}
use edmcoverlay_for_linux.Emoji.Request.{EmojiToRender, to_key}
use edmcoverlay_for_linux.Emoji.Bitmap.{Bitmap, encode_png_rgba}
use edmcoverlay_for_linux.Emoji.Bitmap.Whole.{
  IsSmall, copy_glyph-CanScale, scale_bitmap_to_fit_height-some,
}
use edmcoverlay_for_linux.Emoji.Faces.{find_picture, put_picture, no_result, State, get_face}
use edmcoverlay_for_linux.Emoji.Renderer.{
  render_to_png, render_loop, with_face, stored_png, drawn_glyph, scaled_png,
}

encode_png_rgba-IsDefined : (G : Png) (bmp : Bitmap) → IsDefined (encode_png_rgba G bmp)
unfolding encode_png_rgba
encode_png_rgba-IsDefined G bmp = ground arith

module _ {F P : Type 0} (T : FreeType F) (C : FontConfig P) (G : Png)
    (small : (f : F) → IsSmall (T.bitmap f)) where
  abbrev Ready : Outcome (PngData × State F) → Type 0
  Ready = IsDefined

  stored_png-Ready :
      (what : EmojiToRender) (face : F) (s : State F) (rest : State F → Outcome (PngData × State F))
      → ((s' : State F) → Ready (rest s'))
      → Ready (stored_png T C G what face s rest)
  unfolding stored_png scaled_png
  stored_png-Ready what face s rest more =
      elim (copy_glyph-CanScale what.color (T.bitmap face) (small face)) [
        | inl other ↦
            rw (other, IsDefined)
              (more (record s { emojies = put_picture what no_result s.emojies }))
        | inr (bmp, copied, can) ↦
            let size = what.font.font_size % 256 in
            let (scaled, e) =
              scale_bitmap_to_fit_height-some bmp size can
                (mod-lt what.font.font_size (omega arith)) in
            rw (copied, IsDefined, e)
              (map_outcome-IsDefined _ _
                (map_outcome-IsDefined _ _ (encode_png_rgba-IsDefined G scaled)))
      ]

  with_face-Ready :
      (what : EmojiToRender) (font : Font) (face : F) (s : State F)
      (rest : State F → Outcome (PngData × State F))
      → ((s' : State F) → Ready (rest s'))
      → Ready (with_face T C G what font face s rest)
  unfolding with_face
  with_face-Ready what font face s rest more =
      let s' = record s { faces = set (to_key font) (drawn_glyph T C G what face).1 s.faces } in
      elim (Bool-cases (drawn_glyph T C G what face).0) [
        | inl drawn ↦
            rw (drawn, IsDefined)
              (stored_png-Ready what (drawn_glyph T C G what face).1 s' rest more)
        | inr none_drawn ↦ rw (none_drawn, IsDefined) (more s')
      ]

  render_loop-Ready :
      (what : EmojiToRender) (fonts : List Font) (s : State F)
      → Ready (render_loop T C G what fonts s)
  unfolding render_loop
  render_loop-Ready what [] s = tt
  render_loop-Ready what (font ∷ fonts) s =
      let found = get_face T C font s in
      elim (Option-cases found.0) [
        | inl no_face ↦ rw (no_face, IsDefined) (render_loop-Ready what fonts found.1)
        | inr (face, here) ↦
            rw (here, IsDefined)
              (with_face-Ready what font face found.1 (λ s'. render_loop T C G what fonts s')
                (λ s'. render_loop-Ready what fonts s'))
      ]

  -- If the glyphs that FreeType draws have at most 2 ^ 13 pixels in each direction, the copy of the glyph
  -- writes no pixel, and the scaling reads and writes none, past the end of a picture: renderToPng has a
  -- result, or ends the process by the abort of libpng.
  pub render_to_png-IsDefined :
      (what : EmojiToRender) (s : State F) → IsDefined (render_to_png T C G what s)
  unfolding render_to_png
  render_to_png-IsDefined what s = elim (Bool-cases (what.emoji == 0 || not T.init)) [
    | inl off ↦ rw (off, IsDefined) tt
    | inr on ↦ elim (Option-cases (find_picture what s.emojies)) [
      | inr (png, have) ↦ rw (on, have, IsDefined) tt
      | inl absent ↦
          rw (on, absent, IsDefined) (render_loop-Ready what what.font.font_face_or_path s)
    ]
  ]
