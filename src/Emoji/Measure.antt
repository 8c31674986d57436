-- ===== src/Emoji/Measure.antt =====
-- EmojiRenderer::computeWidth of cpp/emoji_renderer/emoji_renderer.cpp.
use edmcoverlay_for_linux.Base.{
  ℕ, ◌*◌, ◌/◌, ◌%◌, ◌^◌, ◌==◌, Option, none, some, List, [], ◌∷◌, if◌then◌else◌, length,
}
use edmcoverlay_for_linux.Base.Int.{ℤ, pos, negsuc, ◌+ℤ◌}
use edmcoverlay_for_linux.Base.Map.{set}
use edmcoverlay_for_linux.Svg.TextTags.{Font, TextWidth, to_u32}
use edmcoverlay_for_linux.Emoji.Request.{FontRequirement, to_key}
use edmcoverlay_for_linux.Emoji.FreeType.{FreeType, LoadOptions, FontConfig}
use edmcoverlay_for_linux.Emoji.Faces.{
  State, get_face, is_color_emoji_font, sized_face, measure_options,
}

-- x >> 6
unfoldable pub shifted : ℤ → ℤ
shifted (pos n) = pos (n / 64)
shifted (negsuc n) = negsuc (n / 64)

module _ {F P : Type 0} (T : FreeType F) (C : FontConfig P) where
  -- The pen moves by the glyph's advance, and by the kerning to the glyph before it.
  unfoldable pub moved_pen : F → ℕ → ℕ → ℤ → ℤ
  unfolding shifted
  moved_pen face prev index pen =
      let advanced = pen +ℤ shifted (T.advance face) in
      if prev == 0 then advanced else elim (T.kerning face prev index) [
        | none ↦ advanced
        | some kern ↦ advanced +ℤ shifted kern
      ]

  -- The loop over the text; `none` where a glyph is missing.
  unfoldable pub measure_loop : LoadOptions → List ℕ → ℕ → ℤ → F → Option ℤ × F
  unfolding moved_pen
  measure_loop options [] prev pen face = (some pen, face)
  measure_loop options (ch ∷ text) prev pen face =
      let index = T.char_index face ch in
      let loaded = T.load_glyph options index face in
      let rest = measure_loop options text index (moved_pen loaded.1 prev index pen) loaded.1 in
      if index == 0 then (none, face) else if loaded.0 then rest else (none, loaded.1)

  unfoldable pub measured_text : ℕ → List ℕ → F → Option ℤ × F
  unfolding sized_face measure_loop is_color_emoji_font
  measured_text size text face =
      let face' = T.set_transform face in
      let sized = sized_face T C size face' in
      if sized.0
      then measure_loop (measure_options T C face') text 0 (pos 0) sized.1
      else (none, sized.1)

  unfoldable pub width_loop : ℕ → List ℕ → List Font → State F → TextWidth × State F
  unfolding get_face measured_text set to_key
  width_loop size text [] s =
      (record { computed_width = length text * size % 2 ^ 32; font_used = Font.family [] }, s)
  width_loop size text (font ∷ fonts) s =
      let found = get_face T C font s in
      elim found.0 [
        | none ↦ width_loop size text fonts found.1
        | some face ↦
            let measured = measured_text size text face in
            let s' = record found.1 { faces = set (to_key font) measured.1 found.1.faces } in
            elim measured.0 [
              | none ↦ width_loop size text fonts s'
              | some pen ↦ (record { computed_width = to_u32 pen; font_used = font }, s')
            ]
      ]

  -- EmojiRenderer::computeWidth
  unfoldable pub compute_width : FontRequirement → List ℕ → State F → TextWidth × State F
  unfolding width_loop
  compute_width font text s = width_loop font.font_size text font.font_face_or_path s
