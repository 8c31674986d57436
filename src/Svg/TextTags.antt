-- ===== src/Svg/TextTags.antt =====
-- TextToSvgConverter of cpp/svgbuilder.cpp: a text becomes a chain of <text> and <image> tags.
use edmcoverlay_for_linux.Base.{
  ℕ, zero, suc, ◌+◌, ◌-◌, ◌%◌, ◌^◌, Bool, ◌&&◌, none, some, List, [], ◌∷◌, ◌++◌, if◌then◌else◌, ltb,
  ◌==◌, is_empty, take, drop, length, not,
}
use edmcoverlay_for_linux.Base.Int.{ℤ, pos, negsuc}
use edmcoverlay_for_linux.Base.Text.{Bytes, codes, to_string}
use edmcoverlay_for_linux.Strutils.{split, replace_tabs_with_spaces}
use edmcoverlay_for_linux.Unicode.{
  Span, Cursor, GlyphClass, class_eq, classify, needs_custom_render, make_spans, rewind_to, next,
  symbols,
}
use edmcoverlay_for_linux.Draw.{Item, text_font_size}
use edmcoverlay_for_linux.Svg.Escape.{escape_for_svg}
use edmcoverlay_for_linux.Svg.Float.{line_step, image_gap}

-- PngData
pub record PngData : Type 0 where
  pub width : ℕ
  pub height : ℕ
  pub png_base64 : Bytes

unfoldable pub png_is_valid : PngData → Bool
png_is_valid png = ltb 0 png.width && ltb 0 png.height && not (is_empty png.png_base64)

-- FontPathOrFamily, and TextFontWidth
pub data Font : Type 0 where
  path family : Bytes → Font

pub record TextWidth : Type 0 where
  pub computed_width : ℕ
  pub font_used : Font

-- The calls of EmojiRenderer (cpp/emoji_renderer), which draws with FreeType: renderToPng with the
-- fonts for emojis, computeWidth with those for text. Both take the size in pixels.
pub record Renderer : Type 0 where
  pub render_to_png : ℕ → ℕ → PngData
  pub compute_width : ℕ → List ℕ → TextWidth

-- RenderState, with what the stream holds.
pub record State : Type 0 where
  pub out : Bytes
  pub x : ℕ
  pub y : ℕ

-- An int as an unsigned int.
unfoldable pub to_u32 : ℤ → ℕ
to_u32 (pos n) = n % 2 ^ 32
to_u32 (negsuc n) = 2 ^ 32 - 1 - n % 2 ^ 32

-- cast(const std::string &) of cpp/common/strfmt.h: "%s" prints the text up to its first zero byte.
unfoldable pub c_str : Bytes → Bytes
c_str [] = []
c_str (c ∷ cs) = let rest = c ∷ c_str cs in if c == 0 then [] else rest

-- "%u"
abbrev u : ℕ → Bytes
u n = to_string n

module _ (R : Renderer) {N : Type 0} (task : Item N) where
  abbrev pub font_size : ℕ
  font_size = text_font_size task.text

  -- renderCusomSingleSymbolImageTag
  unfoldable pub image_tag : ℕ → State → State
  unfolding png_is_valid c_str image_gap
  image_tag symbol s =
      let png = R.render_to_png font_size symbol in
      if png_is_valid png
      then record {
        out =
            s.out
            ++ (codes "<image x=\""
                ++ u s.x
                ++ codes "px\" y=\""
                ++ u s.y
                ++ codes "px\" width=\""
                ++ u png.width
                ++ codes "px\" height=\""
                ++ u png.height
                ++ codes "px\" href=\"data:image/png;base64,"
                ++ c_str png.png_base64
                ++ codes "\"/>");
        x = (s.x + (png.width + image_gap png.width)) % 2 ^ 32;
        y = s.y;
      }
      else s

  -- getMeasuredFontFam
  unfoldable pub font_family : Font → Bytes
  unfolding c_str
  font_family (Font.path p) = []
  font_family (Font.family fam) = codes "font-family=\"" ++ c_str fam ++ codes "\""

  -- measureWidhtOfText
  unfoldable pub measure_width_of_text : Bytes → TextWidth
  unfolding symbols
  measure_width_of_text text = R.compute_width font_size (symbols text)

  -- makeTextTag
  unfoldable pub text_tag : Bytes → Span → State → State
  unfolding c_str font_family measure_width_of_text escape_for_svg
  text_tag line range s =
      let sub = take (range.end - range.begin) (drop range.begin line) in
      let measure = measure_width_of_text sub in
      record {
        out =
            s.out
            ++ (codes "<text x=\""
                ++ u s.x
                ++ codes "px\" y=\""
                ++ u ((s.y + font_size) % 2 ^ 32)
                ++ codes "px\" font-size=\""
                ++ u font_size
                ++ codes "px\" fill=\""
                ++ c_str task.color
                ++ codes "\" "
                ++ c_str (font_family measure.font_used)
                ++ codes " xml:space='preserve'>")
            ++ escape_for_svg sub
            ++ codes "</text>";
        x = (s.x + measure.computed_width) % 2 ^ 32;
        y = s.y;
      }

  -- The do-while loop over the symbols of a span; each round but the first reads a byte at least.
  unfoldable pub image_tags : ℕ → Bytes → GlyphClass → Cursor → State → State
  unfolding image_tag
  image_tags zero line cls iter s = s
  image_tags (suc fuel) line cls iter s = elim (next line iter) [
    | none ↦ image_tag iter.cp s
    | some iter' ↦
        let more = image_tags fuel line cls iter' (image_tag iter.cp s) in
        if class_eq cls (classify iter') then more else image_tag iter.cp s
  ]

  unfoldable pub span_tags : Bytes → Span → State → State
  unfolding image_tags text_tag needs_custom_render
  span_tags line span s =
      if needs_custom_render span.cls
      then (if (rewind_to line span).1
          then image_tags (suc (length line)) line span.cls (rewind_to line span).0 s
          else s)
      else text_tag line span s

  unfoldable pub spans_tags : Bytes → List Span → State → State
  unfolding span_tags
  spans_tags line [] s = s
  spans_tags line (span ∷ spans) s = spans_tags line spans (span_tags line span s)

  -- processSingleLine
  unfoldable pub process_single_line : Bytes → State → State
  unfolding spans_tags make_spans
  process_single_line line s = spans_tags line (make_spans line) s

  -- The loop of generateSvg
  unfoldable pub lines_loop : List Bytes → State → State
  unfolding process_single_line to_u32 line_step
  lines_loop [] s = s
  lines_loop (line ∷ lines) s =
      let s' = process_single_line line (record s { x = to_u32 task.x }) in
      lines_loop lines (record s' { y = (s'.y + line_step font_size) % 2 ^ 32 })

  -- "\xC2\xA0" for a text that is empty
  unfoldable pub text_to_draw : Bytes
  unfolding replace_tabs_with_spaces
  text_to_draw =
      replace_tabs_with_spaces
        (if is_empty task.text.text then 0xC2 ∷ 0xA0 ∷ [] else task.text.text) 2

  -- makeSvgTextMultiline, which appends to the stream
  unfoldable pub make_svg_text_multiline : Bytes → Bytes
  unfolding lines_loop text_to_draw split to_u32
  make_svg_text_multiline out =
      (lines_loop (split text_to_draw b'\n') (record { out = out; x = 0; y = to_u32 task.y })).out
