-- ===== src/Emoji/Faces.antt =====
-- The state of EmojiRenderer of cpp/emoji_renderer/emoji_renderer.cpp, the faces of FtLibrary, and how a
-- face gets its size, which renderToPng and computeWidth do alike.
pub mod Best
use edmcoverlay_for_linux.Base.{
  ℕ, zero, suc, ◌+◌, ◌-◌, ◌*◌, ◌/◌, ◌%◌, ◌^◌, ◌==◌, ltb, leb, Bool, true, false, not, ◌||◌, Option,
  none, some, List, [], ◌∷◌, if◌then◌else◌, length, Outcome, finished, undefined,
}
use edmcoverlay_for_linux.Base.Int.{ℤ, pos, negsuc, ◌+ℤ◌, ◌-ℤ◌, pos_part, neg_part}
use edmcoverlay_for_linux.Base.Text.{Bytes}
use edmcoverlay_for_linux.Base.Map.{Map, find, set}
use edmcoverlay_for_linux.Base.Order.{equivalent}
use edmcoverlay_for_linux.Svg.TextTags.{Font, PngData, TextWidth, to_u32}
use edmcoverlay_for_linux.Emoji.Base64.{encode_base64}
use edmcoverlay_for_linux.Emoji.Request.{FontRequirement, EmojiToRender, request_less, to_key}
use edmcoverlay_for_linux.Emoji.FreeType.{FreeType, FtBitmap, LoadOptions, FontConfig, Png}
use edmcoverlay_for_linux.Emoji.Bitmap.{
  Bitmap, copy_glyph, scale_bitmap_to_fit_height, encode_png_rgba,
}

-- std::map<EmojiToRender, PngData>, in the order of its keys.
abbrev pub Pictures : Type 0
Pictures = List (EmojiToRender × PngData)

-- emojies.find(what)
unfoldable pub find_picture : EmojiToRender → Pictures → Option PngData
unfolding equivalent request_less
find_picture what [] = none
find_picture what ((k, png) ∷ m) =
    let rest = find_picture what m in if equivalent request_less k what then some png else rest

-- emojies[what] = png
unfoldable pub put_picture : EmojiToRender → PngData → Pictures → Pictures
unfolding request_less
put_picture what png [] = (what, png) ∷ []
put_picture what png ((k, old) ∷ m) =
    let rest = put_picture what png m in
    if request_less what k
    then (what, png) ∷ (k, old) ∷ m
    else if request_less k what
    then (k, old) ∷ rest
    else (k, png) ∷ m

abbrev pub no_result : PngData
no_result = record { width = 0; height = 0; png_base64 = [] }

-- `faces` is FtLibrary's, by the key of the font.
pub record State (F : Type 0) : Type 0 where
  pub faces : Map F
  pub emojies : Pictures

-- std::abs(static_cast<int>(size) - height)
unfoldable pub distance : ℕ → ℤ → ℕ
distance size height =
    let as_int = if ltb size (2 ^ 31) then pos size else negsuc (2 ^ 32 - 1 - size) in
    let d = as_int -ℤ height in pos_part d + neg_part d

-- The loop over the sizes behind the first one.
unfoldable pub best_loop : ℕ → List ℤ → ℕ → ℕ → ℕ → ℕ
unfolding distance
best_loop size [] i best_match diff = best_match
best_loop size (height ∷ heights) i best_match diff =
    let better = best_loop size heights (suc i) i (distance size height) in
    let same = best_loop size heights (suc i) best_match diff in
    if ltb (distance size height) diff then better else same

unfoldable pub best_match : ℕ → ℤ → List ℤ → ℕ
unfolding best_loop distance
best_match size height heights = best_loop size heights 1 0 (distance size height)

module _ {F P : Type 0} (T : FreeType F) (C : FontConfig P) where
  -- findFontFile
  unfoldable pub find_font_file : Bytes → Bytes
  find_font_file family = elim (C.font_match family) [
    | none ↦ []
    | some match' ↦ elim (C.get_file match') [ none ↦ [] | some file ↦ file ]
  ]

  -- FtLibrary::loadFace
  unfoldable pub load_face : Font → Option F
  unfolding find_font_file
  load_face (Font.path p) = if T.init then T.new_face p else none
  load_face (Font.family fam) = if T.init then T.new_face (find_font_file fam) else none

  -- FtLibrary::getFace
  unfoldable pub get_face : Font → State F → Option F × State F
  unfolding load_face find set to_key
  get_face font s = elim (find (to_key font) s.faces) [
    | some face ↦ (some face, s)
    | none ↦ elim (load_face font) [
      | none ↦ (none, s)
      | some face ↦ (some face, record s { faces = set (to_key font) face s.faces })
    ]
  ]

  -- FtLibrary::isColorEmojiFont
  unfoldable pub is_color_emoji_font : F → Bool
  is_color_emoji_font face = not (T.sfnt_length face == 0)

  -- The face with its size set; `false` where the source continues with the next font.
  unfoldable pub sized_face : ℕ → F → Bool × F
  unfolding best_match is_color_emoji_font
  sized_face size face =
      if is_color_emoji_font face
      then elim (T.available_sizes face) [
        | [] ↦ (false, face)
        | height ∷ heights ↦ T.select_size (best_match size height heights) face
      ]
      else (true, T.set_pixel_sizes size face)

  abbrev pub render_options : F → LoadOptions
  unfolding is_color_emoji_font
  render_options face = record { no_bitmap = false; color = is_color_emoji_font face }

  abbrev pub measure_options : F → LoadOptions
  unfolding is_color_emoji_font
  measure_options face = record { no_bitmap = true; color = is_color_emoji_font face }
