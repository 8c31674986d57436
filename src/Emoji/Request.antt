-- ===== src/Emoji/Request.antt =====
-- EmojiFontRequirement and EmojiToRender of cpp/emoji_renderer/emoji_renderer.hpp with their
pub mod Order
-- operator<, the order of the renderer's cache, and toKey of emoji_renderer.cpp.
use edmcoverlay_for_linux.Base.{
  ℕ, zero, suc, ◌==◌, ltb, Bool, true, false, not, ◌&&◌, List, [], ◌∷◌, if◌then◌else◌, Ordering,
  is_empty, ◌++◌,
}
use edmcoverlay_for_linux.Base.Text.{Bytes, bytes_compare}
use edmcoverlay_for_linux.Base.Order.{lexicographical}
use edmcoverlay_for_linux.Svg.TextTags.{Font}

-- The size is a FontPixelSize.
pub record FontRequirement : Type 0 where
  pub font_size : ℕ
  pub font_face_or_path : List Font

pub record EmojiToRender : Type 0 where
  pub emoji : ℕ
  pub font : FontRequirement
  pub color : ℕ

-- operator< of std::string
unfoldable pub bytes_less : Bytes → Bytes → Bool
bytes_less a b = elim (bytes_compare a b) [ Ordering.lt ↦ true | _ ↦ false ]

-- The names between the slashes of a path. `name` is the one read so far; a slash at the end is
-- followed by an empty name, if a name precedes it.
unfoldable pub names_loop : Bytes → Bool → Bytes → List Bytes
names_loop [] after name = if is_empty name then (if after then [] ∷ [] else []) else name ∷ []
names_loop (c ∷ cs) after name =
    let more = names_loop cs (if is_empty name then after else true) [] in
    let inside = names_loop cs after (name ++ (c ∷ [])) in
    if c == b'/' then (if is_empty name then more else name ∷ more) else inside

unfoldable pub path_names : Bytes → List Bytes
unfolding names_loop
path_names p = names_loop p false []

unfoldable pub has_root_directory : Bytes → Bool
has_root_directory [] = false
has_root_directory (c ∷ cs) = c == b'/'

-- operator< of std::filesystem::path: the root directory first, then the names.
unfoldable pub path_less : Bytes → Bytes → Bool
unfolding path_names has_root_directory bytes_less lexicographical
path_less a b =
    if has_root_directory a
    then (if has_root_directory b
        then lexicographical bytes_less (path_names a) (path_names b)
        else false)
    else if has_root_directory b
    then true
    else lexicographical bytes_less (path_names a) (path_names b)

-- operator< of the std::variant: the alternatives in their order, then their values.
unfoldable pub font_less : Font → Font → Bool
unfolding path_less bytes_less
font_less (Font.path a) (Font.path b) = path_less a b
font_less (Font.path a) (Font.family b) = true
font_less (Font.family a) (Font.path b) = false
font_less (Font.family a) (Font.family b) = bytes_less a b

-- EmojiFontRequirement::operator<
unfoldable pub requirement_less : FontRequirement → FontRequirement → Bool
unfolding font_less lexicographical
requirement_less a b =
    if not (a.font_size == b.font_size)
    then ltb a.font_size b.font_size
    else lexicographical font_less a.font_face_or_path b.font_face_or_path

-- EmojiToRender::operator<
unfoldable pub request_less : EmojiToRender → EmojiToRender → Bool
unfolding requirement_less
request_less a b =
    if not (a.emoji == b.emoji)
    then ltb a.emoji b.emoji
    else if not (a.color == b.color)
    then ltb a.color b.color
    else requirement_less a.font b.font

-- toKey
unfoldable pub to_key : Font → Bytes
to_key (Font.family s) = s
to_key (Font.path p) = p
