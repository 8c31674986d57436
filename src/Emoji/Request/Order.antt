-- ===== src/Emoji/Request/Order.antt =====
-- The order of the renderer's cache, cpp/emoji_renderer/emoji_renderer.hpp.
use edmcoverlay_for_linux.Base.{◌≡◌, refl, true, false, arith}
use edmcoverlay_for_linux.Base.Text.{
  bytes_compare_eq, bytes_compare_refl, bytes_compare_gt, bytes_compare_trans,
}
use edmcoverlay_for_linux.Base.Order.{WeakOrder, lexicographical-WeakOrder, equivalent}
use edmcoverlay_for_linux.Svg.TextTags.{Font}
use edmcoverlay_for_linux.Emoji.Request.{
  EmojiToRender, bytes_less, path_less, path_names, font_less, requirement_less, request_less,
}

bytes_less-WeakOrder : WeakOrder bytes_less
unfolding bytes_less
bytes_less-WeakOrder = record {
  asym = λ a b h. ground (arith, bytes_compare_trans a b a, bytes_compare_refl a);
  cotrans = λ a b c h k.
      ground (arith, bytes_compare_eq a b, bytes_compare_gt a b, bytes_compare_trans b a c);
}

path_less-WeakOrder : WeakOrder path_less
unfolding path_less
path_less-WeakOrder =
    let w = lexicographical-WeakOrder bytes_less bytes_less-WeakOrder in
    record {
      asym = λ a b h. ground (arith, w.asym (path_names a) (path_names b));
      cotrans = λ a b c h k. ground (arith, w.cotrans (path_names a) (path_names b) (path_names c));
    }

font_less-asym : (a b : Font) → font_less a b ≡ true → font_less b a ≡ false
unfolding font_less
font_less-asym (Font.path a) (Font.path b) h = path_less-WeakOrder.asym a b h
font_less-asym (Font.path a) (Font.family b) h = refl
font_less-asym (Font.family a) (Font.path b) h = absurd (cc)
font_less-asym (Font.family a) (Font.family b) h = bytes_less-WeakOrder.asym a b h

font_less-cotrans :
    (a b c : Font) → font_less a c ≡ true → font_less a b ≡ false → font_less b c ≡ true
unfolding font_less
font_less-cotrans (Font.path a) (Font.path b) (Font.path c) h k =
    path_less-WeakOrder.cotrans a b c h k
font_less-cotrans (Font.family a) (Font.family b) (Font.family c) h k =
    bytes_less-WeakOrder.cotrans a b c h k
font_less-cotrans (Font.path a) (Font.family b) c h k = absurd (cc)
font_less-cotrans (Font.family a) b (Font.path c) h k = absurd (cc)
font_less-cotrans (Font.path a) (Font.path b) (Font.family c) h k = refl
font_less-cotrans (Font.family a) (Font.path b) (Font.family c) h k = refl

font_less-WeakOrder : WeakOrder font_less
font_less-WeakOrder = record { asym = font_less-asym; cotrans = font_less-cotrans }

requirement_less-WeakOrder : WeakOrder requirement_less
unfolding requirement_less
requirement_less-WeakOrder =
    let w = lexicographical-WeakOrder font_less font_less-WeakOrder in
    record {
      asym = λ a b h. ground (arith, w.asym a.font_face_or_path b.font_face_or_path);
      cotrans = λ a b c h k.
          ground (arith, w.cotrans a.font_face_or_path b.font_face_or_path c.font_face_or_path);
    }

-- EmojiToRender::operator< is a strict weak order, as std::map demands of the keys of the cache.
pub request_less-WeakOrder : WeakOrder request_less
unfolding request_less
request_less-WeakOrder = record {
  asym = λ a b h. ground (arith, requirement_less-WeakOrder.asym a.font b.font);
  cotrans = λ a b c h k. ground (arith, requirement_less-WeakOrder.cotrans a.font b.font c.font);
}

-- Requests that share an entry of the cache want one symbol in one color and size.
pub equivalent-size :
    (a b : EmojiToRender)
    → equivalent request_less a b ≡ true
    → (a.emoji ≡ b.emoji) × ((a.color ≡ b.color) × (a.font.font_size ≡ b.font.font_size))
unfolding equivalent request_less requirement_less
equivalent-size a b h = ground arith
