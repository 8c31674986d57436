-- ===== src/Tests/Texts.antt =====
-- Texts, bytes and symbols.
use edmcoverlay_for_linux.Base.{◌≡◌, ◌↔◌, true, some, [], ◌∷◌, ◌++◌, All, arith}
use edmcoverlay_for_linux.Base.Text.{Bytes, codes}
use edmcoverlay_for_linux.Strutils.{strcontains, blanks, trim, split}
use edmcoverlay_for_linux.Strutils.Search.{strcontains_iff}
use edmcoverlay_for_linux.Strutils.Trim.{IsTrimmed, trim-IsTrimmed}
use edmcoverlay_for_linux.Strutils.Tokens.{IsNot, Rejoins, split-Splits}
use edmcoverlay_for_linux.Unicode.{first_span, make_spans, symbols}
use edmcoverlay_for_linux.Unicode.Runs.{Tiles}
use edmcoverlay_for_linux.Unicode.Spans.{make_spans-Tiles}
use edmcoverlay_for_linux.Unicode.Utf8.{encode_all, symbols-encode_all}
use edmcoverlay_for_linux.Emoji.Base64.{encode_base64}
use edmcoverlay_for_linux.Emoji.Base64.RoundTrip.{decode_base64, decode_base64-encode_base64}
use edmcoverlay_for_linux.Svg.Escape.{escape_for_svg, unescape, unescape-escape_for_svg}

abbrev mixed : Bytes
mixed = codes "ab" ++ (0xF0 ∷ 0x9F ∷ 0x98 ∷ 0x80 ∷ codes "c")

strcontains_iff_example :
    (strcontains (codes "/bin/elite") (codes "bin") ≡ true)
    ↔ ((pre : Bytes) × (post : Bytes) × (codes "/bin/elite" ≡ pre ++ (codes "bin" ++ post)))
strcontains_iff_example = strcontains_iff (codes "/bin/elite") (codes "bin")

trim-IsTrimmed_example : IsTrimmed blanks (codes " \ta b ") (trim blanks (codes " \ta b "))
trim-IsTrimmed_example = trim-IsTrimmed blanks (codes " \ta b ")

split-Splits_example :
    Rejoins b',' (codes "a,,b,") (split (codes "a,,b,") b',')
    × All (All (IsNot b',')) (split (codes "a,,b,") b',')
split-Splits_example = split-Splits (codes "a,,b,") b','

make_spans-Tiles_example : Tiles mixed first_span 0 (make_spans mixed)
make_spans-Tiles_example = make_spans-Tiles mixed

symbols-encode_all_example :
    symbols (encode_all (0x61 ∷ 0x1F600 ∷ 0x20AC ∷ 0xE9 ∷ [])) ≡ 0x61 ∷ 0x1F600 ∷ 0x20AC ∷ 0xE9 ∷ []
symbols-encode_all_example =
    symbols-encode_all (0x61 ∷ 0x1F600 ∷ 0x20AC ∷ 0xE9 ∷ [])
      (omega arith, (omega arith, (omega arith, (omega arith, tt))))

decode_base64-encode_base64_example :
    decode_base64 (encode_base64 (1 ∷ 255 ∷ 0 ∷ 77 ∷ [])) ≡ 1 ∷ 255 ∷ 0 ∷ 77 ∷ []
decode_base64-encode_base64_example =
    decode_base64-encode_base64 (1 ∷ 255 ∷ 0 ∷ 77 ∷ [])
      (omega arith, (omega arith, (omega arith, (omega arith, tt))))

abbrev two_bytes : Bytes
two_bytes = 1 ∷ 255 ∷ []

unescape-escape_for_svg_example :
    unescape (escape_for_svg (codes "a<b & \"c\"")) ≡ some (codes "a<b & \"c\"")
unescape-escape_for_svg_example = unescape-escape_for_svg (codes "a<b & \"c\"")
