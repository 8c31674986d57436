-- ===== src/Svg/Escape.antt =====
-- escape_for_svg of cpp/svgbuilder.cpp, and the reading of the escaped text.
use edmcoverlay_for_linux.Base.{
  ℕ, zero, suc, ◌≡◌, refl, ap, ◌∙◌, ◌≤◌, All-append, length, drop, false, [], ◌∷◌, ◌++◌,
  if◌then◌else◌, ◌==◌, Bool, not, ◌||◌, All, arith, Option, none, some,
}
use edmcoverlay_for_linux.Base.Text.{Bytes, codes}
use edmcoverlay_for_linux.Strutils.{starts_with}

-- The cases of the switch.
unfoldable pub escaped : ℕ → Bytes
escaped c =
    if c == b'&'
    then codes "&amp;"
    else if c == b'<'
    then codes "&lt;"
    else if c == b'>'
    then codes "&gt;"
    else if c == b'"'
    then codes "&quot;"
    else if c == b'\''
    then codes "&apos;"
    else c ∷ []

unfoldable pub escape_for_svg : Bytes → Bytes
unfolding escaped
escape_for_svg [] = []
escape_for_svg (c ∷ rest) = escaped c ++ escape_for_svg rest

-- The entity that a text starts with: the byte that it stands for, and its length.
unfoldable pub entity : Bytes → Option (ℕ × ℕ)
unfolding starts_with
entity s =
    if starts_with (codes "&amp;") s
    then some (b'&', 5)
    else if starts_with (codes "&lt;") s
    then some (b'<', 4)
    else if starts_with (codes "&gt;") s
    then some (b'>', 4)
    else if starts_with (codes "&quot;") s
    then some (b'"', 6)
    else if starts_with (codes "&apos;") s
    then some (b'\'', 6)
    else none

-- A byte that character data and a quoted attribute may hold as it is.
abbrev pub is_plain : ℕ → Bool
is_plain c = not ((c == b'&') || (c == b'<') || (c == b'>') || (c == b'"') || (c == b'\''))

abbrev pub prepended : ℕ → Option Bytes → Option Bytes
prepended c none = none
prepended c (some s) = some (c ∷ s)

-- The character data that a text stands for, with the five entities that XML defines; a text with an
-- angle bracket, a quote or another ampersand is refused. Each round reads a byte at least.
unfoldable pub unescape_loop : ℕ → Bytes → Option Bytes
unescape_loop zero [] = some []
unescape_loop zero (c ∷ rest) = none
unescape_loop (suc fuel) [] = some []
unescape_loop (suc fuel) (c ∷ rest) = elim (entity (c ∷ rest)) [
  | some (byte, n) ↦ prepended byte (unescape_loop fuel (drop n (c ∷ rest)))
  | none ↦ let more = prepended c (unescape_loop fuel rest) in if is_plain c then more else none
]

unfoldable pub unescape : Bytes → Option Bytes
unescape s = unescape_loop (length s) s

-- A byte that may stand in the content of an element and in a quoted attribute.
abbrev pub IsHarmless : ℕ → Type 0
IsHarmless c =
    ((c == b'<') ≡ false) × ((c == b'>') ≡ false) × ((c == b'"') ≡ false) × ((c == b'\'') ≡ false)

escaped-IsHarmless : (c : ℕ) → All IsHarmless (escaped c)
unfolding escaped
escaped-IsHarmless c = ground arith

-- The escaped text has no angle bracket and no quote.
escape_for_svg-IsHarmless : (s : Bytes) → All IsHarmless (escape_for_svg s)
unfolding escape_for_svg
escape_for_svg-IsHarmless [] = tt
escape_for_svg-IsHarmless (c ∷ s) =
    All-append IsHarmless (escaped c) (escape_for_svg s) (escaped-IsHarmless c)
      (escape_for_svg-IsHarmless s)

unescape_step :
    (fuel c : ℕ) (rest : Bytes)
    → unescape_loop (suc fuel) (escaped c ++ rest) ≡ prepended c (unescape_loop fuel rest)
unfolding unescape_loop entity starts_with escaped
unescape_step fuel c rest = ground arith

longer : (s : Bytes) → length s ≤ length (escape_for_svg s)
unfolding escape_for_svg escaped
longer [] = omega arith
longer (c ∷ s) = ground (arith, longer s)

unescape_loop-escape_for_svg :
    (fuel : ℕ) (s : Bytes) → length s ≤ fuel → unescape_loop fuel (escape_for_svg s) ≡ some s
unfolding escape_for_svg unescape_loop
unescape_loop-escape_for_svg zero [] h = refl
unescape_loop-escape_for_svg (suc fuel) [] h = refl
unescape_loop-escape_for_svg zero (c ∷ s) h = absurd (omega arith)
unescape_loop-escape_for_svg (suc fuel) (c ∷ s) h =
    unescape_step fuel c (escape_for_svg s)
    ∙ ap (prepended c) (unescape_loop-escape_for_svg fuel s (omega arith))

-- The escaped form has no angle bracket, no quote, and no ampersand but those of the five entities, and
-- reading the entities gives the text back.
pub unescape-escape_for_svg : (s : Bytes) → unescape (escape_for_svg s) ≡ some s
unfolding unescape
unescape-escape_for_svg s = unescape_loop-escape_for_svg (length (escape_for_svg s)) s (longer s)
