-- ===== src/Unicode/Runs.antt =====
-- One step of the symbol iterator (cpp/common/unicode_splitter.hpp), runs of symbols of one class,
-- and spans that tile a text.
use edmcoverlay_for_linux.Base.{
  ℕ, ◌+◌, ◌≤◌, ◌<◌, ◌≡◌, refl, ◌≢◌, ◌↔◌, true, none, some, List, [], ◌∷◌, ◌++◌, length, length-drop,
  drop, arith,
}
use edmcoverlay_for_linux.Base.Text.{Bytes}
use edmcoverlay_for_linux.Unicode.{
  GlyphClass, class_eq, SpanPosition, inside_string_span, Span, Cursor, at, lead, next_in, next,
  classify, start_index,
}

pub class_eq_iff : (a b : GlyphClass) → (class_eq a b ≡ true) ↔ (a ≡ b)
unfolding class_eq
class_eq_iff GlyphClass.latin1 b = ground arith
class_eq_iff GlyphClass.dingbat b = ground arith
class_eq_iff GlyphClass.bmp b = ground arith
class_eq_iff GlyphClass.astral b = ground arith
class_eq_iff GlyphClass.not_set b = ground arith

pub lead_len : (byte : ℕ) → (1 ≤ (lead byte).1) × ((lead byte).1 ≤ 4)
unfolding lead
lead_len byte = ground arith

-- What a step to the next symbol does to the indices.
pub record Advances (text : Bytes) (c c' : Cursor) : Type 0 where
  pub inside : c.next_byte_index < length text
  pub starts : start_index c' ≡ c.next_byte_index
  pub moves : c.next_byte_index < c'.next_byte_index
  pub long : c'.next_byte_index ≤ c.next_byte_index + 4

pub next_in-Advances :
    (tail : Bytes) (c c' : Cursor)
    → next_in tail c ≡ some c'
    → (0 < length tail)
      × (start_index c' ≡ c.next_byte_index)
      × (c.next_byte_index < c'.next_byte_index)
      × (c'.next_byte_index ≤ c.next_byte_index + 4)
unfolding next_in start_index
next_in-Advances [] c c' h = absurd (cc)
next_in-Advances (byte ∷ rest) c c' h = ground (arith, lead_len byte)

pub next-Advances : (text : Bytes) (c c' : Cursor) → next text c ≡ some c' → Advances text c c'
unfolding next
next-Advances text c c' h =
    let (p, starts, moves, long) = next_in-Advances (drop c.next_byte_index text) c c' h in
    record {
      inside = omega (arith, length-drop c.next_byte_index text);
      starts = starts;
      moves = moves;
      long = long;
    }

pub next_in-none : (tail : Bytes) (c : Cursor) → next_in tail c ≡ none → length tail ≡ 0
unfolding next_in
next_in-none [] c h = refl
next_in-none (byte ∷ rest) c h = absurd (cc)

pub next-none : (text : Bytes) (c : Cursor) → next text c ≡ none → length text ≤ c.next_byte_index
unfolding next
next-none text c h =
    omega
      (arith, length-drop c.next_byte_index text, next_in-none (drop c.next_byte_index text) c h)

pub next_in-at : (tail : Bytes) (c : Cursor) → next_in tail c ≡ next_in tail (at c.next_byte_index)
unfolding next_in
next_in-at [] c = refl
next_in-at (byte ∷ rest) c = refl

-- Only the index matters to the next symbol.
pub next-at : (text : Bytes) (c : Cursor) → next text c ≡ next text (at c.next_byte_index)
unfolding next
next-at text c = next_in-at (drop c.next_byte_index text) c

-- The symbols from the index `i` on, up to the index `e`, are of the class.
pub data Run (text : Bytes) (cls : GlyphClass) (e : ℕ) : ℕ → Type 0 where
  over : {i : ℕ} → e ≤ i → Run text cls e i
  symbol :
      {i : ℕ} (c : Cursor)
      → next text (at i) ≡ some c
      → classify c ≡ cls
      → Run text cls e c.next_byte_index
      → Run text cls e i

abbrev pub Changes : GlyphClass → List Span → Type 0
Changes cls [] = Unit
Changes cls (s ∷ rest) = s.cls ≢ cls

-- Spans that follow one another from the index `b` to the end of the text; each is not empty, is
-- at its place, covers symbols of its class only, and differs in class from the next.
abbrev pub Tiles : Bytes → SpanPosition → ℕ → List Span → Type 0
Tiles text p b [] = b ≡ length text
Tiles text p b (s ∷ rest) =
    (s.begin ≡ b)
    × (s.begin < s.end)
    × (s.position ≡ p)
    × Run text s.cls s.end s.begin
    × Changes s.cls rest
    × Tiles text inside_string_span s.end rest

-- What the loop adds to the spans that it was given.
pub record Extends (text : Bytes) (current : Span) (spans result : List Span) : Type 0 where
  pub head : Span
  pub rest : List Span
  pub whole : result ≡ spans ++ (head ∷ rest)
  pub cls : head.cls ≡ current.cls
  pub tiles : Tiles text current.position current.begin (head ∷ rest)
