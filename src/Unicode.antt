-- ===== src/Unicode.antt =====
-- cpp/common/unicode_splitter.hpp: the walk over the symbols of a UTF-8 text, and its division
-- into spans of one class.
pub mod Utf8
pub mod Runs
pub mod Spans
use edmcoverlay_for_linux.Base.{
  ℕ, zero, suc, ◌+◌, ◌-◌, ◌*◌, ◌%◌, ◌^◌, Bool, true, false, not, ◌&&◌, ◌||◌, Option, none, some,
  List, [], ◌∷◌, ◌++◌, if◌then◌else◌, ltb, leb, ◌==◌, bit_and, bit_or, length, drop,
}
use edmcoverlay_for_linux.Base.Text.{Bytes}

pub data GlyphClass : Type 0 where
  latin1 dingbat bmp astral not_set : GlyphClass

unfoldable pub class_eq : GlyphClass → GlyphClass → Bool
class_eq latin1 latin1 = true
class_eq dingbat dingbat = true
class_eq bmp bmp = true
class_eq astral astral = true
class_eq not_set not_set = true
class_eq _ _ = false

pub data SpanPosition : Type 0 where
  first_span inside_string_span unplaced : SpanPosition

-- SpanRange
pub record Span : Type 0 where
  pub begin : ℕ
  pub end : ℕ
  pub cls : GlyphClass
  pub position : SpanPosition

unfoldable pub set_end : ℕ → Span → Span
set_end e s = record s { end = e }

unfoldable pub is_valid : Span → Bool
is_valid s = ltb s.begin s.end

-- needsCustomRender
unfoldable pub needs_custom_render : GlyphClass → Bool
needs_custom_render cls = class_eq cls astral || class_eq cls dingbat

-- The state of a UnicodeSymbolsIterator over a text.
pub record Cursor : Type 0 where
  pub next_byte_index : ℕ
  pub cp : ℕ
  pub seq_len : ℕ

-- The first byte of a symbol: the bits that it gives to the code point, and the number of bytes.
unfoldable pub lead : ℕ → ℕ × ℕ
lead byte =
    if ltb byte 0x80
    then (byte, 1)
    else if bit_and byte 0xE0 == 0xC0
    then (bit_and byte 0x1F, 2)
    else if bit_and byte 0xF0 == 0xE0
    then (bit_and byte 0x0F, 3)
    else if bit_and byte 0xF8 == 0xF0
    then (bit_and byte 0x07, 4)
    else (0xFFFD, 1)

-- cp = (cp << 6) | (byte & 0x3F), on 32 bits
unfoldable pub shift_in : ℕ → ℕ → ℕ
shift_in cp byte = bit_or (cp * 64 % 2 ^ 32) (bit_and byte 0x3F)

-- The loop over the bytes behind the first, as far as the text goes. `rest` is the text from
-- `next_byte_index + j` on, and the count is `seq_len - j`.
unfoldable pub continuation : ℕ → Bytes → ℕ → ℕ
continuation zero rest cp = cp
continuation (suc n) [] cp = cp
continuation (suc n) (byte ∷ rest) cp = continuation n rest (shift_in cp byte)

-- next(), where `tail` is the text from `next_byte_index` on; at its end the cursor stays.
unfoldable pub next_in : Bytes → Cursor → Option Cursor
next_in [] c = none
next_in (byte ∷ rest) c =
    let (cp, seq_len) = lead byte in
    some (record {
      next_byte_index = c.next_byte_index + seq_len;
      cp = continuation (seq_len - 1) rest cp;
      seq_len = seq_len;
    })

unfoldable pub next : Bytes → Cursor → Option Cursor
next src c = next_in (drop c.next_byte_index src) c

-- The static classify(char32_t).
unfoldable pub classify_symbol : ℕ → GlyphClass
classify_symbol symbol =
    if leb symbol 0x00FF
    then latin1
    else if leb 0x2700 symbol && leb symbol 0x27BF
    then dingbat
    else if leb symbol 0xFFFF
    then bmp
    else astral

unfoldable pub classify : Cursor → GlyphClass
classify c = if c.seq_len == 0 then not_set else classify_symbol c.cp

-- getStartIndex(), getEndIndex()
unfoldable pub start_index : Cursor → ℕ
start_index c = c.next_byte_index - c.seq_len

unfoldable pub end_index : Cursor → ℕ
end_index c = c.next_byte_index

rewound : GlyphClass → Cursor → Option Cursor → Cursor × Bool
rewound cls c none = (c, false)
rewound cls c (some c') = (c', class_eq (classify c') cls)

abbrev pub at : ℕ → Cursor
at i = record { next_byte_index = i; cp = 0; seq_len = 0 }

-- rewindTo: the cursor on the first symbol of the span, and whether it has the span's class.
unfoldable pub rewind_to : Bytes → Span → Cursor × Bool
unfolding rewound
rewind_to src range = rewound range.cls (at range.begin) (next src (at range.begin))

-- The loop of makeSpans once the first symbol is read, with `current_span` and `spans`, and what
-- stands behind the loop. Each round reads a byte at least.
unfoldable pub spans_loop : ℕ → Bytes → Cursor → Span → List Span → List Span
spans_loop zero text iter current spans = spans
spans_loop (suc fuel) text iter current spans = elim (next text iter) [
  | none ↦
      let span = set_end (length text) current in
      if is_valid span then spans ++ (span ∷ []) else spans
  | some iter' ↦ elim (class_eq (classify iter') current.cls) [
    | true ↦ spans_loop fuel text iter' current spans
    | false ↦
        spans_loop fuel text iter'
          (record {
            begin = start_index iter';
            end = 0;
            cls = classify iter';
            position = inside_string_span;
          })
          (spans ++ (set_end (start_index iter') current ∷ []))
  ]
]

-- makeSpans
unfoldable pub make_spans : Bytes → List Span
make_spans text = elim (next text (at 0)) [
  | none ↦ []
  | some iter ↦
      spans_loop (length text) text iter
        (record { begin = start_index iter; end = 0; cls = classify iter; position = first_span })
        []
]

-- The symbols that the loop of measureWidhtOfText (cpp/svgbuilder.cpp) collects. Each round reads a
-- byte at least.
unfoldable pub symbols_loop : ℕ → Bytes → Cursor → List ℕ
symbols_loop zero text iter = []
symbols_loop (suc fuel) text iter = elim (next text iter) [
  | none ↦ []
  | some iter' ↦ iter'.cp ∷ symbols_loop fuel text iter'
]

unfoldable pub symbols : Bytes → List ℕ
symbols text = symbols_loop (suc (length text)) text (at 0)
