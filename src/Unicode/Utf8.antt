-- ===== src/Unicode/Utf8.antt =====
-- The walk of UnicodeSymbolsIterator (cpp/common/unicode_splitter.hpp) over well-formed UTF-8.
use edmcoverlay_for_linux.Base.{
  ℕ, zero, suc, ◌+◌, ◌-◌, ◌*◌, ◌/◌, ◌%◌, ◌^◌, ◌≤◌, ◌<◌, ◌≡◌, refl, sym, ap, ◌∙◌, true, ◌&&◌, none,
  some, inl, inr, List, [], ◌∷◌, ◌++◌, append_assoc, if◌then◌else◌, ltb, leb, ltb→lt, ◌==◌, ==_iff,
  bit_and, length, length-append, drop, drop-append, All, arith, Bool-cases, all_below,
  all_below_sound,
}
use edmcoverlay_for_linux.Base.Bits.{bit_or_six}
use edmcoverlay_for_linux.Base.Text.{Bytes}
use edmcoverlay_for_linux.Unicode.{
  Cursor, at, lead, shift_in, continuation, next_in, next, symbols_loop, symbols,
}

-- UTF-8 as the standard defines it, up to four bytes.
unfoldable pub encode : ℕ → Bytes
encode cp =
    if ltb cp 0x80
    then cp ∷ []
    else if ltb cp 0x800
    then (0xC0 + cp / 64) ∷ (0x80 + cp % 64) ∷ []
    else if ltb cp 0x10000
    then (0xE0 + cp / 4096) ∷ (0x80 + cp / 64 % 64) ∷ (0x80 + cp % 64) ∷ []
    else (0xF0 + cp / 262144)
      ∷ (0x80 + cp / 4096 % 64)
      ∷ (0x80 + cp / 64 % 64)
      ∷ (0x80 + cp % 64)
      ∷ []

-- The tests of `next` on the first byte, as ranges.
lead_by_range : ℕ → ℕ × ℕ
lead_by_range b =
    if ltb b 0x80
    then (b, 1)
    else if leb 0xC0 b && ltb b 0xE0
    then (b - 0xC0, 2)
    else if leb 0xE0 b && ltb b 0xF0
    then (b - 0xE0, 3)
    else if leb 0xF0 b && ltb b 0xF8
    then (b - 0xF0, 4)
    else (0xFFFD, 1)

lead_table :
    all_below 256 (λ b. (lead b).0 == (lead_by_range b).0 && (lead b).1 == (lead_by_range b).1)
    ≡ true
unfolding all_below lead lead_by_range
lead_table = refl

lead-range : (b : ℕ) → b < 256 → lead b ≡ lead_by_range b
lead-range b h =
    let t = all_below_sound _ 256 b h lead_table in
    ground (arith, ==_iff (lead b).0 (lead_by_range b).0, ==_iff (lead b).1 (lead_by_range b).1)

mask_table : all_below 64 (λ r. bit_and (0x80 + r) 0x3F == r) ≡ true
unfolding all_below
mask_table = refl

bit_and_mask : (r : ℕ) → r < 64 → bit_and (0x80 + r) 0x3F ≡ r
bit_and_mask r h = (==_iff _ r).0 (all_below_sound _ 64 r h mask_table)

shift_in_lem : (cp r : ℕ) → cp < 2 ^ 26 → r < 64 → shift_in cp (0x80 + r) ≡ cp * 64 + r
unfolding shift_in
shift_in_lem cp r h k =
    let e : cp * 64 % 2 ^ 32 ≡ cp * 64 = omega arith in rw (e, bit_and_mask r k) (bit_or_six cp r k)

-- The next symbol of a text that goes on with an encoded code point.
abbrev read : ℕ → Cursor → Cursor
read cp c = record {
  next_byte_index = c.next_byte_index + length (encode cp);
  cp = cp;
  seq_len = length (encode cp);
}

lead-two : (a : ℕ) → a < 32 → lead (0xC0 + a) ≡ (a, 2)
unfolding lead_by_range
lead-two a h = lead-range (0xC0 + a) (omega arith) ∙ ground arith

lead-three : (a : ℕ) → a < 16 → lead (0xE0 + a) ≡ (a, 3)
unfolding lead_by_range
lead-three a h = lead-range (0xE0 + a) (omega arith) ∙ ground arith

lead-four : (a : ℕ) → a < 8 → lead (0xF0 + a) ≡ (a, 4)
unfolding lead_by_range
lead-four a h = lead-range (0xF0 + a) (omega arith) ∙ ground arith

lead-one : (a : ℕ) → a < 128 → lead a ≡ (a, 1)
unfolding lead_by_range
lead-one a h = lead-range a (omega arith) ∙ ground arith

next_in-encode :
    (cp : ℕ) (rest : Bytes) (c : Cursor)
    → cp < 0x200000
    → next_in (encode cp ++ rest) c ≡ some (read cp c)
unfolding next_in encode continuation
next_in-encode cp rest c h = elim (Bool-cases (ltb cp 0x80)) [
  | inl a ↦ rw (a, lead-one cp (ltb→lt cp _ a))
  | inr a ↦ elim (Bool-cases (ltb cp 0x800)) [
    | inl b ↦
        rw
          (
            a,
            b,
            lead-two (cp / 64) (omega (arith, ltb→lt cp _ b)),
            shift_in_lem (cp / 64) (cp % 64) (omega (arith, ltb→lt cp _ b)) (omega arith),
          )
          (ground arith)
    | inr b ↦ elim (Bool-cases (ltb cp 0x10000)) [
      | inl d ↦
          rw
            (
              a,
              b,
              d,
              lead-three (cp / 4096) (omega (arith, ltb→lt cp _ d)),
              shift_in_lem (cp / 4096) (cp / 64 % 64) (omega (arith, ltb→lt cp _ d)) (omega arith),
              shift_in_lem (cp / 4096 * 64 + cp / 64 % 64) (cp % 64) (omega (arith, ltb→lt cp _ d))
                  (omega arith),
            )
            (ground arith)
      | inr d ↦
          rw
            (
              a,
              b,
              d,
              lead-four (cp / 262144) (omega arith),
              shift_in_lem (cp / 262144) (cp / 4096 % 64) (omega arith) (omega arith),
              shift_in_lem (cp / 262144 * 64 + cp / 4096 % 64) (cp / 64 % 64) (omega arith)
                  (omega arith),
              shift_in_lem ((cp / 262144 * 64 + cp / 4096 % 64) * 64 + cp / 64 % 64) (cp % 64)
                  (omega arith) (omega arith),
            )
            (ground arith)
    ]
  ]
]

-- The text of a list of code points.
abbrev pub encode_all : List ℕ → Bytes
encode_all [] = []
encode_all (cp ∷ cps) = encode cp ++ encode_all cps

-- Code points that UTF-8 can express in four bytes.
abbrev pub IsCodePoint : ℕ → Type 0
IsCodePoint cp = cp < 0x200000

drop-at : (pre rest : Bytes) (i : ℕ) → i ≡ length pre → drop i (pre ++ rest) ≡ rest
drop-at pre rest i h = rw h (drop-append pre rest)

pub next-encode :
    (pre : Bytes) (cp : ℕ) (rest : Bytes) (c : Cursor)
    → c.next_byte_index ≡ length pre
    → IsCodePoint cp
    → next (pre ++ (encode cp ++ rest)) c ≡ some (read cp c)
unfolding next
next-encode pre cp rest c i h =
    ap (λ tail. next_in tail c) (drop-at pre (encode cp ++ rest) c.next_byte_index i)
    ∙ next_in-encode cp rest c h

next-end : (pre : Bytes) (c : Cursor) → c.next_byte_index ≡ length pre → next (pre ++ []) c ≡ none
unfolding next next_in
next-end pre c i = ap (λ tail. next_in tail c) (drop-at pre [] c.next_byte_index i)

symbols_loop-encode :
    (fuel : ℕ) (pre : Bytes) (cps : List ℕ) (c : Cursor)
    → c.next_byte_index ≡ length pre
    → All IsCodePoint cps
    → length cps < fuel
    → symbols_loop fuel (pre ++ encode_all cps) c ≡ cps
unfolding symbols_loop
symbols_loop-encode zero pre cps c i h f = absurd (omega arith)
symbols_loop-encode (suc fuel) pre [] c i h f = rw (next-end pre c i, symbols_loop)
symbols_loop-encode (suc fuel) pre (cp ∷ cps) c i h f =
    rw (next-encode pre cp (encode_all cps) c i h.0, symbols_loop)
      (ap (◌∷◌ cp) (
        ap (λ text. symbols_loop fuel text (read cp c))
          (sym (append_assoc pre (encode cp) (encode_all cps)))
        ∙ symbols_loop-encode fuel (pre ++ encode cp) cps (read cp c)
            (omega (arith, length-append {0} pre (encode cp))) h.1 (omega arith)))

encode_long : (cp : ℕ) → 0 < length (encode cp)
unfolding encode
encode_long cp = ground arith

encode_all_long : (cps : List ℕ) → length cps ≤ length (encode_all cps)
encode_all_long [] = omega arith
encode_all_long (cp ∷ cps) =
    omega
      (arith, encode_long cp, encode_all_long cps, length-append {0} (encode cp) (encode_all cps))

-- The walk over the UTF-8 text of any code points below 2 ^ 21 gives these code points back.
pub symbols-encode_all : (cps : List ℕ) → All IsCodePoint cps → symbols (encode_all cps) ≡ cps
unfolding symbols
symbols-encode_all cps h =
    symbols_loop-encode (suc (length (encode_all cps))) [] cps (at 0) refl h
      (omega (arith, encode_all_long cps))
