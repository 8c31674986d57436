-- ===== src/Emoji/Base64/Groups.antt =====
-- encodeBase64 (cpp/emoji_renderer/emoji_renderer.cpp) is the encoding of RFC 4648: three bytes to
-- four characters, and a padded group for what is left.
use edmcoverlay_for_linux.Base.{
  ℕ, zero, suc, ◌+◌, ◌*◌, ◌/◌, ◌%◌, ◌^◌, ◌<◌, ◌≡◌, refl, sym, ap, ◌∙◌, [], ◌∷◌, ◌++◌, append_assoc,
  append-nil, length, length-append, All, arith,
}
use edmcoverlay_for_linux.Base.Int.{ℤ, negsuc}
use edmcoverlay_for_linux.Base.Bits.{bit_and_six}
use edmcoverlay_for_linux.Base.Text.{Bytes}
use edmcoverlay_for_linux.Emoji.Base64.{
  base64_char, six_bits, push_byte, bytes_loop, push_rest, pad, encode_base64,
}

abbrev pub IsByte : ℕ → Type 0
IsByte c = c < 256

-- The encoding by groups.
abbrev pub groups : Bytes → Bytes
groups [] = []
groups (a ∷ []) = base64_char (a / 4) ∷ base64_char (a % 4 * 16) ∷ b'=' ∷ b'=' ∷ []
groups (a ∷ b ∷ []) =
    base64_char (a / 4) ∷ base64_char (a % 4 * 16 + b / 16) ∷ base64_char (b % 16 * 4) ∷ b'=' ∷ []
groups (a ∷ b ∷ c ∷ rest) =
    base64_char (a / 4)
    ∷ base64_char (a % 4 * 16 + b / 16)
    ∷ base64_char (b % 16 * 4 + c / 64)
    ∷ base64_char (c % 64)
    ∷ groups rest

six_bits_lem : (val shift : ℕ) → six_bits val shift ≡ val / 2 ^ shift % 64
unfolding six_bits
six_bits_lem val shift = bit_and_six (val / 2 ^ shift)

module _ (val a b c : ℕ) (ha : a < 256) (hb : b < 256) (hc : c < 256) where
  first_bits : six_bits (push_byte val a) 2 ≡ a / 4
  unfolding push_byte
  first_bits = omega (arith, six_bits_lem ((val * 256 + a) % 2 ^ 32) 2)

  second_bits : six_bits (push_byte (push_byte val a) b) 4 ≡ a % 4 * 16 + b / 16
  unfolding push_byte
  second_bits = omega (arith, six_bits_lem (((val * 256 + a) % 2 ^ 32 * 256 + b) % 2 ^ 32) 4)

  third_bits : six_bits (push_byte (push_byte (push_byte val a) b) c) 6 ≡ b % 16 * 4 + c / 64
  unfolding push_byte
  third_bits =
      omega
        (arith, six_bits_lem ((((val * 256 + a) % 2 ^ 32 * 256 + b) % 2 ^ 32 * 256 + c) % 2 ^ 32) 6)

  last_bits : six_bits (push_byte (push_byte (push_byte val a) b) c) 0 ≡ c % 64
  unfolding push_byte
  last_bits =
      omega
        (arith, six_bits_lem ((((val * 256 + a) % 2 ^ 32 * 256 + b) % 2 ^ 32 * 256 + c) % 2 ^ 32) 0)

  rest_of_one : six_bits (push_byte val a * 256 % 2 ^ 32) 4 ≡ a % 4 * 16
  unfolding push_byte
  rest_of_one = omega (arith, six_bits_lem ((val * 256 + a) % 2 ^ 32 * 256 % 2 ^ 32) 4)

  rest_of_two : six_bits (push_byte (push_byte val a) b * 256 % 2 ^ 32) 6 ≡ b % 16 * 4
  unfolding push_byte
  rest_of_two =
      omega (arith, six_bits_lem (((val * 256 + a) % 2 ^ 32 * 256 + b) % 2 ^ 32 * 256 % 2 ^ 32) 6)

  -- Three bytes give four characters, and leave no bits.
  three_bytes :
      (rest out : Bytes)
      → bytes_loop (a ∷ b ∷ c ∷ rest) val (negsuc 5) out
        ≡ bytes_loop rest (push_byte (push_byte (push_byte val a) b) c) (negsuc 5) (
            out
            ++ (base64_char (a / 4)
                ∷ base64_char (a % 4 * 16 + b / 16)
                ∷ base64_char (b % 16 * 4 + c / 64)
                ∷ base64_char (c % 64)
                ∷ []))
  unfolding bytes_loop
  three_bytes rest out = rw (first_bits, second_bits, third_bits, last_bits) (simp append_assoc)

abbrev finish : ℕ × ℤ × Bytes → Bytes
finish end = pad 3 (push_rest end.0 end.1 end.2)

pad_none : (fuel : ℕ) (out : Bytes) → length out % 4 ≡ 0 → pad fuel out ≡ out
unfolding pad
pad_none zero out h = refl
pad_none (suc fuel) out h = ground arith

pad_one : (out : Bytes) → length out % 4 ≡ 3 → pad 3 out ≡ out ++ (b'=' ∷ [])
unfolding pad
pad_one out h = ground (arith, length-append {0} out (b'=' ∷ []))

pad_two : (out : Bytes) → length out % 4 ≡ 2 → pad 3 out ≡ out ++ (b'=' ∷ b'=' ∷ [])
unfolding pad
pad_two out h = ground (
  arith,
  length-append {0} out (b'=' ∷ []),
  length-append {0} (out ++ (b'=' ∷ [])) (b'=' ∷ []),
  append_assoc out (b'=' ∷ []) (b'=' ∷ []),
)

one_left :
    (val a : ℕ) (out : Bytes)
    → a < 256
    → length out % 4 ≡ 0
    → finish (bytes_loop (a ∷ []) val (negsuc 5) out) ≡ out ++ groups (a ∷ [])
unfolding bytes_loop push_rest
one_left val a out ha m = rw (first_bits val a 0 0 ha (omega arith) (omega arith)) (
    rw (rest_of_one val a 0 0 ha (omega arith) (omega arith)) (
      pad_two _ (
        omega (
          arith,
          length-append {0} (out ++ (base64_char (a / 4) ∷ [])) (base64_char (a % 4 * 16) ∷ []),
          length-append {0} out (base64_char (a / 4) ∷ []),
        ))
      ∙ simp append_assoc))

two_left :
    (val a b : ℕ) (out : Bytes)
    → a < 256
    → b < 256
    → length out % 4 ≡ 0
    → finish (bytes_loop (a ∷ b ∷ []) val (negsuc 5) out) ≡ out ++ groups (a ∷ b ∷ [])
unfolding bytes_loop push_rest
two_left val a b out ha hb m =
    let first : Bytes = out ++ (base64_char (a / 4) ∷ []) in
    let second : Bytes = first ++ (base64_char (a % 4 * 16 + b / 16) ∷ []) in
    rw
      (
        first_bits val a b 0 ha hb (omega arith),
        second_bits val a b 0 ha hb (omega arith),
        rest_of_two val a b 0 ha hb (omega arith),
      )
      (pad_one (second ++ (base64_char (b % 16 * 4) ∷ [])) (
          omega (
            arith,
            length-append {0} second (base64_char (b % 16 * 4) ∷ []),
            length-append {0} first (base64_char (a % 4 * 16 + b / 16) ∷ []),
            length-append {0} out (base64_char (a / 4) ∷ []),
          ))
        ∙ simp append_assoc)

loop-groups :
    (bytes : Bytes) (val : ℕ) (out : Bytes)
    → All IsByte bytes
    → length out % 4 ≡ 0
    → finish (bytes_loop bytes val (negsuc 5) out) ≡ out ++ groups bytes
unfolding bytes_loop push_rest
loop-groups [] val out h m = pad_none 3 out m ∙ sym (append-nil out)
loop-groups (a ∷ []) val out h m = one_left val a out h.0 m
loop-groups (a ∷ b ∷ []) val out h m = two_left val a b out h.0 h.1.0 m
loop-groups (a ∷ b ∷ c ∷ rest) val out h m =
    ap finish (three_bytes val a b c h.0 h.1.0 h.1.1.0 rest out)
    ∙ loop-groups rest (push_byte (push_byte (push_byte val a) b) c)
        (out
          ++ (base64_char (a / 4)
              ∷ base64_char (a % 4 * 16 + b / 16)
              ∷ base64_char (b % 16 * 4 + c / 64)
              ∷ base64_char (c % 64)
              ∷ []))
        h.1.1.1
        (omega (
          arith,
          length-append {0} out (
              base64_char (a / 4)
              ∷ base64_char (a % 4 * 16 + b / 16)
              ∷ base64_char (b % 16 * 4 + c / 64)
              ∷ base64_char (c % 64)
              ∷ []),
        ))
    ∙ append_assoc out _ (groups rest)

-- For every list of bytes, of any length, the accumulator loop computes the encoding by groups of
-- RFC 4648, although `val` wraps.
pub encode_base64-groups : (bytes : Bytes) → All IsByte bytes → encode_base64 bytes ≡ groups bytes
unfolding encode_base64
encode_base64-groups [] h = refl
encode_base64-groups (a ∷ rest) h = loop-groups (a ∷ rest) 0 [] h refl
