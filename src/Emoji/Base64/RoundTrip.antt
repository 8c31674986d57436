-- ===== src/Emoji/Base64/RoundTrip.antt =====
-- The output of encodeBase64 (cpp/emoji_renderer/emoji_renderer.cpp) decodes to its input, and its
-- length is four characters for each begun group of three bytes.
use edmcoverlay_for_linux.Base.{
  ℕ, ◌+◌, ◌-◌, ◌*◌, ◌/◌, ◌%◌, ◌<◌, ◌≡◌, refl, ap, ◌∙◌, true, false, not, ◌&&◌, [], ◌∷◌,
  if◌then◌else◌, leb, ◌==◌, ==_iff, length, All, all_below, all_below_sound, arith,
}
use edmcoverlay_for_linux.Base.Text.{Bytes}
use edmcoverlay_for_linux.Emoji.Base64.{base64_char, encode_base64}
use edmcoverlay_for_linux.Emoji.Base64.Groups.{IsByte, groups, encode_base64-groups}

-- The value of a character of the alphabet.
unfoldable pub char_value : ℕ → ℕ
char_value c =
    if leb b'A' c && leb c b'Z'
    then c - b'A'
    else if leb b'a' c && leb c b'z'
    then c - b'a' + 26
    else if leb b'0' c && leb c b'9'
    then c - b'0' + 52
    else if c == b'+'
    then 62
    else 63

-- A group with one or two `=` at its end holds two or one bytes.
decode_group : ℕ → ℕ → ℕ → ℕ → Bytes → Bytes
decode_group p q r s rest =
    let a = char_value p * 4 + char_value q / 16 in
    let b = char_value q % 16 * 16 + char_value r / 4 in
    let c = char_value r % 4 * 64 + char_value s in
    if r == b'=' then a ∷ [] else if s == b'=' then a ∷ b ∷ [] else a ∷ b ∷ c ∷ rest

unfoldable pub decode_base64 : Bytes → Bytes
unfolding decode_group
decode_base64 (p ∷ q ∷ r ∷ s ∷ rest) = decode_group p q r s (decode_base64 rest)
decode_base64 _ = []

char_table :
    all_below 64 (λ i. char_value (base64_char i) == i && not (base64_char i == b'=')) ≡ true
unfolding all_below char_value base64_char
char_table = refl

base64_char_lem :
    (i : ℕ) → i < 64 → (char_value (base64_char i) ≡ i) × ((base64_char i == b'=') ≡ false)
base64_char_lem i h = ground (
  arith,
  all_below_sound (λ i. char_value (base64_char i) == i && not (base64_char i == b'=')) 64 i h
      char_table,
  ==_iff (char_value (base64_char i)) i,
)

decode_three :
    (a b c : ℕ) (rest : Bytes)
    → a < 256
    → b < 256
    → c < 256
    → decode_group
        (base64_char (a / 4))
        (base64_char (a % 4 * 16 + b / 16))
        (base64_char (b % 16 * 4 + c / 64))
        (base64_char (c % 64))
        rest
      ≡ a ∷ b ∷ c ∷ rest
unfolding decode_group
decode_three a b c rest ha hb hc =
    let p = base64_char_lem (a / 4) (omega arith) in
    let q = base64_char_lem (a % 4 * 16 + b / 16) (omega arith) in
    let r = base64_char_lem (b % 16 * 4 + c / 64) (omega arith) in
    let s = base64_char_lem (c % 64) (omega arith) in
    rw (p.0, q.0, r.0, s.0, r.1, s.1) (ground arith)

decode-groups : (bytes : Bytes) → All IsByte bytes → decode_base64 (groups bytes) ≡ bytes
unfolding decode_base64
decode-groups [] h = refl
decode-groups (a ∷ []) h =
    let p = base64_char_lem (a / 4) (omega (arith, h.0)) in
    let q = base64_char_lem (a % 4 * 16) (omega arith) in rw (p.0, q.0) (ground arith)
decode-groups (a ∷ b ∷ []) h =
    let p = base64_char_lem (a / 4) (omega (arith, h.0)) in
    let q = base64_char_lem (a % 4 * 16 + b / 16) (omega (arith, h.1.0)) in
    let r = base64_char_lem (b % 16 * 4) (omega arith) in rw (p.0, q.0, r.0, r.1) (ground arith)
decode-groups (a ∷ b ∷ c ∷ rest) h =
    decode_three a b c (decode_base64 (groups rest)) h.0 h.1.0 h.1.1.0
    ∙ ap (λ r. a ∷ b ∷ c ∷ r) (decode-groups rest h.1.1.1)

-- Every list of bytes can be read back from its encoding.
pub decode_base64-encode_base64 :
    (bytes : Bytes) → All IsByte bytes → decode_base64 (encode_base64 bytes) ≡ bytes
decode_base64-encode_base64 bytes h =
    ap decode_base64 (encode_base64-groups bytes h) ∙ decode-groups bytes h

length-groups : (bytes : Bytes) → length (groups bytes) ≡ (length bytes + 2) / 3 * 4
length-groups [] = refl
length-groups (a ∷ []) = refl
length-groups (a ∷ b ∷ []) = refl
length-groups (a ∷ b ∷ c ∷ rest) = omega (arith, length-groups rest)

-- The encoding has four bytes for every three bytes of the input, rounded up.
length-encode_base64 :
    (bytes : Bytes) → All IsByte bytes → length (encode_base64 bytes) ≡ (length bytes + 2) / 3 * 4
length-encode_base64 bytes h = ap length (encode_base64-groups bytes h) ∙ length-groups bytes
