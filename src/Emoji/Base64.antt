-- ===== src/Emoji/Base64.antt =====
-- encodeBase64 of cpp/emoji_renderer/emoji_renderer.cpp.
pub mod Groups
pub mod RoundTrip
use edmcoverlay_for_linux.Base.{
  ℕ, zero, suc, ◌+◌, ◌*◌, ◌/◌, ◌%◌, ◌^◌, Bool, true, false, List, [], ◌∷◌, ◌++◌, if◌then◌else◌,
  ◌==◌, bit_and, get_or, length, is_empty,
}
use edmcoverlay_for_linux.Base.Int.{ℤ, pos, negsuc, ◌+ℤ◌, ◌-ℤ◌, pos_part, ltb_ℤ}
use edmcoverlay_for_linux.Base.Text.{Bytes, codes}

-- kBase64Chars
abbrev pub base64_chars : Bytes
base64_chars = codes "ABCDEFGHIJKLMNOPQRSTUVWXYZabcdefghijklmnopqrstuvwxyz0123456789+/"

-- kBase64Chars[i]
unfoldable pub base64_char : ℕ → ℕ
base64_char i = get_or base64_chars i 0

-- `(val >> shift) & 0x3F`. `val` is the 32-bit pattern of the int; the shift is at most 8, so the
-- bits that are kept lie below the sign bit.
unfoldable pub six_bits : ℕ → ℕ → ℕ
six_bits val shift = bit_and (val / 2 ^ shift) 0x3F

-- `val = (val << 8) + c`, which wraps in the pattern.
unfoldable pub push_byte : ℕ → ℕ → ℕ
push_byte val c = (val * 256 + c) % 2 ^ 32

-- The loop `while (valb >= 0)`. A round takes 6 off `valb`, so more than its value rounds are
-- never made.
unfoldable pub drain : ℕ → ℕ → ℤ → Bytes → ℤ × Bytes
unfolding ◌-ℤ◌
drain zero val valb out = (valb, out)
drain (suc fuel) val (negsuc n) out = (negsuc n, out)
drain (suc fuel) val (pos n) out =
    drain fuel val (pos n -ℤ pos 6) (out ++ (base64_char (six_bits val n) ∷ []))

-- The loop over the bytes.
unfoldable pub bytes_loop : Bytes → ℕ → ℤ → Bytes → ℕ × ℤ × Bytes
unfolding drain ◌+ℤ◌
bytes_loop [] val valb out = (val, valb, out)
bytes_loop (c ∷ rest) val valb out =
    let val' = push_byte val c in
    let valb' = valb +ℤ pos 8 in
    let drained = drain (suc (pos_part valb')) val' valb' out in
    bytes_loop rest val' drained.0 drained.1

-- `((val << 8) >> (valb + 8)) & 0x3F` if bits are left
unfoldable pub push_rest : ℕ → ℤ → Bytes → Bytes
unfolding ◌+ℤ◌
push_rest val valb out =
    if ltb_ℤ (negsuc 5) valb
    then out ++ (base64_char (six_bits (val * 256 % 2 ^ 32) (pos_part (valb +ℤ pos 8))) ∷ [])
    else out

-- `while (out.size() % 4)`, which ends after three rounds at most.
unfoldable pub pad : ℕ → Bytes → Bytes
pad zero out = out
pad (suc fuel) out = if length out % 4 == 0 then out else pad fuel (out ++ (b'=' ∷ []))

unfoldable pub encode_base64 : Bytes → Bytes
unfolding bytes_loop push_rest pad
encode_base64 data_bytes =
    if is_empty data_bytes
    then []
    else let end = bytes_loop data_bytes 0 (negsuc 5) [] in pad 3 (push_rest end.0 end.1 end.2)
