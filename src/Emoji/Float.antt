-- ===== src/Emoji/Float.antt =====
-- The `float` arithmetic of cpp/emoji_renderer/emoji_renderer.cpp, on numbers that are not negative:
-- a value is the whole number of times it holds 2 ^ -149, the least of single precision. Results are
-- rounded to the nearest, ties to even.
pub mod Bounds
use edmcoverlay_for_linux.Base.{
  ℕ, ◌+◌, ◌-◌, ◌*◌, ◌/◌, ◌%◌, ◌^◌, ◌&&◌, ◌||◌, if◌then◌else◌, ltb, ◌==◌,
}
use edmcoverlay_for_linux.Svg.Float.{excess_bits}

abbrev pub Float : Type 0
Float = ℕ

abbrev pub unit : Float
unit = 2 ^ 149

-- n / d rounded; 320 rounds serve for all of single precision, which ends at 2 ^ 277 units.
unfoldable pub round_ratio : ℕ → ℕ → Float
unfolding excess_bits
round_ratio n d =
    let ulp = 2 ^ excess_bits 320 (n / d) in
    let q = n / (d * ulp) in
    let r = n % (d * ulp) in
    let up = ltb (d * ulp) (2 * r) || (2 * r == d * ulp && q % 2 == 1) in
    if up then (q + 1) * ulp else q * ulp

-- static_cast<float>
unfoldable pub to_float : ℕ → Float
unfolding round_ratio
to_float n = round_ratio (n * unit) 1

unfoldable pub add : Float → Float → Float
unfolding round_ratio
add a b = round_ratio (a + b) 1

unfoldable pub sub : Float → Float → Float
unfolding round_ratio
sub a b = round_ratio (a - b) 1

unfoldable pub mul : Float → Float → Float
unfolding round_ratio
mul a b = round_ratio (a * b) unit

unfoldable pub div : Float → Float → Float
unfolding round_ratio
div a b = round_ratio (a * unit) b

-- static_cast<unsigned int>
unfoldable pub truncated : Float → ℕ
truncated a = a / unit
