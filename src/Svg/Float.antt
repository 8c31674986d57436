-- ===== src/Svg/Float.antt =====
-- The `float` arithmetic of cpp/svgbuilder.cpp on whole numbers: IEEE single precision, rounded to
-- the nearest with ties to even. A value is written as a whole number of some power of 1/2.
use edmcoverlay_for_linux.Base.{
  ℕ, zero, suc, ◌+◌, ◌*◌, ◌/◌, ◌%◌, ◌^◌, ◌&&◌, ◌||◌, if◌then◌else◌, ltb, ◌==◌,
}

-- How many low bits do not fit in the 24 bits of the significand; 64 rounds serve for numbers below
-- 2 ^ 88.
unfoldable pub excess_bits : ℕ → ℕ → ℕ
excess_bits zero m = 0
excess_bits (suc fuel) m =
    let more = suc (excess_bits fuel (m / 2)) in if ltb m (2 ^ 24) then 0 else more

unfoldable pub round_float : ℕ → ℕ
unfolding excess_bits
round_float m =
    let unit = 2 ^ excess_bits 64 m in
    let q = m / unit in
    let r = m % unit in
    let up = ltb unit (2 * r) || (2 * r == unit && q % 2 == 1) in
    if up then (q + 1) * unit else q * unit

-- kYSpacing = 1.05f is 8808038 / 2 ^ 23.
-- static_cast<int>(kYSpacing * static_cast<float>(size))
unfoldable pub line_step : ℕ → ℕ
unfolding round_float
line_step size = round_float (8808038 * round_float size) / 2 ^ 23

-- 0.05f is 13421773 / 2 ^ 28.
-- std::min<unsigned int>(3u, static_cast<unsigned int>(static_cast<float>(width) * 0.05f))
unfoldable pub image_gap : ℕ → ℕ
unfolding round_float
image_gap width =
    let gap = round_float (13421773 * round_float width) / 2 ^ 28 in if ltb gap 3 then gap else 3
