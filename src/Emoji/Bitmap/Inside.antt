-- ===== src/Emoji/Bitmap/Inside.antt =====
-- The bounds of the reads of scaleBitmapToFitHeight, cpp/emoji_renderer/emoji_renderer.cpp.
use native.Mathlib.Nat.{mul-le-mul_right, mul-le-mul_left, div-mul-le_self}
use edmcoverlay_for_linux.Base.{ℕ, ◌+◌, ◌-◌, ◌*◌, ◌^◌, ◌≤◌, ◌<◌, arith, ◌⊎◌, inl, inr}
use edmcoverlay_for_linux.Emoji.Float.{Float, unit, to_float, mul, div, truncated}
use edmcoverlay_for_linux.Emoji.Float.Bounds.{round_ratio_above, round_ratio_below}

<-or-≤ : (a b : ℕ) → (a < b) ⊎ (b ≤ a)
<-or-≤ a b = ground arith

to_float_above : (n : ℕ) → to_float n * 2 ^ 24 ≤ n * unit * (2 ^ 24 + 1) + 2 ^ 23
unfolding to_float
to_float_above n = let bound = round_ratio_above (n * unit) 1 in omega arith

to_float_below : (n : ℕ) → n * unit * 2 ^ 24 ≤ to_float n * 2 ^ 24 + n * unit + 2 ^ 23
unfolding to_float
to_float_below n = let bound = round_ratio_below (n * unit) 1 (omega arith) in omega arith

div_above : (a b : Float) → div a b * b * 2 ^ 24 ≤ a * unit * (2 ^ 24 + 1) + b * 2 ^ 23
unfolding div
div_above a b = round_ratio_above (a * unit) b

div_below : (a b : Float) → 0 < b → a * unit * 2 ^ 24 ≤ div a b * b * 2 ^ 24 + a * unit + b * 2 ^ 23
unfolding div
div_below a b h = round_ratio_below (a * unit) b h

mul_above : (a b : Float) → mul a b * unit * 2 ^ 24 ≤ a * b * (2 ^ 24 + 1) + unit * 2 ^ 23
unfolding mul
mul_above a b = round_ratio_above (a * b) unit

-- Multiplied by a factor.
times : (a b s : ℕ) → a ≤ b → a * s ≤ b * s
times a b s h = mul-le-mul_right s h

module _ (d h : ℕ) (byte : d < 256) (some_height : 0 < h) (high : h ≤ 2 ^ 30) where
  abbrev pub scale : Float
  unfolding to_float div
  scale = div (to_float d) (to_float h)

  height_floor : unit - 2 ^ 127 ≤ to_float h
  height_floor = let below = to_float_below h in omega arith

  -- The scale is hardly more than d.
  scale_above : scale * (unit - 2 ^ 127) * 2 ^ 24 ≤ 256 * unit * unit * (2 ^ 24 + 2)
  unfolding scale
  scale_above =
      let d_above = to_float_above d in
      let quotient = div_above (to_float d) (to_float h) in
      let h_above = to_float_above h in
      let factor : scale * (unit - 2 ^ 127) ≤ scale * to_float h =
        mul-le-mul_left scale height_floor in
      omega arith

  -- The scale times h is hardly less than d.
  scale_below :
      d * unit * unit * (2 ^ 24 - 3) ≤ h * scale * unit * (2 ^ 24 + 1) + scale * 2 ^ 23 + 2 ^ 205
  unfolding scale
  scale_below =
      let d_below = to_float_below d in
      let h_above = to_float_above h in
      let height = height_floor in
      let quotient = div_below (to_float d) (to_float h) (omega arith) in
      let by_scale : to_float h * 2 ^ 24 * scale ≤ (h * unit * (2 ^ 24 + 1) + 2 ^ 23) * scale =
        mul-le-mul_right scale h_above in
      omega arith

  -- The reads of a row stay below the height.
  pub row_inside : (y : ℕ) → y < d → truncated (div (to_float y) scale) < h
  unfolding truncated scale
  row_inside y below =
      let s = scale in
      let src = div (to_float y) s in
      let y_above = to_float_above y in
      let quotient = div_above (to_float y) s in
      let s_above = scale_above in
      let s_below = scale_below in
      elim (<-or-≤ (truncated src) h) [
        | inl inside ↦ inside
        | inr outside ↦
            let floor : truncated src * unit ≤ src = div-mul-le_self src unit in
            let far : h * unit ≤ src = omega arith in
            let by_scale : h * unit * s ≤ src * s = mul-le-mul_right s far in absurd (omega arith)
      ]

  -- The reads of a column stay below the width, for pictures that are not too wide.
  pub column_inside :
      (w x : ℕ)
      → w ≤ 2 ^ 13
      → x < truncated (mul (to_float w) scale)
      → truncated (div (to_float x) scale) < w
  unfolding truncated scale
  column_inside w x narrow below =
      let s = scale in
      let src = div (to_float x) s in
      let wide = mul (to_float w) s in
      let x_above = to_float_above x in
      let quotient = div_above (to_float x) s in
      let product = mul_above (to_float w) s in
      let by_scale : to_float w * 2 ^ 24 * s ≤ (w * unit * (2 ^ 24 + 1) + 2 ^ 23) * s =
        mul-le-mul_right s (to_float_above w) in
      let least : truncated wide * unit ≤ wide = div-mul-le_self wide unit in
      let s_above = scale_above in
      let bounded : w * s ≤ 2 ^ 13 * s = mul-le-mul_right s narrow in
      elim (<-or-≤ (truncated src) w) [
        | inl inside ↦ inside
        | inr outside ↦
            let floor : truncated src * unit ≤ src = div-mul-le_self src unit in
            let far : w * unit ≤ src = omega arith in
            let far_by_scale : w * unit * s ≤ src * s = mul-le-mul_right s far in
            absurd (omega arith)
      ]
