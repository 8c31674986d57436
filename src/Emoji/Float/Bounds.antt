-- ===== src/Emoji/Float/Bounds.antt =====
-- How far the rounding of cpp/emoji_renderer/emoji_renderer.cpp's `float` arithmetic leads.
use native.Mathlib.Nat.{
  mul_comm, mul_assoc, div-add-mod, mod-lt, pow-suc, mul-le-mul_left, mul-add, mul-pos,
}
use edmcoverlay_for_linux.Base.{
  ℕ, zero, suc, ◌+◌, ◌*◌, ◌/◌, ◌%◌, ◌^◌, ◌≤◌, ◌<◌, ◌≡◌, refl, sym, ◌∙◌, ap, ◌⊎◌, inl, inr, ltb,
  ◌==◌, ◌&&◌, ◌||◌, Bool, true, false, if◌then◌else◌, Bool-cases, arith,
}
use edmcoverlay_for_linux.Svg.Float.{excess_bits}
use edmcoverlay_for_linux.Emoji.Float.{round_ratio}

-- The bits that do not fit make a unit that is one, or at most 2 ^ -23 of the number.
excess_bits_lem : (fuel m : ℕ) → (excess_bits fuel m ≡ 0) ⊎ (2 ^ excess_bits fuel m * 2 ^ 23 ≤ m)
unfolding excess_bits
excess_bits_lem zero m = inl refl
excess_bits_lem (suc fuel) m = elim (Bool-cases (ltb m (2 ^ 24))) [
  | inl small ↦ rw (small) (inl refl)
  | inr big ↦
      let e = excess_bits fuel (m / 2) in
      let next = pow-suc 2 e in
      rw (big) (
        inr (elim (excess_bits_lem fuel (m / 2)) [
          | inl no_more ↦ rw (no_more) (ground arith)
          | inr more ↦ omega arith
        ]))
]

ulp_bound : (m : ℕ) → 2 ^ excess_bits 320 m * 2 ^ 23 ≤ m + 2 ^ 23
ulp_bound m = elim (excess_bits_lem 320 m) [
  | inl none_over ↦ rw (none_over) (omega arith)
  | inr some_over ↦ omega arith
]

mul-suc_one : (m k : ℕ) → m * (k + 1) ≡ m * k + m
mul-suc_one m k = mul-add m k 1 ∙ omega arith

pow-pos : (e : ℕ) → 0 < 2 ^ e
pow-pos zero = omega arith
pow-pos (suc e) = let next = pow-suc 2 e in omega (arith, pow-pos e)

half_or_more : (a b : ℕ) (odd : Bool) → (ltb a b || (b == a && odd)) ≡ true → a ≤ b
half_or_more a b odd h = ground arith

half_or_less : (a b : ℕ) (odd : Bool) → (ltb a b || (b == a && odd)) ≡ false → b ≤ a
half_or_less a b odd h = ground arith

-- What is rounded up is a half or more, what is rounded down a half or less.
module _ (n d ulp q r : ℕ) (whole : d * ulp * q + r ≡ n)
    (small : d * ulp * 2 ^ 23 ≤ n + d * 2 ^ 23) where
  product : (k : ℕ) → k * ulp * d ≡ d * ulp * k
  product k = mul_comm (k * ulp) d ∙ ap (◌*◌ d) (mul_comm k ulp) ∙ sym (mul_assoc d ulp k)

  rounded_above :
      (up : Bool)
      → (up ≡ true → d * ulp ≤ 2 * r)
      → (if up then (q + 1) * ulp else q * ulp) * d * 2 ^ 24 ≤ n * (2 ^ 24 + 1) + d * 2 ^ 23
  rounded_above true h =
      let half = h refl in
      let p = product (q + 1) in
      let next : d * ulp * (q + 1) ≡ d * ulp * q + d * ulp = mul-suc_one (d * ulp) q in omega arith
  rounded_above false h = let p = product q in omega arith

  rounded_below :
      (up : Bool)
      → (up ≡ false → 2 * r ≤ d * ulp)
      → r < d * ulp
      → n * 2 ^ 24 ≤ (if up then (q + 1) * ulp else q * ulp) * d * 2 ^ 24 + n + d * 2 ^ 23
  rounded_below true h k =
      let p = product (q + 1) in
      let next : d * ulp * (q + 1) ≡ d * ulp * q + d * ulp = mul-suc_one (d * ulp) q in omega arith
  rounded_below false h k = let half = h refl in let p = product q in omega arith

module _ (n d : ℕ) where
  abbrev ulp : ℕ
  unfolding excess_bits
  ulp = 2 ^ excess_bits 320 (n / d)

  ulp_small : d * ulp * 2 ^ 23 ≤ n + d * 2 ^ 23
  unfolding ulp
  ulp_small =
      let bound = mul-le-mul_left d (ulp_bound (n / d)) in
      let one_way = mul_assoc d (2 ^ excess_bits 320 (n / d)) (2 ^ 23) in
      let other = mul-add d (n / d) (2 ^ 23) in let quotient = div-add-mod n d in omega arith

  pub round_ratio_above : round_ratio n d * d * 2 ^ 24 ≤ n * (2 ^ 24 + 1) + d * 2 ^ 23
  unfolding round_ratio ulp
  round_ratio_above =
      rounded_above n d ulp (n / (d * ulp)) (n % (d * ulp)) (div-add-mod n (d * ulp)) ulp_small
        (ltb (d * ulp) (2 * (n % (d * ulp)))
          || (2 * (n % (d * ulp)) == d * ulp && n / (d * ulp) % 2 == 1))
        (half_or_more (d * ulp) (2 * (n % (d * ulp))) (n / (d * ulp) % 2 == 1))

  pub round_ratio_below : 0 < d → n * 2 ^ 24 ≤ round_ratio n d * d * 2 ^ 24 + n + d * 2 ^ 23
  unfolding round_ratio ulp
  round_ratio_below pos_d =
      rounded_below n d ulp (n / (d * ulp)) (n % (d * ulp)) (div-add-mod n (d * ulp)) ulp_small
        (ltb (d * ulp) (2 * (n % (d * ulp)))
          || (2 * (n % (d * ulp)) == d * ulp && n / (d * ulp) % 2 == 1))
        (half_or_less (d * ulp) (2 * (n % (d * ulp))) (n / (d * ulp) % 2 == 1))
        (mod-lt n (mul-pos pos_d (pow-pos (excess_bits 320 (n / d)))))
