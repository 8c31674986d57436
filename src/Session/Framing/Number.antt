-- ===== src/Session/Framing/Number.antt =====
-- std::stoul as TcpSession (cpp/tcp_session.hpp) uses it reads a decimal numeral back.
use edmcoverlay_for_linux.Base.{
  ℕ, ◌+◌, ◌-◌, ◌*◌, ◌^◌, ◌<◌, ◌≡◌, ◌≢◌, refl, sym, ap, ◌∙◌, subst, [], ◌∷◌, ok, All, arith,
}
use edmcoverlay_for_linux.Base.Text.{
  Bytes, IsDigit, value_from, to_string, to_string-value, to_string-IsDigit, to_string-ne,
}
use edmcoverlay_for_linux.Session.Framing.{
  skip_spaces, is_space, leading_value, unsigned_digits, signed_digits, stoul,
}

pub leading_value-value_from :
    (v : ℕ) (cs : Bytes) → All IsDigit cs → leading_value v cs ≡ value_from v cs
unfolding leading_value value_from
leading_value-value_from v [] d = refl
leading_value-value_from v (c ∷ cs) d =
    ground (arith, leading_value-value_from (v * 10 + (c - 48)) cs d.1)

stoul-digits :
    (cs : Bytes)
    → All IsDigit cs
    → cs ≢ []
    → value_from 0 cs < 2 ^ 64
    → stoul cs ≡ ok (value_from 0 cs)
unfolding stoul skip_spaces is_space signed_digits unsigned_digits
stoul-digits [] d ne h = absurd (ne refl)
stoul-digits (c ∷ cs) d ne h = ground (arith, leading_value-value_from 0 (c ∷ cs) d)

-- A length that fits in 64 bits is read back from its decimal digits.
pub stoul-to_string : (n : ℕ) → n < 2 ^ 64 → stoul (to_string n) ≡ ok n
stoul-to_string n h =
    stoul-digits (to_string n) (to_string-IsDigit n) (to_string-ne n)
      (subst (λ m. m < 2 ^ 64) (sym (to_string-value n)) h)
    ∙ ap ok (to_string-value n)
