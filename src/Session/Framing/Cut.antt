-- ===== src/Session/Framing/Cut.antt =====
-- The two ways in which TcpSession (cpp/tcp_session.hpp) takes a piece off its buffer, on a buffer
-- that has only a part of what the client sends.
use edmcoverlay_for_linux.Base.{
  ℕ, zero, suc, ◌≤◌, ◌≡◌, refl, ap, inl, inr, some, List, [], ◌∷◌, ◌++◌, ◌==◌, length, take, drop,
  All, arith, Option-cases, Bool-cases,
}
use edmcoverlay_for_linux.Base.Text.{Bytes, IsDigit}
use edmcoverlay_for_linux.Session.Framing.{getline}

-- A header of digits is cut off at the '#' behind it.
pub getline-digits :
    (h rest : Bytes) → All IsDigit h → getline (h ++ (b'#' ∷ rest)) ≡ some (h, rest)
unfolding getline
getline-digits [] rest d = refl
getline-digits (c ∷ h) rest d = ground (arith, getline-digits h rest d.1)

-- More bytes behind the buffer do not change the header.
pub getline-append :
    (buffer more text rest : Bytes)
    → getline buffer ≡ some (text, rest)
    → getline (buffer ++ more) ≡ some (text, rest ++ more)
unfolding getline
getline-append [] more text rest h = absurd (cc)
getline-append (c ∷ buffer) more text rest h = elim (Bool-cases (c == b'#')) [
  | inl mark ↦ ground (arith)
  | inr other ↦ elim (Option-cases (getline buffer)) [
    | inl gone ↦ absurd (ground arith)
    | inr ((t, r), there) ↦ ground (arith, getline-append buffer more t r there)
  ]
]

-- A buffer that is long enough gives the same piece as the whole stream.
pub take-long :
    {A : Type 0} (n : ℕ) (xs ys : List A)
    → n ≤ length xs
    → (take n (xs ++ ys) ≡ take n xs) × (drop n (xs ++ ys) ≡ drop n xs ++ ys)
take-long zero xs ys h = (refl, refl)
take-long (suc n) [] ys h = absurd (omega arith)
take-long (suc n) (x ∷ xs) ys h = let (t, d) = take-long n xs ys (omega arith) in (ap (◌∷◌ x) t, d)
