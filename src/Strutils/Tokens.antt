-- ===== src/Strutils/Tokens.antt =====
-- split and replace_tabs_with_spaces of cpp/common/strutils.h.
use edmcoverlay_for_linux.Base.{
  ℕ, ◌≡◌, refl, sym, ap, ◌∙◌, subst, ◌⊎◌, inl, inr, false, List, [], ◌∷◌, ◌++◌, append_assoc,
  append-nil, ◌==◌, ==_iff, is_empty, All, All-append, Bool-cases,
}
use edmcoverlay_for_linux.Base.Text.{Bytes}
use edmcoverlay_for_linux.Strutils.{getlines, split}

abbrev pub IsNot : ℕ → ℕ → Type 0
IsNot d c = (c == d) ≡ false

-- The tokens with the delimiter between them.
abbrev pub joined : ℕ → List Bytes → Bytes
joined d [] = []
joined d (t ∷ []) = t
joined d (t ∷ u ∷ ts) = t ++ (d ∷ joined d (u ∷ ts))

-- The last token has a byte.
abbrev pub EndsFull : Bytes → List Bytes → Type 0
EndsFull t [] = is_empty t ≡ false
EndsFull t (u ∷ ts) = EndsFull u ts

-- The tokens are those of the text: with the delimiter between them they are the text, and the last is
-- not empty, or they are the text without a delimiter at its end.
abbrev pub Rejoins : ℕ → Bytes → List Bytes → Type 0
Rejoins d s [] = s ≡ []
Rejoins d s (t ∷ ts) =
    ((joined d (t ∷ ts) ≡ s) × EndsFull t ts) ⊎ (joined d (t ∷ ts) ++ (d ∷ []) ≡ s)

getlines-IsNot :
    (d : ℕ) (tok s : Bytes) → All (IsNot d) tok → All (All (IsNot d)) (getlines d tok s)
unfolding getlines
getlines-IsNot d tok [] h = elim (Bool-cases (is_empty tok)) [
  | inl none ↦ rw none tt
  | inr some ↦ rw some (h, tt)
]
getlines-IsNot d tok (c ∷ s) h = elim (Bool-cases (c == d)) [
  | inl delimiter ↦ rw delimiter (h, getlines-IsNot d [] s tt)
  | inr other ↦
      rw other
        (getlines-IsNot d (tok ++ (c ∷ [])) s (All-append (IsNot d) tok (c ∷ []) h (other, tt)))
]

-- No token that split gives has the delimiter inside.
split-IsNot : (s : Bytes) (d : ℕ) → All (All (IsNot d)) (split s d)
unfolding split
split-IsNot s d = getlines-IsNot d [] s tt

Rejoins-cons :
    (d : ℕ) (tok s : Bytes) (ts : List Bytes)
    → Rejoins d s ts
    → Rejoins d (tok ++ (d ∷ s)) (tok ∷ ts)
Rejoins-cons d tok s [] e = inr (ap (λ s. tok ++ (d ∷ s)) (sym e))
Rejoins-cons d tok s (t ∷ ts) (inl (e, full)) = inl (ap (λ s. tok ++ (d ∷ s)) e, full)
Rejoins-cons d tok s (t ∷ ts) (inr e) =
    inr (append_assoc tok (d ∷ joined d (t ∷ ts)) (d ∷ []) ∙ ap (λ s. tok ++ (d ∷ s)) e)

getlines-Rejoins : (d : ℕ) (tok s : Bytes) → Rejoins d (tok ++ s) (getlines d tok s)
unfolding getlines
getlines-Rejoins d [] [] = refl
getlines-Rejoins d (t ∷ tok) [] = inl (sym (append-nil (t ∷ tok)), refl)
getlines-Rejoins d tok (c ∷ s) = elim (Bool-cases (c == d)) [
  | inl delimiter ↦ rw delimiter (
      subst (λ c. Rejoins d (tok ++ (c ∷ s)) (tok ∷ getlines d [] s))
        (sym ((==_iff c d).0 delimiter))
        (Rejoins-cons d tok s (getlines d [] s) (getlines-Rejoins d [] s)))
  | inr other ↦ rw other (
      subst (λ w. Rejoins d w (getlines d (tok ++ (c ∷ [])) s)) (append_assoc tok (c ∷ []) s)
        (getlines-Rejoins d (tok ++ (c ∷ [])) s))
]

-- The tokens that split gives, with the delimiter put between them again, are the text, or are it
-- without a delimiter at its end.
split-Rejoins : (s : Bytes) (d : ℕ) → Rejoins d s (split s d)
unfolding split
split-Rejoins s d = getlines-Rejoins d [] s

-- The tokens that split gives, with the delimiter put between them, are the text, and then the last of
-- them is not empty, or they are the text without the one delimiter at its end. Without tokens
-- the text is empty. No token has the delimiter inside.
pub split-Splits : (s : Bytes) (d : ℕ) → Rejoins d s (split s d) × All (All (IsNot d)) (split s d)
split-Splits s d = (split-Rejoins s d, split-IsNot s d)
