-- ===== src/Strutils/Trim.antt =====
-- trim of cpp/common/strutils.h takes the blanks off both ends and nothing else.
use edmcoverlay_for_linux.Base.{
  ℕ, ◌≡◌, refl, ap, ◌∙◌, inl, inr, Bool, true, false, not, ◌&&◌, [], ◌∷◌, ◌++◌, append_assoc,
  if◌then◌else◌, is_empty, All, arith, Bool-cases,
}
use edmcoverlay_for_linux.Base.Text.{Bytes}
use edmcoverlay_for_linux.Strutils.{is_in, ltrim, rtrim, trim}

-- The first byte, the last byte, is no blank, if there is one.
abbrev pub bare_start : Bytes → Bytes → Bool
bare_start t [] = true
bare_start t (c ∷ cs) = not (is_in t c)

abbrev pub bare_end : Bytes → Bytes → Bool
bare_end t [] = true
bare_end t (c ∷ cs) = if is_empty cs then not (is_in t c) else bare_end t cs

abbrev pub Blank : Bytes → ℕ → Type 0
Blank t c = is_in t c ≡ true

-- `r` is `s` without the blanks at both ends.
pub record IsTrimmed (t s r : Bytes) : Type 0 where
  pub front : Bytes
  pub back : Bytes
  pub whole : s ≡ front ++ (r ++ back)
  pub front_blank : All (Blank t) front
  pub back_blank : All (Blank t) back
  pub start : bare_start t r ≡ true
  pub end : bare_end t r ≡ true

record Cuts (t s r : Bytes) : Type 0 where
  back : Bytes
  whole : s ≡ r ++ back
  blank : All (Blank t) back
  end : bare_end t r ≡ true

bare_end_cons :
    (t : Bytes) (c : ℕ) (r : Bytes)
    → (is_empty r && is_in t c) ≡ false
    → bare_end t r ≡ true
    → bare_end t (c ∷ r) ≡ true
bare_end_cons t c [] kept h = ap not kept
bare_end_cons t c (d ∷ r) kept h = h

bare_end_tail : (t : Bytes) (c : ℕ) (cs : Bytes) → bare_end t (c ∷ cs) ≡ true → bare_end t cs ≡ true
bare_end_tail t c [] h = refl
bare_end_tail t c (d ∷ r) h = h

is_empty-eq : (s : Bytes) → is_empty s ≡ true → s ≡ []
is_empty-eq [] h = refl
is_empty-eq (c ∷ cs) h = cc

rtrim-Cuts_cons :
    (t : Bytes) (c : ℕ) (cs r : Bytes)
    → Cuts t cs r
    → Cuts t (c ∷ cs) (if is_empty r && is_in t c then [] else c ∷ r)
rtrim-Cuts_cons t c cs r k = elim (Bool-cases (is_empty r && is_in t c)) [
  | inl gone ↦
      let e : r ≡ [] = is_empty-eq r (ground arith) in
      rw gone record {
        back = c ∷ k.back;
        whole = ap (◌∷◌ c) (k.whole ∙ ap (λ r. r ++ k.back) e);
        blank = (ground arith, k.blank);
        end = refl;
      }
  | inr kept ↦ rw kept record {
    back = k.back;
    whole = ap (◌∷◌ c) k.whole;
    blank = k.blank;
    end = bare_end_cons t c r kept k.end;
  }
]

rtrim-Cuts : (t s : Bytes) → Cuts t s (rtrim t s)
unfolding rtrim
rtrim-Cuts t [] = record { back = []; whole = refl; blank = tt; end = refl }
rtrim-Cuts t (c ∷ cs) = rtrim-Cuts_cons t c cs (rtrim t cs) (rtrim-Cuts t cs)

-- What ltrim takes off a text whose end is bare.
ltrim-Front :
    (t s : Bytes)
    → bare_end t s ≡ true
    → (front : Bytes) × (s ≡ front ++ ltrim t s)
      × All (Blank t) front
      × (bare_start t (ltrim t s) ≡ true)
      × (bare_end t (ltrim t s) ≡ true)
unfolding ltrim
ltrim-Front t [] h = ([], refl, tt, refl, refl)
ltrim-Front t (c ∷ cs) h = elim (Bool-cases (is_in t c)) [
  | inl blank ↦
      let (front, whole, all, start, end) = ltrim-Front t cs (bare_end_tail t c cs h) in
      rw blank (c ∷ front, ap (◌∷◌ c) whole, (blank, all), start, end)
  | inr bare ↦ rw bare ([], refl, tt, ap not bare, h)
]

-- trim gives the text without the blanks before and behind it: what it takes off at both ends is
-- blank, and what it leaves neither starts nor ends with a blank.
pub trim-IsTrimmed : (t s : Bytes) → IsTrimmed t s (trim t s)
unfolding trim
trim-IsTrimmed t s =
    let k = rtrim-Cuts t s in
    let (front, whole, all, start, end) = ltrim-Front t (rtrim t s) k.end in
    record {
      front = front;
      back = k.back;
      whole =
          k.whole ∙ ap (λ r. r ++ k.back) whole ∙ append_assoc front (ltrim t (rtrim t s)) k.back;
      front_blank = all;
      back_blank = k.blank;
      start = start;
      end = end;
    }
