-- ===== src/Strutils/Search.antt =====
-- The searches of cpp/common/strutils.h against their meaning: a text around, before or behind.
use edmcoverlay_for_linux.Base.{
  ℕ, zero, suc, ◌+◌, ◌-◌, ◌≤◌, ◌≡◌, refl, sym, ap, ◌∙◌, ◌↔◌, inl, inr, true, ◌&&◌, ◌||◌, [], ◌∷◌,
  ◌++◌, leb, leb→le, ◌==◌, length, length-append, length-drop, take, drop, drop-append, arith,
  Bool-cases,
}
use edmcoverlay_for_linux.Base.Text.{Bytes, bytes_eq_iff}
use edmcoverlay_for_linux.Strutils.{ends_with, starts_with, strcontains}

take_all : (xs : Bytes) → take (length xs) xs ≡ xs
take_all [] = refl
take_all (x ∷ xs) = ap (◌∷◌ x) (take_all xs)

take-drop : (n : ℕ) (xs : Bytes) → take n xs ++ drop n xs ≡ xs
take-drop zero xs = refl
take-drop (suc n) [] = refl
take-drop (suc n) (x ∷ xs) = ap (◌∷◌ x) (take-drop n xs)

-- A text cut to its last bytes.
last_bytes :
    (s : Bytes) (n : ℕ) → n ≤ length s → take n (drop (length s - n) s) ≡ drop (length s - n) s
last_bytes s n h =
    let e : length (drop (length s - n) s) ≡ n = omega (arith, length-drop (length s - n) s) in
    ap (λ m. take m (drop (length s - n) s)) (sym e) ∙ take_all (drop (length s - n) s)

-- endsWith holds exactly if the text is some text with the ending behind it.
ends_with_iff :
    (s ending : Bytes) → (ends_with s ending ≡ true) ↔ ((pre : Bytes) × (s ≡ pre ++ ending))
unfolding ends_with
ends_with_iff s ending = (to, from)
  where
    to : ends_with s ending ≡ true → (pre : Bytes) × (s ≡ pre ++ ending)
    to h = elim (Bool-cases (leb (length ending) (length s))) [
      | inl fits ↦
          let tail =
            (bytes_eq_iff (take (length ending) (drop (length s - length ending) s)) ending).0
              (ground arith) in
          (
            take (length s - length ending) s,
            sym (take-drop (length s - length ending) s)
                ∙ ap (◌++◌ (take (length s - length ending) s))
                    (sym (last_bytes s (length ending) (leb→le _ _ fits)) ∙ tail),
          )
      | inr short ↦ absurd (ground arith)
    ]

    from : (pre : Bytes) × (s ≡ pre ++ ending) → ends_with s ending ≡ true
    from (pre, e) =
        let long : length s ≡ length pre + length ending = ap length e ∙ length-append pre ending in
        let fits : leb (length ending) (length s) ≡ true = ground arith in
        let start : length s - length ending ≡ length pre = omega arith in
        let tail : drop (length s - length ending) s ≡ ending =
          ap (λ n. drop n s) start ∙ ap (drop (length pre)) e ∙ drop-append pre ending in
        rw (fits, tail) ((bytes_eq_iff _ _).1 (take_all ending))

starts_with-cons :
    (w c : ℕ) (ws cs : Bytes)
    → (w == c && starts_with ws cs) ≡ true
    → (post : Bytes) × (cs ≡ ws ++ post)
    → (post : Bytes) × (c ∷ cs ≡ w ∷ (ws ++ post))
starts_with-cons w c ws cs h (post, e) = (post, ground arith)

append-empty :
    (pre what post : Bytes) → [] ≡ pre ++ (what ++ post) → (post : Bytes) × ([] ≡ what ++ post)
append-empty [] what post e = (post, e)
append-empty (p ∷ pre) what post e = absurd (cc e)

starts_with_iff :
    (what s : Bytes) → (starts_with what s ≡ true) ↔ ((post : Bytes) × (s ≡ what ++ post))
unfolding starts_with
starts_with_iff [] s = (λ _. (s, refl), λ _. refl)
starts_with_iff (w ∷ ws) [] = (λ h. absurd (cc), λ (post, e). absurd (cc e))
starts_with_iff (w ∷ ws) (c ∷ cs) = (
  λ h. starts_with-cons w c ws cs h ((starts_with_iff ws cs).0 (ground arith)),
  λ (post, e). ground (arith, (starts_with_iff ws cs).1 (post, ground arith)),
)

inside_cons :
    (c : ℕ) (cs what pre post : Bytes)
    → c ∷ cs ≡ pre ++ (what ++ post)
    → ((pre : Bytes) → cs ≡ pre ++ (what ++ post) → strcontains cs what ≡ true)
    → (starts_with what (c ∷ cs) || strcontains cs what) ≡ true
inside_cons c cs what [] post e later = rw ((starts_with_iff what (c ∷ cs)).1 (post, e)) refl
inside_cons c cs what (p ∷ pre) post e later = let h = later pre (cc e) in ground arith

-- strcontains holds exactly if the text has the other one somewhere inside.
pub strcontains_iff :
    (s what : Bytes)
    → (strcontains s what ≡ true) ↔ ((pre : Bytes) × (post : Bytes) × (s ≡ pre ++ (what ++ post)))
unfolding strcontains
strcontains_iff [] what = (
  λ h. let (post, e) = (starts_with_iff what []).0 h in ([], post, e),
  λ (pre, post, e). (starts_with_iff what []).1 (append-empty pre what post e),
)
strcontains_iff (c ∷ cs) what = (
  λ h. elim (Bool-cases (starts_with what (c ∷ cs))) [
    | inl here ↦ let (post, e) = (starts_with_iff what (c ∷ cs)).0 here in ([], post, e)
    | inr later ↦
        let (pre, post, e) = (strcontains_iff cs what).0 (ground arith) in
        (c ∷ pre, post, ap (◌∷◌ c) e)
  ],
  λ (pre, post, e).
      inside_cons c cs what pre post e (λ pre e. (strcontains_iff cs what).1 (pre, post, e)),
)
