-- ===== src/Session/Duplicates/Search.antt =====
-- What the search of removeRenamedDuplicates (cpp/tcp_session.hpp) finds.
use edmcoverlay_for_linux.Base.{
  ◌+◌, ◌≡◌, refl, ap, inl, inr, Bool, true, false, ◌||◌, none, some, List, [], ◌∷◌, ◌++◌, length,
  length-append, any, arith, Bool-cases, Option-cases,
}
use edmcoverlay_for_linux.Draw.{Item, is_equal_stored_data}
use edmcoverlay_for_linux.Session.Duplicates.{Entry, Split, mark, find_dup}

pub any-append {ℓ} :
    {A : Type ℓ} (p : A → Bool) (xs ys : List A) → any p (xs ++ ys) ≡ (any p xs || any p ys)
any-append p [] ys = refl
any-append p (x ∷ xs) ys = ground (arith, any-append p xs ys)

module _ {N : Type 0} (node_eq : N → N → Bool) where
  abbrev pub same : Item N → Item N → Bool
  same = is_equal_stored_data node_eq

  -- Marks do not take part in the comparison.
  pub same-mark_left : (b : Bool) (e : Entry N) (i : Item N) → same (mark b e).1 i ≡ same e.1 i
  unfolding is_equal_stored_data
  same-mark_left b e i = refl

  pub same-mark_right : (b : Bool) (e : Entry N) (i : Item N) → same i (mark b e).1 ≡ same i e.1
  unfolding is_equal_stored_data
  same-mark_right b e i = refl

  pub record Splits (x : Item N) (l : List (Entry N)) (s : Split N) : Type 0 where
    pub whole : l ≡ s.pre ++ (s.dup ∷ s.post)
    pub equal : same s.dup.1 x ≡ true
    pub first : any (λ (e : Entry N). same e.1 x) s.pre ≡ false

  pub find_dup-Splits :
      (x : Item N) (l : List (Entry N)) (s : Split N) → find_dup node_eq x l ≡ some s → Splits x l s
  unfolding find_dup
  find_dup-Splits x [] s h = absurd (cc)
  find_dup-Splits x (e ∷ rest) s h = elim (Bool-cases (same e.1 x)) [
    | inl hit ↦ ground arith
    | inr miss ↦ elim (Option-cases (find_dup node_eq x rest)) [
      | inl n ↦ absurd (ground arith)
      | inr (s', t) ↦ ground (arith, find_dup-Splits x rest s' t)
    ]
  ]

  pub find_dup-none :
      (x : Item N) (l : List (Entry N))
      → find_dup node_eq x l ≡ none
      → any (λ (e : Entry N). same e.1 x) l ≡ false
  unfolding find_dup
  find_dup-none x [] h = refl
  find_dup-none x (e ∷ rest) h = ground (arith, find_dup-none x rest)

  pub find_dup-of_any :
      (x : Item N) (l : List (Entry N))
      → any (λ (e : Entry N). same e.1 x) l ≡ false
      → find_dup node_eq x l ≡ none
  unfolding find_dup
  find_dup-of_any x [] h = refl
  find_dup-of_any x (e ∷ rest) h = ground (arith, find_dup-of_any x rest)

  pub length-Splits :
      (x : Item N) (l : List (Entry N)) (s : Split N)
      → Splits x l s
      → length l ≡ length s.pre + length s.post + 1
  length-Splits x l s h = omega (arith, ap length h.whole, length-append {0} s.pre (s.dup ∷ s.post))
