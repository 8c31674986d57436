-- ===== src/Session/Duplicates/Distinct.antt =====
-- removeRenamedDuplicates (cpp/tcp_session.hpp) where every duplicate is younger than the entry
-- before it: the loop then ends, and leaves no two equal entries.
use edmcoverlay_for_linux.Base.{
  ℕ, zero, suc, ◌+◌, ◌≤◌, ◌<◌, ◌≡◌, refl, sym, subst, ◌∙◌, inl, inr, ◌≢◌, Bool, true, false, ◌||◌,
  List, [], ◌∷◌, ◌++◌, length, length-append, any, All, All-without, All-middle, All-mono, arith,
  Option-cases, lt→ltb, Finishes, map_outcome-Finishes,
}
use edmcoverlay_for_linux.Session.Duplicates.{
  Entry, Split, mark, created_at, find_dup, duplicates_loop, remove_renamed_duplicates,
}
use edmcoverlay_for_linux.Session.Duplicates.Search.{
  same, same-mark_left, same-mark_right, find_dup-Splits, find_dup-none, length-Splits,
}
use edmcoverlay_for_linux.Session.Duplicates.Order.{duplicates_loop-All}

module _ {N : Type 0} (node_eq : N → N → Bool) where
  -- An equal entry behind `x` is younger than `x`.
  abbrev pub Younger : Entry N → Entry N → Type 0
  Younger x e = same node_eq e.1 x.1 ≡ true → created_at x < created_at e

  abbrev pub IsInOrder : List (Entry N) → Type 0
  IsInOrder [] = Unit
  IsInOrder (x ∷ rest) = All (Younger x) rest × IsInOrder rest

  abbrev Differs : Entry N → Entry N → Type 0
  Differs x e = same node_eq e.1 x.1 ≡ false

  abbrev pub IsDistinct : List (Entry N) → Type 0
  IsDistinct [] = Unit
  IsDistinct (x ∷ rest) = All (Differs x) rest × IsDistinct rest

  All-Differs :
      (x : Entry N) (l : List (Entry N))
      → any (λ (e : Entry N). same node_eq e.1 x.1) l ≡ false
      → All (Differs x) l
  All-Differs x [] h = tt
  All-Differs x (e ∷ l) h = (ground arith, All-Differs x l (ground arith))

  Younger-mark_left :
      (b : Bool) (x : Entry N) (l : List (Entry N)) → All (Younger x) l → All (Younger (mark b x)) l
  Younger-mark_left b x l = All-mono (λ e h s. h (sym (same-mark_right node_eq b x e.1) ∙ s)) l

  IsInOrder-mark :
      (b : Bool) (pre post : List (Entry N)) (d : Entry N)
      → IsInOrder (pre ++ (d ∷ post))
      → IsInOrder (pre ++ (mark b d ∷ post))
  IsInOrder-mark b [] post d h = (Younger-mark_left b d post h.0, h.1)
  IsInOrder-mark b (x ∷ pre) post d h =
      let (others, k) = All-without (Younger x) pre post d h.0 in
      (
        All-middle (Younger x) pre post (mark b d) others
            (λ s. k (sym (same-mark_left node_eq b d x.1) ∙ s)),
        IsInOrder-mark b pre post d h.1,
      )

  length-middle :
      (b : Bool) (s : Split N)
      → length (s.pre ++ (mark b s.dup ∷ s.post)) ≡ length s.pre + length s.post + 1
  length-middle b s = omega (arith, length-append {0} s.pre (mark b s.dup ∷ s.post))

  duplicates_loop-IsDistinct :
      (n : ℕ) (src : List (Entry N))
      → 0 < length src
      → length src ≤ n
      → IsInOrder src
      → Finishes IsDistinct (duplicates_loop node_eq n src)
  unfolding duplicates_loop
  duplicates_loop-IsDistinct zero src p h o = omega arith
  duplicates_loop-IsDistinct (suc n) [] p h o = omega arith
  duplicates_loop-IsDistinct (suc n) (x ∷ []) p h o = (tt, tt)
  duplicates_loop-IsDistinct (suc n) (x ∷ y ∷ rest) p h o =
      elim (Option-cases (find_dup node_eq x.1 (y ∷ rest))) [
        | inl t ↦
            rw (t, duplicates_loop)
              (map_outcome-Finishes IsDistinct (All (Differs x)) IsDistinct (◌∷◌ x)
                (duplicates_loop node_eq n (y ∷ rest)) (λ r d a. (a, d))
                (duplicates_loop-IsDistinct n (y ∷ rest) (omega arith) (omega arith) o.1)
                (duplicates_loop-All node_eq (Differs x)
                  (λ b e d. same-mark_left node_eq b e x.1 ∙ d) n (y ∷ rest)
                  (All-Differs x (y ∷ rest) (find_dup-none node_eq x.1 (y ∷ rest) t))))
        | inr (s, t) ↦
            let b = x.1.already_rendered || s.dup.1.already_rendered in
            let found = find_dup-Splits node_eq x.1 (y ∷ rest) s t in
            let young =
              (All-without (Younger x) s.pre s.post s.dup
                  (subst (All (Younger x)) found.whole o.0)).1
                found.equal in
            rw (t, duplicates_loop, lt→ltb (created_at x) (created_at s.dup) young)
              (duplicates_loop-IsDistinct n (s.pre ++ (mark b s.dup ∷ s.post))
                (omega (arith, length-middle b s))
                (omega (arith, length-middle b s, length-Splits node_eq x.1 (y ∷ rest) s found))
                (IsInOrder-mark b s.pre s.post s.dup (subst IsInOrder found.whole o.1)))
      ]

  -- If the map is not empty and, of two equal entries, the later one is always the younger, then
  -- the loop ends within the map, and no two entries of its result show the same.
  pub remove_renamed_duplicates-IsDistinct :
      (src : List (Entry N))
      → src ≢ []
      → IsInOrder src
      → Finishes IsDistinct (remove_renamed_duplicates node_eq src)
  unfolding remove_renamed_duplicates
  remove_renamed_duplicates-IsDistinct [] ne o = absurd (ne refl)
  remove_renamed_duplicates-IsDistinct (x ∷ rest) ne o =
      duplicates_loop-IsDistinct (length (x ∷ rest)) (x ∷ rest) (omega arith) (omega arith) o
