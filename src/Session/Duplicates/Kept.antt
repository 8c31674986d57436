-- ===== src/Session/Duplicates/Kept.antt =====
-- What a run of removeRenamedDuplicates (cpp/tcp_session.hpp) that ends keeps of the map.
use edmcoverlay_for_linux.Base.{
  ℕ, zero, suc, ◌≡◌, subst, inl, inr, Bool, true, ◌||◌, List, [], ◌∷◌, ◌++◌, length, All, Any,
  Bool-cases, Option-cases, ltb, finished, Ends, map_outcome-Ends, Ends-mono, All-middle,
  All-without,
}
use edmcoverlay_for_linux.Draw.{Item}
use edmcoverlay_for_linux.Session.Duplicates.{
  Entry, Split, mark, created_at, find_dup, duplicates_loop, remove_renamed_duplicates,
}
use edmcoverlay_for_linux.Session.Duplicates.Search.{same, Splits, find_dup-Splits}

Any-mono {ℓ} :
    {A : Type ℓ} {P Q : A → Type 0} (xs : List A) → ((x : A) → P x → Q x) → Any P xs → Any Q xs
Any-mono [] h p = p
Any-mono (x ∷ xs) h (inl p) = inl (h x p)
Any-mono (x ∷ xs) h (inr p) = inr (Any-mono xs h p)

module _ {N : Type 0} (node_eq : N → N → Bool) where
  -- The first item is the second, but for its mark, by a chain of comparisons of isEqualStoredData that
  -- said so.
  pub data Linked : Item N → Item N → Type 0 where
    itself : (i : Item N) → Linked i i
    marked : (b : Bool) (e : Entry N) {k : Item N} → Linked (mark b e).1 k → Linked e.1 k
    forth :
        {i : Item N} (j : Item N) {k : Item N} → same node_eq i j ≡ true → Linked j k → Linked i k
    back :
        {i : Item N} (j : Item N) {k : Item N} → same node_eq j i ≡ true → Linked j k → Linked i k

  -- An item that `i` is linked to is among the entries.
  abbrev pub Shows : List (Entry N) → Item N → Type 0
  Shows r i = Any (λ (d : Entry N). Linked i d.1) r

  -- The data of every entry of `src` is still in `r`.
  abbrev pub Covers : List (Entry N) → List (Entry N) → Type 0
  Covers r src = All (λ (e : Entry N). Shows r e.1) src

  Covers-cons : (d : Entry N) (r src : List (Entry N)) → Covers r src → Covers (d ∷ r) src
  Covers-cons d r [] h = tt
  Covers-cons d r (e ∷ src) h = (inr h.0, Covers-cons d r src h.1)

  Shows-marked : (r : List (Entry N)) (b : Bool) (e : Entry N) → Shows r (mark b e).1 → Shows r e.1
  Shows-marked r b e = Any-mono r (λ d l. marked b e l)

  -- The two ways to drop one of two equal entries.
  with_older :
      (x : Entry N) (l : List (Entry N)) (s : Split N) (r : List (Entry N)) (b : Bool)
      → Splits node_eq x.1 l s
      → Covers r (s.pre ++ (mark b s.dup ∷ s.post))
      → Covers r (x ∷ l)
  with_older x l s r b found c =
      let (others, d) = All-without (λ (e : Entry N). Shows r e.1) s.pre s.post (mark b s.dup) c in
      let d' : Shows r s.dup.1 = Shows-marked r b s.dup d in
      (
        Any-mono r (λ e l. back s.dup.1 found.equal l) d',
        rw found.whole (All-middle _ s.pre s.post s.dup others d'),
      )

  with_newer :
      (x : Entry N) (l : List (Entry N)) (s : Split N) (r : List (Entry N)) (b : Bool)
      → Splits node_eq x.1 l s
      → Covers r (s.pre ++ s.post)
      → Covers (mark b x ∷ r) (x ∷ l)
  with_newer x l s r b found c =
      let here : Linked x.1 (mark b x).1 = marked b x (itself (mark b x).1) in
      (
        inl here,
        rw found.whole (
            All-middle _ s.pre s.post s.dup (Covers-cons (mark b x) r (s.pre ++ s.post) c)
              (inl (forth x.1 found.equal here))),
      )

  duplicates_loop-Covers :
      (n : ℕ) (src : List (Entry N)) → Ends (λ r. Covers r src) (duplicates_loop node_eq n src)
  unfolding duplicates_loop
  duplicates_loop-Covers zero src = tt
  duplicates_loop-Covers (suc n) [] = tt
  duplicates_loop-Covers (suc n) (x ∷ []) = (inl (itself x.1), tt)
  duplicates_loop-Covers (suc n) (x ∷ y ∷ rest) =
      elim (Option-cases (find_dup node_eq x.1 (y ∷ rest))) [
        | inl t ↦
            rw (t, duplicates_loop)
              (map_outcome-Ends (λ r. Covers r (y ∷ rest)) (λ r. Covers r (x ∷ y ∷ rest)) (◌∷◌ x) _
                (λ r c. (inl (itself x.1), Covers-cons x r (y ∷ rest) c))
                (duplicates_loop-Covers n (y ∷ rest)))
        | inr (s, t) ↦
            let b = x.1.already_rendered || s.dup.1.already_rendered in
            let found = find_dup-Splits node_eq x.1 (y ∷ rest) s t in
            elim (Bool-cases (ltb (created_at x) (created_at s.dup))) [
              | inl older ↦
                  rw (t, duplicates_loop, older)
                    (Ends-mono (λ r. Covers r (s.pre ++ (mark b s.dup ∷ s.post))) _
                      (duplicates_loop node_eq n (s.pre ++ (mark b s.dup ∷ s.post)))
                      (λ r c. with_older x (y ∷ rest) s r b found c)
                      (duplicates_loop-Covers n (s.pre ++ (mark b s.dup ∷ s.post))))
              | inr newer ↦
                  rw (t, duplicates_loop, newer)
                    (map_outcome-Ends (λ r. Covers r (s.pre ++ s.post)) _ (◌∷◌ (mark b x)) _
                      (λ r c. with_newer x (y ∷ rest) s r b found c)
                      (duplicates_loop-Covers n (s.pre ++ s.post)))
            ]
      ]

  -- Where removeRenamedDuplicates returns, each entry is left, but for its mark, or is linked by a chain
  -- of comparisons that found two drawables equal to an entry that is left.
  pub remove_renamed_duplicates-Covers :
      (src r : List (Entry N)) → remove_renamed_duplicates node_eq src ≡ finished r → Covers r src
  unfolding remove_renamed_duplicates
  remove_renamed_duplicates-Covers src r h =
      subst (Ends (λ r. Covers r src)) h (duplicates_loop-Covers (length src) src)
