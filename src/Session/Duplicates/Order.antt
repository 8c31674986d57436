-- ===== src/Session/Duplicates/Order.antt =====
-- removeRenamedDuplicates (cpp/tcp_session.hpp) makes nothing up: it only drops entries and sets
-- render marks, so what holds of every entry, and the order of the keys, stay.
use edmcoverlay_for_linux.Base.{
  ℕ, zero, suc, ◌≡◌, subst, inl, inr, Bool, ◌||◌, List, [], ◌∷◌, ◌++◌, length, All, All-without,
  All-middle, Bool-cases, Option-cases, ltb, finished, Ends, map_outcome-Ends, Ends-mono, Ends-and,
  Ordering,
}
use edmcoverlay_for_linux.Base.Text.{Bytes, bytes_compare}
use edmcoverlay_for_linux.Base.Map
use edmcoverlay_for_linux.Session.Duplicates.{
  Entry, mark, created_at, find_dup, duplicates_loop, remove_renamed_duplicates,
}
use edmcoverlay_for_linux.Session.Duplicates.Search.{find_dup-Splits}

module _ {N : Type 0} (node_eq : N → N → Bool) where
  -- Properties that render marks do not touch.
  abbrev pub IgnoresMarks {κ} : (Entry N → Type κ) → Type κ
  IgnoresMarks P = (b : Bool) (e : Entry N) → P e → P (mark b e)

  module _ {κ} (P : Entry N → Type κ) (marks : IgnoresMarks P) where
    pub duplicates_loop-All :
        (n : ℕ) (src : List (Entry N))
        → All P src
        → Ends (λ r. All P r) (duplicates_loop node_eq n src)
    unfolding duplicates_loop
    duplicates_loop-All zero src h = tt
    duplicates_loop-All (suc n) [] h = tt
    duplicates_loop-All (suc n) (x ∷ []) h = h
    duplicates_loop-All (suc n) (x ∷ y ∷ rest) h =
        elim (Option-cases (find_dup node_eq x.1 (y ∷ rest))) [
          | inl t ↦
              rw (t, duplicates_loop)
                (map_outcome-Ends (λ r. All P r) (λ r. All P r) (◌∷◌ x) _ (λ r k. (h.0, k))
                  (duplicates_loop-All n (y ∷ rest) h.1))
          | inr (s, t) ↦
              let b = x.1.already_rendered || s.dup.1.already_rendered in
              let (others, d) =
                All-without P s.pre s.post s.dup
                  (subst (All P) (find_dup-Splits node_eq x.1 (y ∷ rest) s t).whole h.1) in
              elim (Bool-cases (ltb (created_at x) (created_at s.dup))) [
                | inl older ↦
                    rw (t, duplicates_loop, older)
                      (duplicates_loop-All n (s.pre ++ (mark b s.dup ∷ s.post))
                        (All-middle P s.pre s.post (mark b s.dup) others (marks b s.dup d)))
                | inr newer ↦
                    rw (t, duplicates_loop, newer)
                      (map_outcome-Ends (λ r. All P r) (λ r. All P r) (◌∷◌ (mark b x)) _
                        (λ r k. (marks b x h.0, k))
                        (duplicates_loop-All n (s.pre ++ s.post) others))
              ]
        ]

    -- A property of all entries that render marks do not touch holds of all that are left.
    pub remove_renamed_duplicates-All :
        (src r : List (Entry N))
        → remove_renamed_duplicates node_eq src ≡ finished r
        → All P src
        → All P r
    unfolding remove_renamed_duplicates
    remove_renamed_duplicates-All src r h all =
        subst (Ends (λ r. All P r)) h (duplicates_loop-All (length src) src all)

  abbrev Behind : Bytes → Entry N → Type 0
  Behind k e = bytes_compare k e.0 ≡ Ordering.lt

  Above-All : (k : Bytes) (m : List (Entry N)) → Map.Above k m → All (Behind k) m
  Above-All k [] h = tt
  Above-All k (e ∷ m) h = (h.0, Above-All k m h.1)

  All-Above : (k : Bytes) (m : List (Entry N)) → All (Behind k) m → Map.Above k m
  All-Above k [] h = tt
  All-Above k (e ∷ m) h = (h.0, All-Above k m h.1)

  IsSorted-without :
      (pre post : List (Entry N)) (d : Entry N)
      → Map.IsSorted (pre ++ (d ∷ post))
      → Map.IsSorted (pre ++ post)
  IsSorted-without [] post d h = h.1
  IsSorted-without (x ∷ pre) post d h = (
    All-Above x.0 (pre ++ post)
        (All-without (Behind x.0) pre post d (Above-All x.0 (pre ++ (d ∷ post)) h.0)).0,
    IsSorted-without pre post d h.1,
  )

  IsSorted-mark :
      (b : Bool) (pre post : List (Entry N)) (d : Entry N)
      → Map.IsSorted (pre ++ (d ∷ post))
      → Map.IsSorted (pre ++ (mark b d ∷ post))
  IsSorted-mark b [] post d h = h
  IsSorted-mark b (x ∷ pre) post d h =
      let (others, k) =
        All-without (Behind x.0) pre post d (Above-All x.0 (pre ++ (d ∷ post)) h.0) in
      (
        All-Above x.0 (pre ++ (mark b d ∷ post))
            (All-middle (Behind x.0) pre post (mark b d) others k),
        IsSorted-mark b pre post d h.1,
      )

  -- A list in order behind a key that is below all of `src`.
  loop-Follows :
      (k : Bytes) (n : ℕ) (src : List (Entry N))
      → Map.Above k src
      → Ends Map.IsSorted (duplicates_loop node_eq n src)
      → Ends (λ r. Map.Above k r × Map.IsSorted r) (duplicates_loop node_eq n src)
  loop-Follows k n src h sorted =
      Ends-and (Map.Above k) Map.IsSorted (duplicates_loop node_eq n src)
        (Ends-mono (All (Behind k)) (Map.Above k) (duplicates_loop node_eq n src) (All-Above k)
          (duplicates_loop-All (Behind k) (λ b e p. p) n src (Above-All k src h)))
        sorted

  duplicates_loop-IsSorted :
      (n : ℕ) (src : List (Entry N))
      → Map.IsSorted src
      → Ends Map.IsSorted (duplicates_loop node_eq n src)
  unfolding duplicates_loop
  duplicates_loop-IsSorted zero src h = tt
  duplicates_loop-IsSorted (suc n) [] h = tt
  duplicates_loop-IsSorted (suc n) (x ∷ []) h = h
  duplicates_loop-IsSorted (suc n) (x ∷ y ∷ rest) h =
      elim (Option-cases (find_dup node_eq x.1 (y ∷ rest))) [
        | inl t ↦
            rw (t, duplicates_loop)
              (map_outcome-Ends _ Map.IsSorted (◌∷◌ x) _ (λ r k. k)
                (loop-Follows x.0 n (y ∷ rest) h.0 (duplicates_loop-IsSorted n (y ∷ rest) h.1)))
        | inr (s, t) ↦
            let b = x.1.already_rendered || s.dup.1.already_rendered in
            let whole = (find_dup-Splits node_eq x.1 (y ∷ rest) s t).whole in
            let sorted : Map.IsSorted (s.pre ++ (s.dup ∷ s.post)) = subst Map.IsSorted whole h.1 in
            elim (Bool-cases (ltb (created_at x) (created_at s.dup))) [
              | inl older ↦
                  rw (t, duplicates_loop, older)
                    (duplicates_loop-IsSorted n (s.pre ++ (mark b s.dup ∷ s.post))
                      (IsSorted-mark b s.pre s.post s.dup sorted))
              | inr newer ↦
                  rw (t, duplicates_loop, newer)
                    (map_outcome-Ends _ Map.IsSorted (◌∷◌ (mark b x)) _ (λ r k. k)
                      (loop-Follows x.0 n (s.pre ++ s.post)
                        (All-Above x.0 (s.pre ++ s.post)
                          (All-without (Behind x.0) s.pre s.post s.dup (
                            Above-All x.0 (s.pre ++ (s.dup ∷ s.post))
                              (subst (Map.Above x.0) whole h.0))).0)
                        (duplicates_loop-IsSorted n (s.pre ++ s.post)
                          (IsSorted-without s.pre s.post s.dup sorted))))
            ]
      ]

  -- The map stays a map: its keys still rise.
  pub remove_renamed_duplicates-IsSorted :
      (src r : List (Entry N))
      → remove_renamed_duplicates node_eq src ≡ finished r
      → Map.IsSorted src
      → Map.IsSorted r
  unfolding remove_renamed_duplicates
  remove_renamed_duplicates-IsSorted src r h sorted =
      subst (Ends Map.IsSorted) h (duplicates_loop-IsSorted (length src) src sorted)
