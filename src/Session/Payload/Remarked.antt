-- ===== src/Session/Payload/Remarked.antt =====
-- The marks of process_payload (cpp/tcp_session.hpp) change nothing but the marks.
use edmcoverlay_for_linux.Base.{
  ℕ, suc, ◌≡◌, ◌≢◌, refl, sym, ap, ◌∙◌, subst, inl, inr, Bool, true, none, some, [], ◌∷◌, arith,
  Option-cases, Bool-cases, All, Ordering,
}
use edmcoverlay_for_linux.Base.Text.{
  Bytes, bytes_eq_iff, bytes_compare, bytes_compare_eq, bytes_compare_refl,
}
use edmcoverlay_for_linux.Base.Map.{
  Map, Ordering-cases, find-Above, Above-trans, set-IsSorted, merged-IsSorted,
}
use edmcoverlay_for_linux.Base.Map
use edmcoverlay_for_linux.Json.{Json}
use edmcoverlay_for_linux.Draw.{Item, set_already_rendered, is_equal_stored_data}
use edmcoverlay_for_linux.Session.Duplicates.{Entry, mark}
use edmcoverlay_for_linux.Session.Duplicates.Search.{same}
use edmcoverlay_for_linux.Session.Duplicates.Distinct.{Younger, IsInOrder}
use edmcoverlay_for_linux.Session.Payload.{mark_equal, marks_loop}

here :
    {V : Type 0} (k j : Bytes) (it v : V) (m : Map V)
    → bytes_compare k j ≡ Ordering.eq
    → Map.find k ((j, v) ∷ m) ≡ some it
    → v ≡ it
unfolding Map.find
here k j it v m eq there = ground (arith, bytes_compare_eq k j eq, bytes_eq_iff j k)

later :
    {V : Type 0} (k j : Bytes) (it v : V) (m : Map V)
    → bytes_compare k j ≡ Ordering.gt
    → Map.find k ((j, v) ∷ m) ≡ some it
    → Map.find k m ≡ some it
unfolding Map.find
later k j it v m gt there = ground (arith, bytes_compare_refl k, bytes_eq_iff j k)

module _ (J : Json) where
  open J use {Node}

  -- The same entries up to their marks.
  abbrev pub Remarked : Map (Item Node) → Map (Item Node) → Type 0
  Remarked [] [] = Unit
  Remarked [] (d ∷ n) = ⊥
  Remarked (e ∷ m) [] = ⊥
  Remarked (e ∷ m) (d ∷ n) = ((b : Bool) × (d ≡ mark b e)) × Remarked m n

  mark_same : (e : Entry Node) → e ≡ mark (e.1.already_rendered) e
  mark_same e = refl

  Remarked-refl : (m : Map (Item Node)) → Remarked m m
  Remarked-refl [] = tt
  Remarked-refl (e ∷ m) = ((e.1.already_rendered, mark_same e), Remarked-refl m)

  Remarked-trans : (l m n : Map (Item Node)) → Remarked l m → Remarked m n → Remarked l n
  Remarked-trans [] [] [] h k = tt
  Remarked-trans (e ∷ l) (d ∷ m) (c ∷ n) ((b, p), h) ((b', q), k) =
      ((b', q ∙ ap (mark b') p), Remarked-trans l m n h k)
  Remarked-trans [] [] (c ∷ n) h k = absurd k
  Remarked-trans [] (d ∷ m) n h k = absurd h
  Remarked-trans (e ∷ l) [] n h k = absurd h
  Remarked-trans (e ∷ l) (d ∷ m) [] h k = absurd k

  -- Setting a key that is there puts the value in its place.
  Remarked-set :
      (k : Bytes) (it : Item Node) (m : Map (Item Node))
      → Map.find k m ≡ some it
      → Map.IsSorted m
      → Remarked m (Map.set k (set_already_rendered it) m)
  unfolding Map.find Map.set set_already_rendered
  Remarked-set k it [] there s = absurd (cc)
  Remarked-set k it ((j, v) ∷ m) there s = elim (Ordering-cases (bytes_compare k j)) [
    | inl lt ↦
        let gone = find-Above k ((j, v) ∷ m) (lt, Above-trans k j m lt s.0) in
        let bad : none ≡ some it = sym gone ∙ there in absurd (cc bad)
    | inr (inl eq) ↦
        let e : v ≡ it = here k j it v m eq there in
        rw (eq, Map.set) ((true, ap (λ i. (j, set_already_rendered i)) (sym e)), Remarked-refl m)
    | inr (inr gt) ↦
        rw (gt, Map.set)
          ((v.already_rendered, refl), Remarked-set k it m (later k j it v m gt there) s.1)
  ]

  mark_equal-Remarked :
      (k : Bytes) (old : Item Node) (m : Map (Item Node))
      → Map.IsSorted m
      → Remarked m (mark_equal J k old m)
  unfolding mark_equal
  mark_equal-Remarked k old m s = elim (Option-cases (Map.find k m)) [
    | inl gone ↦ rw (gone, mark_equal) (Remarked-refl m)
    | inr (it, there) ↦ elim (Bool-cases (is_equal_stored_data J.node_eq it old)) [
      | inl same ↦ rw (there, mark_equal, same) (Remarked-set k it m there s)
      | inr other ↦ rw (there, mark_equal, other) (Remarked-refl m)
    ]
  ]

  mark_equal-IsSorted :
      (k : Bytes) (old : Item Node) (m : Map (Item Node))
      → Map.IsSorted m
      → Map.IsSorted (mark_equal J k old m)
  unfolding mark_equal
  mark_equal-IsSorted k old m s = elim (Option-cases (Map.find k m)) [
    | inl gone ↦ rw (gone, mark_equal) s
    | inr (it, there) ↦ elim (Bool-cases (is_equal_stored_data J.node_eq it old)) [
      | inl same ↦ rw (there, mark_equal, same) (set-IsSorted k (set_already_rendered it) m s)
      | inr other ↦ rw (there, mark_equal, other) s
    ]
  ]

  pub marks_loop-Remarked :
      (alive : ℕ → Bool) (n : ℕ) (olds m : Map (Item Node))
      → Map.IsSorted m
      → Remarked m (marks_loop J alive n olds m)
  unfolding marks_loop
  marks_loop-Remarked alive n [] m s = Remarked-refl m
  marks_loop-Remarked alive n ((k, old) ∷ rest) m s = elim (Bool-cases (alive n)) [
    | inl on ↦ rw on (
        Remarked-trans m (mark_equal J k old m)
          (marks_loop J alive (suc n) rest (mark_equal J k old m)) (mark_equal-Remarked k old m s)
          (marks_loop-Remarked alive (suc n) rest (mark_equal J k old m)
            (mark_equal-IsSorted k old m s)))
    | inr off ↦ rw off (Remarked-refl m)
  ]

  -- Marks do not matter to the order.
  Younger-mark :
      (b c : Bool) (x e : Entry Node)
      → Younger J.node_eq x e
      → Younger J.node_eq (mark b x) (mark c e)
  unfolding is_equal_stored_data
  Younger-mark b c x e h = h

  All-Younger :
      (b : Bool) (x : Entry Node) (m n : Map (Item Node))
      → Remarked m n
      → All (Younger J.node_eq x) m
      → All (Younger J.node_eq (mark b x)) n
  All-Younger b x [] [] r h = tt
  All-Younger b x [] (d ∷ n) r h = absurd r
  All-Younger b x (e ∷ m) [] r h = absurd r
  All-Younger b x (e ∷ m) (d ∷ n) ((c, q), r) h = (
    subst (Younger J.node_eq (mark b x)) (sym q) (Younger-mark b c x e h.0),
    All-Younger b x m n r h.1,
  )

  pub Remarked-IsInOrder :
      (m n : Map (Item Node)) → Remarked m n → IsInOrder J.node_eq m → IsInOrder J.node_eq n
  Remarked-IsInOrder [] [] r o = tt
  Remarked-IsInOrder [] (d ∷ n) r o = absurd r
  Remarked-IsInOrder (e ∷ m) [] r o = absurd r
  Remarked-IsInOrder (e ∷ m) (d ∷ n) ((b, q), r) o = (
    subst (λ d. All (Younger J.node_eq d) n) (sym q) (All-Younger b e m n r o.0),
    Remarked-IsInOrder m n r o.1,
  )

  pub Remarked-ne : (m n : Map (Item Node)) → Remarked m n → m ≢ [] → n ≢ []
  Remarked-ne [] n r ne e = ne refl
  Remarked-ne (d ∷ m) [] r ne e = r
  Remarked-ne (d ∷ m) (c ∷ n) r ne e = cc e

  set-ne : (k : Bytes) (i : Item Node) (m : Map (Item Node)) → Map.set k i m ≢ []
  unfolding Map.set
  set-ne k i [] = ground arith
  set-ne k i ((j, v) ∷ m) = ground arith

  pub merged-ne : (a b : Map (Item Node)) → a ≢ [] → Map.merged a b ≢ []
  unfolding Map.merged
  merged-ne a [] ne = ne
  merged-ne a ((k, i) ∷ b) ne = elim (Bool-cases (Map.has k a)) [
    | inl known ↦ rw known (merged-ne a b ne)
    | inr new ↦ rw new (merged-ne (Map.set k i a) b (set-ne k i a))
  ]
