-- ===== src/Session/Duplicates/Faults.antt =====
-- Where removeRenamedDuplicates (cpp/tcp_session.hpp) leaves the defined part of C++, and where it
-- leaves a duplicate in the map.
use edmcoverlay_for_linux.Base.{
  ℕ, zero, suc, ◌≡◌, Bool, true, false, ◌||◌, List, [], ◌∷◌, ◌++◌, length, any, arith, ltb,
  finished, undefined, map_outcome,
}
use edmcoverlay_for_linux.Session.Duplicates.{
  Entry, mark, created_at, find_dup, duplicates_loop, remove_renamed_duplicates,
}
use edmcoverlay_for_linux.Session.Duplicates.Search.{same, find_dup-of_any}

module _ {N : Type 0} (node_eq : N → N → Bool) where
  -- No entry of `pre` shows the same as one that stands behind it, in `pre` or in `post`.
  abbrev pub Settled : List (Entry N) → List (Entry N) → Type 0
  Settled [] post = Unit
  Settled (x ∷ pre) post =
      (any (λ (e : Entry N). same node_eq e.1 x.1) (pre ++ post) ≡ false) × Settled pre post

  -- `iter` is the last but one entry and the last is its duplicate, not younger.
  last_two :
      (n : ℕ) (x y : Entry N)
      → same node_eq y.1 x.1 ≡ true
      → ltb (created_at x) (created_at y) ≡ false
      → duplicates_loop node_eq (suc (suc n)) (x ∷ y ∷ []) ≡ undefined
  unfolding duplicates_loop find_dup map_outcome
  last_two zero x y h t = ground arith
  last_two (suc n) x y h t = ground arith

  -- A round at an entry that has no duplicate behind it.
  settled_step :
      (n : ℕ) (p q : Entry N) (rest : List (Entry N))
      → any (λ (e : Entry N). same node_eq e.1 p.1) (q ∷ rest) ≡ false
      → duplicates_loop node_eq (suc n) (p ∷ q ∷ rest)
        ≡ map_outcome (◌∷◌ p) (duplicates_loop node_eq n (q ∷ rest))
  unfolding duplicates_loop
  settled_step n p q rest h = rw (find_dup-of_any node_eq p.1 (q ∷ rest) h, duplicates_loop)

  Settled-loop :
      (pre : List (Entry N)) (x y : Entry N)
      → Settled pre (x ∷ y ∷ [])
      → same node_eq y.1 x.1 ≡ true
      → ltb (created_at x) (created_at y) ≡ false
      → duplicates_loop node_eq (length (pre ++ (x ∷ y ∷ []))) (pre ++ (x ∷ y ∷ [])) ≡ undefined
  unfolding map_outcome
  Settled-loop [] x y s h t = last_two zero x y h t
  Settled-loop (p ∷ []) x y s h t =
      rw (settled_step (suc (suc zero)) p x (y ∷ []) s.0, Settled-loop [] x y s.1 h t)
  Settled-loop (p ∷ q ∷ pre) x y s h t = rw (
    settled_step (suc (length (pre ++ (x ∷ y ∷ [])))) p q (pre ++ (x ∷ y ∷ [])) s.0,
    Settled-loop (q ∷ pre) x y s.1 h t,
  )

  -- If the two last entries show the same, the last but one is not the older of them, and the
  -- entries before have no duplicates behind them, then the loop erases the last entry, moves
  -- `iter` to the end, does not stop there and reads through it.
  pub remove_renamed_duplicates_past_end :
      (pre : List (Entry N)) (x y : Entry N)
      → Settled pre (x ∷ y ∷ [])
      → same node_eq y.1 x.1 ≡ true
      → ltb (created_at x) (created_at y) ≡ false
      → remove_renamed_duplicates node_eq (pre ++ (x ∷ y ∷ [])) ≡ undefined
  unfolding remove_renamed_duplicates
  remove_renamed_duplicates_past_end pre x y s h t = Settled-loop pre x y s h t

  -- Of three entries whose second shows the same as the first and is not younger, the loop takes out
  -- the second and stops at the third, which stays even if it shows the same too.
  remove_renamed_duplicates_three :
      (x y z : Entry N)
      → same node_eq y.1 x.1 ≡ true
      → ltb (created_at x) (created_at y) ≡ false
      → remove_renamed_duplicates node_eq (x ∷ y ∷ z ∷ [])
        ≡ finished (mark (x.1.already_rendered || y.1.already_rendered) x ∷ z ∷ [])
  unfolding remove_renamed_duplicates duplicates_loop find_dup map_outcome
  remove_renamed_duplicates_three x y z h t = ground arith
