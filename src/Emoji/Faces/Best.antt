-- ===== src/Emoji/Faces/Best.antt =====
-- The size that renderToPng and computeWidth of cpp/emoji_renderer/emoji_renderer.cpp choose among
-- those of a color font.
use edmcoverlay_for_linux.Base.{
  ℕ, suc, ◌+◌, ◌≤◌, ◌<◌, ltb, ◌≡◌, refl, ap, sym, ◌∙◌, ◌⊎◌, inl, inr, List, [], ◌∷◌, ◌++◌, length,
  All, subst, Bool-cases, arith, ltb→lt, false,
}
use edmcoverlay_for_linux.Base.Int.{ℤ}
use edmcoverlay_for_linux.Emoji.Faces.{distance, best_loop, best_match}

-- `h` stands in the list behind `pre`, nearer to the size than what is before it, and no farther
-- than what follows.
pub record Nearest (size : ℕ) (heights : List ℤ) (n : ℕ) : Type 0 where
  pub before : List ℤ
  pub height : ℤ
  pub after : List ℤ
  pub split : heights ≡ before ++ (height ∷ after)
  pub place : n ≡ length before
  pub nearer : All (λ h. distance size height < distance size h) before
  pub near : All (λ h. distance size height ≤ distance size h) after

below : {a b c : ℕ} → a < b → b < c → a < c
below h k = omega arith

kept : {a b : ℕ} → ltb a b ≡ false → b ≤ a
kept h = ground arith

below_kept : {a b c : ℕ} → a < b → ltb c b ≡ false → a < c
below_kept h k = ground arith

module _ (size : ℕ) where
  abbrev Found : List ℤ → ℕ → ℕ → ℕ → ℕ → Type 0
  Found heights i best diff r =
      ((r ≡ best) × All (λ h. diff ≤ distance size h) heights)
      ⊎ ((n : ℕ) × (r ≡ i + n)
          × (near : Nearest size heights n) × (distance size near.height < diff))

  abbrev later :
      (x : ℤ) (heights : List ℤ) (n : ℕ)
      → (near : Nearest size heights n) → distance size near.height < distance size x
      → Nearest size (x ∷ heights) (suc n)
  later x heights n near less = record {
    before = x ∷ near.before;
    height = near.height;
    after = near.after;
    split = ap (◌∷◌ x) near.split;
    place = ap suc near.place;
    nearer = (less, near.nearer);
    near = near.near;
  }

  best_loop-Found :
      (heights : List ℤ) (i best diff : ℕ)
      → Found heights i best diff (best_loop size heights i best diff)
  unfolding best_loop
  best_loop-Found [] i best diff = inl (refl, tt)
  best_loop-Found (x ∷ heights) i best diff = elim (Bool-cases (ltb (distance size x) diff)) [
    | inl less ↦ rw (less) (elim (best_loop-Found heights (suc i) i (distance size x)) [
      | inl (same, all) ↦ inr (
        0,
        same ∙ omega arith,
        record {
          before = [];
          height = x;
          after = heights;
          split = refl;
          place = refl;
          nearer = tt;
          near = all;
        },
        ltb→lt (distance size x) diff less,
      )
      | inr (n, place, near, nearer) ↦ inr (
        suc n,
        place ∙ omega arith,
        later x heights n near nearer,
        below nearer (ltb→lt (distance size x) diff less),
      )
    ])
    | inr far ↦ rw (far) (elim (best_loop-Found heights (suc i) best diff) [
      | inl (same, all) ↦ inl (same, (kept far, all))
      | inr (n, place, near, nearer) ↦
          inr (suc n, place ∙ omega arith, later x heights n near (below_kept nearer far), nearer)
    ])
  ]

-- The fixed size selected for a color font is the nearest to the size wanted; of the sizes that are
-- equally near it is the first.
pub best_match-Nearest :
    (size : ℕ) (height : ℤ) (heights : List ℤ)
    → Nearest size (height ∷ heights) (best_match size height heights)
unfolding best_match
best_match-Nearest size height heights =
    elim (best_loop-Found size heights 1 0 (distance size height)) [
      | inl (same, all) ↦ record {
        before = [];
        height = height;
        after = heights;
        split = refl;
        place = same;
        nearer = tt;
        near = all;
      }
      | inr (n, place, near, nearer) ↦
          let more = later size height heights n near nearer in
          subst (Nearest size (height ∷ heights)) (sym (place ∙ omega arith)) more
    ]
