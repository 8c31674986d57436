-- ===== src/Base/Order.antt =====
-- Comparisons by `operator<`, as the keys of std::map and the elements of std::vector need them.
use mathlib.Core.Path.{◌≡◌, refl}
use mathlib.Core.Bool.{Bool, true, false}
use mathlib.Core.List.{List, [], ◌∷◌}
use native.Mathlib.Omega.{arith}
use edmcoverlay_for_linux.Base.Tests.{if◌then◌else◌}

-- A strict weak order, which std::map demands: it is asymmetric, and what lies between two values
-- is told apart from one of them.
pub record WeakOrder {ℓ} {A : Type ℓ} (lt : A → A → Bool) : Type ℓ where
  pub asym : (a b : A) → lt a b ≡ true → lt b a ≡ false
  pub cotrans : (a b c : A) → lt a c ≡ true → lt a b ≡ false → lt b c ≡ true

module _ {ℓ} {A : Type ℓ} (lt : A → A → Bool) where
  -- std::lexicographical_compare
  unfoldable pub lexicographical : List A → List A → Bool
  lexicographical _ [] = false
  lexicographical [] (y ∷ ys) = true
  lexicographical (x ∷ xs) (y ∷ ys) =
      let rest = lexicographical xs ys in if lt x y then true else if lt y x then false else rest

  -- Neither is before the other: std::map holds the two to be one key.
  unfoldable pub equivalent : A → A → Bool
  equivalent a b = if lt a b then false else if lt b a then false else true

  module _ (w : WeakOrder lt) where
    lexicographical-asym : (a b : List A) → lexicographical a b ≡ true → lexicographical b a ≡ false
    unfolding lexicographical
    lexicographical-asym [] [] h = refl
    lexicographical-asym [] (y ∷ ys) h = refl
    lexicographical-asym (x ∷ xs) [] h = absurd (cc)
    lexicographical-asym (x ∷ xs) (y ∷ ys) h =
        ground (arith, w.asym x y, w.asym y x, lexicographical-asym xs ys)

    lexicographical-cotrans :
        (a b c : List A)
        → lexicographical a c ≡ true
        → lexicographical a b ≡ false
        → lexicographical b c ≡ true
    unfolding lexicographical
    lexicographical-cotrans a b [] h k = absurd (cc)
    lexicographical-cotrans [] [] (z ∷ zs) h k = refl
    lexicographical-cotrans [] (y ∷ ys) (z ∷ zs) h k = absurd (cc)
    lexicographical-cotrans (x ∷ xs) [] (z ∷ zs) h k = refl
    lexicographical-cotrans (x ∷ xs) (y ∷ ys) (z ∷ zs) h k = ground (
      arith,
      w.asym x y,
      w.asym y z,
      w.asym x z,
      w.cotrans x y z,
      w.cotrans y x z,
      w.cotrans x z y,
      w.cotrans z y x,
      w.cotrans y z x,
      w.cotrans z x y,
      lexicographical-cotrans xs ys zs,
    )

    pub lexicographical-WeakOrder : WeakOrder lexicographical
    lexicographical-WeakOrder = record {
      asym = lexicographical-asym;
      cotrans = lexicographical-cotrans;
    }

    pub equivalent_refl : (a : A) → equivalent a a ≡ true
    unfolding equivalent
    equivalent_refl a = ground (arith, w.asym a a)

    -- Equivalent values are equivalent to the same ones.
    pub equivalent_same : (a b c : A) → equivalent a b ≡ true → equivalent a c ≡ equivalent b c
    unfolding equivalent
    equivalent_same a b c h = ground (
      arith,
      w.cotrans a c b,
      w.cotrans c a b,
      w.cotrans a b c,
      w.cotrans b a c,
      w.cotrans b c a,
      w.cotrans c b a,
    )
