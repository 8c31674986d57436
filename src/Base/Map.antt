-- ===== src/Base/Map.antt =====
-- `std::map<std::string, V>`: the entries in the order of their keys, as iteration meets them.
use Prim.Native.Nat.{Ordering}
use mathlib.Core.Path.{◌≡◌, refl, subst}
use mathlib.Core.Logic.{◌⊎◌, inl, inr}
use mathlib.Core.Bool.{Bool, true, false}
use mathlib.Core.Option.{Option, none, some}
use mathlib.Core.List.{List, [], ◌∷◌}
use native.Mathlib.Omega.{arith}
use edmcoverlay_for_linux.Base.Tests.{if◌then◌else◌, Bool-cases}
use edmcoverlay_for_linux.Base.Lists.{All}
use edmcoverlay_for_linux.Base.Text.{
  Bytes, bytes_eq, bytes_eq_iff, bytes_compare, bytes_compare_eq, bytes_compare_refl,
  bytes_compare_gt, bytes_compare_trans,
}

abbrev pub Map {ℓ} : Type ℓ → Type ℓ
Map V = List (Bytes × V)

-- The result of the three-way comparison, for a split that keeps the equation.
pub Ordering-cases : (o : Ordering) → (o ≡ Ordering.lt) ⊎ ((o ≡ Ordering.eq) ⊎ (o ≡ Ordering.gt))
Ordering-cases Ordering.lt = inl refl
Ordering-cases Ordering.eq = inr (inl refl)
Ordering-cases Ordering.gt = inr (inr refl)

module _ {ℓ} {V : Type ℓ} where
  -- m.find(k)
  unfoldable pub find : Bytes → Map V → Option V
  find k [] = none
  find k ((j, v) ∷ m) = if bytes_eq j k then some v else find k m

  -- m[k] = v
  unfoldable pub set : Bytes → V → Map V → Map V
  set k v [] = (k, v) ∷ []
  set k v ((j, w) ∷ m) = elim (bytes_compare k j) [
    | Ordering.lt ↦ (k, v) ∷ (j, w) ∷ m
    | Ordering.eq ↦ (j, v) ∷ m
    | Ordering.gt ↦ (j, w) ∷ set k v m
  ]

  -- m.erase(k)
  unfoldable pub erase : Bytes → Map V → Map V
  erase k [] = []
  erase k ((j, v) ∷ m) = if bytes_eq j k then m else (j, v) ∷ erase k m

  abbrev pub has : Bytes → Map V → Bool
  has k m = elim (find k m) [ none ↦ false | some v ↦ true ]

  -- `a` after a.merge(b), and what stays in `b`.
  unfoldable pub merged : Map V → Map V → Map V
  merged a [] = a
  merged a ((k, v) ∷ b) = merged (if has k a then a else set k v a) b

  unfoldable pub leftover : Map V → Map V → Map V
  leftover a [] = []
  leftover a ((k, v) ∷ b) = if has k a then (k, v) ∷ leftover a b else leftover a b

  abbrev pub Above : Bytes → Map V → Type 0
  Above k [] = Unit
  Above k ((j, v) ∷ m) = (bytes_compare k j ≡ Ordering.lt) × Above k m

  -- The keys rise strictly, so no key occurs twice.
  abbrev pub IsSorted : Map V → Type 0
  IsSorted [] = Unit
  IsSorted ((k, v) ∷ m) = Above k m × IsSorted m

  pub Above-trans :
      (j k : Bytes) (m : Map V) → bytes_compare j k ≡ Ordering.lt → Above k m → Above j m
  Above-trans j k [] h a = tt
  Above-trans j k ((i, v) ∷ m) h a = (bytes_compare_trans j k i h a.0, Above-trans j k m h a.1)

  Above-set :
      (j k : Bytes) (v : V) (m : Map V)
      → bytes_compare j k ≡ Ordering.lt
      → Above j m
      → Above j (set k v m)
  unfolding set
  Above-set j k v [] h a = (h, tt)
  Above-set j k v ((i, w) ∷ m) h a = ground (arith, Above-set j k v m h a.1)

  pub set-IsSorted : (k : Bytes) (v : V) (m : Map V) → IsSorted m → IsSorted (set k v m)
  unfolding set
  set-IsSorted k v [] s = (tt, tt)
  set-IsSorted k v ((j, w) ∷ m) s =
      ground
        (arith, Above-trans k j m, Above-set j k v m, bytes_compare_gt k j, set-IsSorted k v m s.1)

  pub find-set :
      (k j : Bytes) (v : V) (m : Map V)
      → find j (set k v m) ≡ (if bytes_eq k j then some v else find j m)
  unfolding find set
  find-set k j v [] = refl
  find-set k j v ((i, w) ∷ m) = ground (
    arith,
    bytes_compare_eq k i,
    bytes_compare_refl k,
    bytes_eq_iff i j,
    bytes_eq_iff k j,
    find-set k j v m,
  )

  -- A key below all others is not found.
  pub find-Above : (k : Bytes) (m : Map V) → Above k m → find k m ≡ none
  unfolding find
  find-Above k [] a = refl
  find-Above k ((j, v) ∷ m) a =
      ground (arith, bytes_eq_iff j k, bytes_compare_refl k, find-Above k m a.1)

  Above-erase : (j k : Bytes) (m : Map V) → Above j m → Above j (erase k m)
  unfolding erase
  Above-erase j k [] a = tt
  Above-erase j k ((i, v) ∷ m) a = ground (arith, Above-erase j k m a.1)

  pub erase-IsSorted : (k : Bytes) (m : Map V) → IsSorted m → IsSorted (erase k m)
  unfolding erase
  erase-IsSorted k [] s = tt
  erase-IsSorted k ((j, v) ∷ m) s = ground (arith, Above-erase j k m s.0, erase-IsSorted k m s.1)

  pub find-erase :
      (k j : Bytes) (m : Map V)
      → IsSorted m
      → find j (erase k m) ≡ (if bytes_eq k j then none else find j m)
  unfolding find erase
  find-erase k j [] s = ground arith
  find-erase k j ((i, v) ∷ m) s = ground (
    arith,
    bytes_eq_iff i k,
    bytes_eq_iff i j,
    bytes_eq_iff k j,
    find-Above i m s.0,
    find-erase k j m s.1,
  )

  pub merged-IsSorted : (a b : Map V) → IsSorted a → IsSorted (merged a b)
  unfolding merged
  merged-IsSorted a [] s = s
  merged-IsSorted a ((k, v) ∷ b) s =
      merged-IsSorted (if has k a then a else set k v a) b (ground (arith, set-IsSorted k v a s))

  -- The receiver of a merge keeps its entries and gains those whose keys it lacked.
  pub find-merged :
      (j : Bytes) (a b : Map V)
      → find j (merged a b) ≡ elim (find j a) [ some v ↦ some v | none ↦ find j b ]
  unfolding find merged
  find-merged j a [] = ground arith
  find-merged j a ((k, v) ∷ b) = ground (
    arith,
    find-merged j (if has k a then a else set k v a) b,
    find-set k j v a,
    bytes_eq_iff k j,
  )

  Above-leftover : (j : Bytes) (a b : Map V) → Above j b → Above j (leftover a b)
  unfolding leftover
  Above-leftover j a [] h = tt
  Above-leftover j a ((k, v) ∷ b) h = ground (arith, Above-leftover j a b h.1)

  pub leftover-IsSorted : (a b : Map V) → IsSorted b → IsSorted (leftover a b)
  unfolding leftover
  leftover-IsSorted a [] s = tt
  leftover-IsSorted a ((k, v) ∷ b) s =
      ground (arith, Above-leftover k a b s.0, leftover-IsSorted a b s.1)

  pub find-leftover :
      (j : Bytes) (a b : Map V) → find j (leftover a b) ≡ (if has j a then find j b else none)
  unfolding find leftover
  find-leftover j a [] = ground arith
  find-leftover j a ((k, v) ∷ b) = ground (arith, bytes_eq_iff k j, find-leftover j a b)

  pub find-All {κ} :
      (P : V → Type κ) (k : Bytes) (m : Map V) {v : V}
      → All (λ (e : Bytes × V). P e.1) m
      → find k m ≡ some v
      → P v
  unfolding find
  find-All P k [] h e = absurd (cc)
  find-All P k ((j, w) ∷ m) {v} h e = elim (Bool-cases (bytes_eq j k)) [
    | inl hit ↦ subst P (ground arith) h.0
    | inr miss ↦ find-All P k m h.1 (ground arith)
  ]

  pub set-All {κ} :
      (P : Bytes → V → Type κ) (k : Bytes) (v : V) (m : Map V)
      → P k v
      → All (λ (e : Bytes × V). P e.0 e.1) m
      → All (λ (e : Bytes × V). P e.0 e.1) (set k v m)
  unfolding set
  set-All P k v [] p h = (p, tt)
  set-All P k v ((j, w) ∷ m) p h = elim (Ordering-cases (bytes_compare k j)) [
    | inl lt ↦ rw (lt, set) (p, h)
    | inr (inl eq) ↦ rw (eq, set) (subst (λ i. P i v) (bytes_compare_eq k j eq) p, h.1)
    | inr (inr gt) ↦ rw (gt, set) (h.0, set-All P k v m p h.1)
  ]
