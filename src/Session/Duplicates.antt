-- ===== src/Session/Duplicates.antt =====
-- TcpSession::removeRenamedDuplicates of cpp/tcp_session.hpp.
pub mod Search
pub mod Kept
pub mod Order
pub mod Distinct
pub mod Faults
use edmcoverlay_for_linux.Base.{
  ℕ, zero, suc, Bool, true, false, ◌||◌, Option, none, some, List, [], ◌∷◌, ◌++◌, if◌then◌else◌,
  ltb, length, Outcome, finished, undefined, map_outcome,
}
use edmcoverlay_for_linux.Base.Text.{Bytes}
use edmcoverlay_for_linux.Draw.{Item, is_equal_stored_data}

abbrev pub Entry : Type 0 → Type 0
Entry N = Bytes × Item N

-- The entries behind `iter`, taken apart at the one that `std::find_if` finds.
pub record Split (N : Type 0) : Type 0 where
  pub pre : List (Entry N)
  pub dup : Entry N
  pub post : List (Entry N)

module _ {N : Type 0} where
  -- entry.second.already_rendered = rendered
  abbrev pub mark : Bool → Entry N → Entry N
  mark rendered (k, i) = (k, record i { already_rendered = rendered })

  abbrev pub created_at : Entry N → ℕ
  created_at e = e.1.ttl.created_at

  module _ (node_eq : N → N → Bool) where
    unfoldable pub find_dup : Item N → List (Entry N) → Option (Split N)
    find_dup x [] = none
    find_dup x (e ∷ rest) =
        if is_equal_stored_data node_eq e.1 x
        then some (record { pre = []; dup = e; post = rest })
        else elim (find_dup x rest) [ none ↦ none | some s ↦ some (record s { pre = e ∷ s.pre }) ]

    -- The entries from `iter` on. The loop ends when `iter` is the last entry; an `iter` that has
    -- moved past it is dereferenced. Each round takes an entry off, so their number is enough fuel.
    unfoldable pub duplicates_loop : ℕ → List (Entry N) → Outcome (List (Entry N))
    duplicates_loop zero from = undefined
    duplicates_loop (suc n) [] = undefined
    duplicates_loop (suc n) (x ∷ []) = finished (x ∷ [])
    duplicates_loop (suc n) (x ∷ y ∷ rest) = elim (find_dup x.1 (y ∷ rest)) [
      | none ↦ map_outcome (◌∷◌ x) (duplicates_loop n (y ∷ rest))
      | some s ↦
          let rendered = x.1.already_rendered || s.dup.1.already_rendered in
          elim (ltb (created_at x) (created_at s.dup)) [
            | true ↦ duplicates_loop n (s.pre ++ (mark rendered s.dup ∷ s.post))
            | false ↦ map_outcome (◌∷◌ (mark rendered x)) (duplicates_loop n (s.pre ++ s.post))
          ]
    ]

    unfoldable pub remove_renamed_duplicates : List (Entry N) → Outcome (List (Entry N))
    remove_renamed_duplicates src = duplicates_loop (length src) src
