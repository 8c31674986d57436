-- ===== src/Session/Payload/Marks.antt =====
-- The anti-flicker marks of process_payload (cpp/tcp_session.hpp).
use edmcoverlay_for_linux.Base.{
  ℕ, suc, ◌≡◌, refl, ap, sym, ◌∙◌, subst, inl, inr, true, false, Option, none, some, [], ◌∷◌,
  if◌then◌else◌, Option-cases, Bool-cases,
}
use edmcoverlay_for_linux.Base.Text.{Bytes, bytes_eq, bytes_eq_iff}
use edmcoverlay_for_linux.Base.Map.{
  Map, find-Above, find-set, find-leftover, find-merged, leftover-IsSorted,
}
use edmcoverlay_for_linux.Base.Map
use edmcoverlay_for_linux.Json.{Json}
use edmcoverlay_for_linux.Draw.{Item, set_already_rendered, is_equal_stored_data}
use edmcoverlay_for_linux.Session.Payload.{mark_equal, marks_loop}

module _ (J : Json) where
  open J use {Node}

  -- The incoming drawable under a key, marked if the old one under it shows the same.
  abbrev pub marked_by : Option (Item Node) → Option (Item Node) → Option (Item Node)
  marked_by old none = none
  marked_by none (some it) = some it
  marked_by (some old) (some it) =
      some (if is_equal_stored_data J.node_eq it old then set_already_rendered it else it)

  absent :
      (k key : Bytes) (old : Item Node) (incoming : Map (Item Node))
      → Map.find key incoming ≡ none
      → Map.find k incoming ≡ (
          if bytes_eq key k
          then marked_by (some old) (Map.find k incoming)
          else Map.find k incoming)
  absent k key old incoming gone = elim (Bool-cases (bytes_eq key k)) [
    | inl hit ↦
        let e : Map.find k incoming ≡ none =
          subst (λ k. Map.find k incoming ≡ none) ((bytes_eq_iff key k).0 hit) gone in
        rw (hit, e) refl
    | inr miss ↦ rw miss refl
  ]

  present :
      (k key : Bytes) (old it : Item Node) (incoming : Map (Item Node))
      → Map.find key incoming ≡ some it
      → Map.find k (
          if is_equal_stored_data J.node_eq it old
          then Map.set key (set_already_rendered it) incoming
          else incoming)
        ≡ (if bytes_eq key k
            then marked_by (some old) (Map.find k incoming)
            else Map.find k incoming)
  present k key old it incoming there = elim (Bool-cases (bytes_eq key k)) [
    | inl hit ↦
        let e : Map.find k incoming ≡ some it =
          subst (λ k. Map.find k incoming ≡ some it) ((bytes_eq_iff key k).0 hit) there in
        elim (Bool-cases (is_equal_stored_data J.node_eq it old)) [
          | inl same ↦
              rw (same, find-set key k (set_already_rendered it) incoming, hit, e) (rw same refl)
          | inr other ↦ rw (other, hit, e) (rw other refl)
        ]
    | inr miss ↦ elim (Bool-cases (is_equal_stored_data J.node_eq it old)) [
      | inl same ↦ rw (same, find-set key k (set_already_rendered it) incoming, miss) refl
      | inr other ↦ rw (other, miss) refl
    ]
  ]

  find-mark_equal :
      (k key : Bytes) (old : Item Node) (incoming : Map (Item Node))
      → Map.find k (mark_equal J key old incoming) ≡ (
          if bytes_eq key k
          then marked_by (some old) (Map.find k incoming)
          else Map.find k incoming)
  unfolding mark_equal
  find-mark_equal k key old incoming = elim (Option-cases (Map.find key incoming)) [
    | inl gone ↦ rw (gone, mark_equal) (absent k key old incoming gone)
    | inr (it, there) ↦ rw (there, mark_equal) (present k key old it incoming there)
  ]

  marked_by-none : (i : Option (Item Node)) → marked_by none i ≡ i
  marked_by-none none = refl
  marked_by-none (some i) = refl

  -- While the program goes on, what is found under a key is the incoming drawable, with a new mark
  -- exactly if the old drawable under the same key shows the same data.
  find-marks_loop :
      (n : ℕ) (k : Bytes) (olds incoming : Map (Item Node))
      → Map.IsSorted olds
      → Map.find k (marks_loop J (λ _. true) n olds incoming)
        ≡ marked_by (Map.find k olds) (Map.find k incoming)
  unfolding marks_loop Map.find
  find-marks_loop n k [] incoming s = sym (marked_by-none (Map.find k incoming))
  find-marks_loop n k ((key, old) ∷ rest) incoming s =
      find-marks_loop (suc n) k rest (mark_equal J key old incoming) s.1
      ∙ ap (marked_by (Map.find k rest)) (find-mark_equal k key old incoming)
      ∙ elim (Bool-cases (bytes_eq key k)) [
        | inl hit ↦
            let e : key ≡ k = (bytes_eq_iff key k).0 hit in
            let gone : Map.find k rest ≡ none =
              subst (λ k. Map.find k rest ≡ none) e (find-Above key rest s.0) in
            rw (hit, gone) (marked_by-none (marked_by (some old) (Map.find k incoming)))
        | inr miss ↦ rw miss refl
      ]

  -- What replaces the old drawables, before duplicates are taken out, while the program goes on:
  -- under a key of the message its drawable, with a new mark exactly if the old drawable under that
  -- key shows the same data, and under any other key the old drawable.
  pub find-marks_loop-merged :
      (k : Bytes) (incoming all_draws : Map (Item Node))
      → Map.IsSorted all_draws
      → Map.find k (
          marks_loop J
            (λ _. true)
            1
            (Map.leftover incoming all_draws)
            (Map.merged incoming all_draws))
        ≡ elim (Map.find k incoming) [
          | some it ↦ marked_by (Map.find k all_draws) (some it)
          | none ↦ Map.find k all_draws
        ]
  find-marks_loop-merged k incoming all_draws s =
      find-marks_loop 1 k (Map.leftover incoming all_draws) (Map.merged incoming all_draws)
        (leftover-IsSorted incoming all_draws s)
      ∙ rw (find-leftover k incoming all_draws, find-merged k incoming all_draws)
          (elim (Map.find k incoming)
            as (λ i.
              marked_by
                (if (elim i [ none ↦ false | some v ↦ true ]) then Map.find k all_draws else none)
                (elim i [ some v ↦ some v | none ↦ Map.find k all_draws ])
              ≡ elim i [
                | some it ↦ marked_by (Map.find k all_draws) (some it)
                | none ↦ Map.find k all_draws
              ]) [ none ↦ marked_by-none (Map.find k all_draws) | some it ↦ refl ])
