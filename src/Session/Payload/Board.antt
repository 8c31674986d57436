-- ===== src/Session/Payload/Board.antt =====
-- The invariant of the drawables on the screen: what process_payload (cpp/tcp_session.hpp) keeps.
use edmcoverlay_for_linux.Base.{
  ℕ, suc, ◌≡◌, ◌∙◌, subst, inl, inr, Bool, true, some, [], ◌∷◌, arith, Option-cases, Bool-cases,
  All, ok, Result-cases, finished, Ends, Ends-from, uncaught-Ends,
}
use edmcoverlay_for_linux.Base.Int.{ℤ}
use edmcoverlay_for_linux.Base.Text.{Bytes, bytes_eq, bytes_eq_iff}
use edmcoverlay_for_linux.Base.Map.{
  Map, Above, set-IsSorted, set-All, merged-IsSorted, find-All, leftover-IsSorted,
}
use edmcoverlay_for_linux.Base.Map
use edmcoverlay_for_linux.Json.{Json}
use edmcoverlay_for_linux.Draw.{Item, set_already_rendered, is_equal_stored_data}
use edmcoverlay_for_linux.Draw.Parse.{parse_json_string}
use edmcoverlay_for_linux.Draw.Parse.Stored.{IsParsed, parse_json_string-IsParsed}
use edmcoverlay_for_linux.Svg.TextTags.{Renderer}
use edmcoverlay_for_linux.Svg.Build.{build_svg_task}
use edmcoverlay_for_linux.Svg.Build.Built.{IsDirect, build_svg_task-IsBuilt, ok-injective}
use edmcoverlay_for_linux.Session.Duplicates.{Entry, mark, remove_renamed_duplicates}
use edmcoverlay_for_linux.Session.Duplicates.Order.{
  remove_renamed_duplicates-All, remove_renamed_duplicates-IsSorted,
}
use edmcoverlay_for_linux.Session.Payload.{
  mark_equal, marks_loop, convert_draws, update_draws, incoming_draws, process_draws,
  process_payload,
}

module _ (J : Json) where
  open J use {Node}

  -- Under its own id, and in a mode that the output draws as it is.
  pub record IsReady (k : Bytes) (i : Item Node) : Type 0 where
    pub keyed : i.id ≡ k
    pub direct : IsDirect i.drawmode

  abbrev pub Ready : Entry Node → Type 0
  Ready e = IsReady e.0 e.1

  abbrev pub IsBoard : Map (Item Node) → Type 0
  IsBoard m = Map.IsSorted m × All Ready m

  marked-Ready : (b : Bool) (e : Entry Node) → Ready e → Ready (mark b e)
  marked-Ready b e h = record { keyed = h.keyed; direct = h.direct }

  set-IsBoard :
      (k : Bytes) (i : Item Node) (m : Map (Item Node))
      → IsReady k i
      → IsBoard m
      → IsBoard (Map.set k i m)
  set-IsBoard k i m r (s, a) = (set-IsSorted k i m s, set-All IsReady k i m r a)

  merged-IsBoard : (a b : Map (Item Node)) → IsBoard a → IsBoard b → IsBoard (Map.merged a b)
  unfolding Map.merged
  merged-IsBoard a [] board b_board = board
  merged-IsBoard a ((k, i) ∷ b) board (sorted, (ready, rest)) = elim (Bool-cases (Map.has k a)) [
    | inl known ↦ rw known (merged-IsBoard a b board (sorted.1, rest))
    | inr new ↦
        rw new (merged-IsBoard (Map.set k i a) b (set-IsBoard k i a ready board) (sorted.1, rest))
  ]

  find-Ready :
      (k : Bytes) (m : Map (Item Node)) {i : Item Node}
      → All Ready m
      → Map.find k m ≡ some i
      → IsReady k i
  unfolding Map.find
  find-Ready k [] a h = absurd (cc)
  find-Ready k ((j, v) ∷ m) {i} a h = elim (Bool-cases (bytes_eq j k)) [
    | inl hit ↦
        subst (λ i. IsReady k i) (ground arith)
          (subst (λ k. IsReady k v) ((bytes_eq_iff j k).0 hit) a.0)
    | inr miss ↦ find-Ready k m a.1 (ground arith)
  ]

  mark_equal-IsBoard :
      (k : Bytes) (old : Item Node) (m : Map (Item Node))
      → IsBoard m
      → IsBoard (mark_equal J k old m)
  unfolding mark_equal set_already_rendered
  mark_equal-IsBoard k old m board = elim (Option-cases (Map.find k m)) [
    | inl gone ↦ rw (gone, mark_equal) board
    | inr (it, there) ↦ elim (Bool-cases (is_equal_stored_data J.node_eq it old)) [
      | inl same ↦
          rw (there, mark_equal, same)
            (set-IsBoard k (set_already_rendered it) m
              (marked-Ready true (k, it) (find-Ready k m board.1 there)) board)
      | inr other ↦ rw (there, mark_equal, other) board
    ]
  ]

  marks_loop-IsBoard :
      (alive : ℕ → Bool) (n : ℕ) (olds m : Map (Item Node))
      → IsBoard m
      → IsBoard (marks_loop J alive n olds m)
  unfolding marks_loop
  marks_loop-IsBoard alive n [] m board = board
  marks_loop-IsBoard alive n ((k, old) ∷ rest) m board = elim (Bool-cases (alive n)) [
    | inl on ↦ rw on (
        marks_loop-IsBoard alive (suc n) rest (mark_equal J k old m)
          (mark_equal-IsBoard k old m board))
    | inr off ↦ rw off board
  ]

  module _ (R : Renderer) (window_width : ℤ) where
    -- The conversion leaves the keys alone.
    convert_draws-Above :
        (k : Bytes) (m m' : Map (Item Node))
        → convert_draws J R window_width m ≡ ok m'
        → Above k m
        → Above k m'
    unfolding convert_draws
    convert_draws-Above k [] m' h a = subst (Above k) (ok-injective h) a
    convert_draws-Above k ((j, i) ∷ rest) m' h a =
        elim (Result-cases (build_svg_task J R window_width i)) [
          | inl (e, t) ↦ absurd (ground arith)
          | inr (i', t) ↦ elim (Result-cases (convert_draws J R window_width rest)) [
            | inl (e, u) ↦ absurd (ground arith)
            | inr (rest', u) ↦
                let e : (j, i') ∷ rest' ≡ m' = ok-injective (ground arith) in
                subst (Above k) e (a.0, convert_draws-Above k rest rest' u a.1)
          ]
        ]

    pub convert_draws-IsBoard :
        (m m' : Map (Item Node))
        → convert_draws J R window_width m ≡ ok m'
        → IsParsed J m
        → IsBoard m'
    unfolding convert_draws
    convert_draws-IsBoard [] m' h p = subst IsBoard (ok-injective h) (tt, tt)
    convert_draws-IsBoard ((k, i) ∷ rest) m' h (sorted, stored) =
        elim (Result-cases (build_svg_task J R window_width i)) [
          | inl (e, t) ↦ absurd (ground arith)
          | inr (i', t) ↦ elim (Result-cases (convert_draws J R window_width rest)) [
            | inl (e, u) ↦ absurd (ground arith)
            | inr (rest', u) ↦
                let built = build_svg_task-IsBuilt J R window_width i i' t in
                let (s, r) = convert_draws-IsBoard rest rest' u (sorted.1, stored.1) in
                let e : (k, i') ∷ rest' ≡ m' = ok-injective (ground arith) in
                subst IsBoard e (
                  (convert_draws-Above k rest rest' u sorted.0, s),
                  (record { keyed = built.keeps.id ∙ stored.0.keyed; direct = built.mode }, r),
                )
          ]
        ]

    update_draws-IsBoard :
        (alive : ℕ → Bool) (incoming all_draws : Map (Item Node))
        → IsBoard incoming
        → IsBoard all_draws
        → Ends IsBoard (update_draws J R window_width alive incoming all_draws)
    unfolding update_draws
    update_draws-IsBoard alive incoming all_draws a b =
        let src =
          marks_loop J alive 1 (Map.leftover incoming all_draws) (Map.merged incoming all_draws) in
        let board : IsBoard src =
          marks_loop-IsBoard alive 1 (Map.leftover incoming all_draws)
            (Map.merged incoming all_draws) (merged-IsBoard incoming all_draws a b) in
        Ends-from (remove_renamed_duplicates J.node_eq src) (λ r h. (
          remove_renamed_duplicates-IsSorted J.node_eq src r h board.0,
          remove_renamed_duplicates-All J.node_eq Ready marked-Ready src r h board.1,
        ))

    incoming_draws-IsParsed :
        (clock : ℕ → ℕ) (next : ℕ) (json_str : Bytes)
        → IsParsed J (incoming_draws J R window_width clock next json_str)
    unfolding incoming_draws
    incoming_draws-IsParsed clock next json_str =
        elim (Result-cases (parse_json_string J clock next json_str).0) [
          | inl (e, t) ↦ rw (t, incoming_draws) (tt, tt)
          | inr (m, t) ↦
              rw (t, incoming_draws) (parse_json_string-IsParsed J clock next json_str m t)
        ]

    process_draws-IsBoard :
        (alive : ℕ → Bool) (incoming all_draws : Map (Item Node))
        → IsParsed J incoming
        → IsBoard all_draws
        → Ends IsBoard (process_draws J R window_width alive incoming all_draws)
    unfolding process_draws
    process_draws-IsBoard alive [] all_draws p board = board
    process_draws-IsBoard alive (d ∷ draws) all_draws p board =
        elim (Result-cases (convert_draws J R window_width (d ∷ draws))) [
          | inl (e, t) ↦ rw (t, process_draws) (uncaught-Ends IsBoard e)
          | inr (m, t) ↦
              rw (t, process_draws)
                (elim (Bool-cases (alive 0)) [
                  | inl on ↦ rw on (
                      update_draws-IsBoard alive m all_draws
                        (convert_draws-IsBoard (d ∷ draws) m t p) board)
                  | inr off ↦ rw off board
                ])
        ]

    -- A message, whatever is in it, leaves the drawables on the screen in order, without two of one
    -- id, each under its own id, and in a mode that needs no conversion, if process_payload returns.
    pub process_payload-IsBoard :
        (alive : ℕ → Bool) (clock : ℕ → ℕ) (next : ℕ) (json_str : Bytes)
        (all_draws r : Map (Item Node))
        → IsBoard all_draws
        → (process_payload J R window_width alive clock next json_str all_draws).0 ≡ finished r
        → IsBoard r
    unfolding process_payload
    process_payload-IsBoard alive clock next json_str all_draws r board h = subst (Ends IsBoard) h (
        process_draws-IsBoard alive (incoming_draws J R window_width clock next json_str) all_draws
          (incoming_draws-IsParsed clock next json_str) board)
