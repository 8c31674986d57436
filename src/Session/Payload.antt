-- ===== src/Session/Payload.antt =====
-- TcpSession::process_payload of cpp/tcp_session.hpp: a message of a client replaces drawables.
pub mod Marks
pub mod Board
pub mod Faults
pub mod Remarked
pub mod Finish
use edmcoverlay_for_linux.Base.{
  ℕ, zero, suc, Bool, true, false, Option, none, some, List, [], ◌∷◌, if◌then◌else◌, is_empty,
  Result, ok, thrown, Outcome, finished, undefined, uncaught,
}
use edmcoverlay_for_linux.Base.Int.{ℤ}
use edmcoverlay_for_linux.Base.Text.{Bytes}
use edmcoverlay_for_linux.Base.Map.{Map}
use edmcoverlay_for_linux.Base.Map
use edmcoverlay_for_linux.Json.{Json}
use edmcoverlay_for_linux.Draw.{Item, set_already_rendered, is_equal_stored_data}
use edmcoverlay_for_linux.Draw.Parse.{parse_json_string}
use edmcoverlay_for_linux.Svg.TextTags.{Renderer}
use edmcoverlay_for_linux.Svg.Build.{build_svg_task}
use edmcoverlay_for_linux.Session.Duplicates.{remove_renamed_duplicates}

module _ (J : Json) where
  open J use {Node}

  -- One old drawable: the incoming one under its key, if it shows the same, need not be drawn again.
  unfoldable pub mark_equal : Bytes → Item Node → Map (Item Node) → Map (Item Node)
  unfolding is_equal_stored_data set_already_rendered
  mark_equal key old incoming = elim (Map.find key incoming) [
    | none ↦ incoming
    | some it ↦
        if is_equal_stored_data J.node_eq it old
        then Map.set key (set_already_rendered it) incoming
        else incoming
  ]

  -- The loop over the old drawables that merge() left. `alive n` is what the n-th call of
  -- canContinue() of the handler answers.
  unfoldable pub marks_loop : (ℕ → Bool) → ℕ → Map (Item Node) → Map (Item Node) → Map (Item Node)
  unfolding mark_equal
  marks_loop alive n [] incoming = incoming
  marks_loop alive n ((key, old) ∷ rest) incoming =
      let more = marks_loop alive (suc n) rest (mark_equal key old incoming) in
      if alive n then more else incoming

  module _ (R : Renderer) (window_width : ℤ) where
    -- The loop that converts the drawables.
    unfoldable pub convert_draws : Map (Item Node) → Result (Map (Item Node))
    convert_draws [] = ok []
    convert_draws ((key, i) ∷ rest) = elim (build_svg_task J R window_width i) [
      | thrown e ↦ thrown e
      | ok i' ↦ elim (convert_draws rest) [
        | thrown e ↦ thrown e
        | ok rest' ↦ ok ((key, i') ∷ rest')
      ]
    ]

    -- The callable of accessContext, under its lock: from the incoming drawables and all those
    -- there are to those there are then.
    unfoldable pub update_draws :
        (ℕ → Bool) → Map (Item Node) → Map (Item Node) → Outcome (Map (Item Node))
    unfolding marks_loop
    update_draws alive incoming all_draws =
        remove_renamed_duplicates J.node_eq
          (marks_loop alive 1 (Map.leftover incoming all_draws) (Map.merged incoming all_draws))

    -- The incoming drawables: an exception of the parser is caught.
    unfoldable pub incoming_draws : (ℕ → ℕ) → ℕ → Bytes → Map (Item Node)
    incoming_draws clock next json_str = elim (parse_json_string J clock next json_str).0 [
      | thrown e ↦ []
      | ok draws ↦ draws
    ]

    -- What follows the parsing. An exception of the conversion is not caught, and ends the process.
    unfoldable pub process_draws :
        (ℕ → Bool) → Map (Item Node) → Map (Item Node) → Outcome (Map (Item Node))
    unfolding uncaught
    process_draws alive [] all_draws = finished all_draws
    process_draws alive (d ∷ draws) all_draws = elim (convert_draws (d ∷ draws)) [
      | thrown e ↦ uncaught e
      | ok converted ↦
          let updated = update_draws alive converted all_draws in
          if alive 0 then updated else finished all_draws
    ]

    -- process_payload: the drawables then, and the counter of generated ids.
    unfoldable pub process_payload :
        (ℕ → Bool) → (ℕ → ℕ) → ℕ → Bytes → Map (Item Node) → Outcome (Map (Item Node)) × ℕ
    unfolding incoming_draws process_draws
    process_payload alive clock next json_str all_draws = (
      process_draws alive (incoming_draws clock next json_str) all_draws,
      (parse_json_string J clock next json_str).1,
    )
