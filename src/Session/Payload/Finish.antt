-- ===== src/Session/Payload/Finish.antt =====
-- When process_payload (cpp/tcp_session.hpp) returns, with no two drawables that show the same.
use edmcoverlay_for_linux.Base.{ℕ, ◌≡◌, ◌≢◌, sym, Bool, true, [], ◌∷◌, ok, Finishes}
use edmcoverlay_for_linux.Base.Int.{ℤ}
use edmcoverlay_for_linux.Base.Text.{Bytes}
use edmcoverlay_for_linux.Base.Map.{
  Map, Ordering-cases, find-Above, Above-trans, set-IsSorted, merged-IsSorted,
}
use edmcoverlay_for_linux.Base.Map
use edmcoverlay_for_linux.Json.{Json}
use edmcoverlay_for_linux.Draw.{Item}
use edmcoverlay_for_linux.Session.Duplicates.Distinct.{
  IsInOrder, IsDistinct, remove_renamed_duplicates-IsDistinct,
}
use edmcoverlay_for_linux.Session.Payload.{
  marks_loop, convert_draws, update_draws, incoming_draws, process_draws, process_payload,
}
use edmcoverlay_for_linux.Session.Payload.Board.{convert_draws-IsBoard}
use edmcoverlay_for_linux.Svg.TextTags.{Renderer}
use edmcoverlay_for_linux.Svg.Build.Built.{ok-injective}
use edmcoverlay_for_linux.Draw.Parse.{parse_json_string}
use edmcoverlay_for_linux.Draw.Parse.Stored.{parse_json_string-IsParsed}
use edmcoverlay_for_linux.Session.Payload.Remarked.{
  marks_loop-Remarked, Remarked-IsInOrder, Remarked-ne, merged-ne,
}

module _ (J : Json) where
  open J use {Node}

  module _ (R : Renderer) (window_width : ℤ) where
    update_draws-Finishes :
        (alive : ℕ → Bool) (c all_draws : Map (Item Node))
        → c ≢ []
        → Map.IsSorted c
        → IsInOrder J.node_eq (Map.merged c all_draws)
        → Finishes (IsDistinct J.node_eq) (update_draws J R window_width alive c all_draws)
    unfolding update_draws
    update_draws-Finishes alive c all_draws ne s o =
        let merged = Map.merged c all_draws in
        let marked = marks_loop J alive 1 (Map.leftover c all_draws) merged in
        let r =
          marks_loop-Remarked J alive 1 (Map.leftover c all_draws) merged
            (merged-IsSorted c all_draws s) in
        remove_renamed_duplicates-IsDistinct J.node_eq marked
          (Remarked-ne J merged marked r (merged-ne J c all_draws ne))
          (Remarked-IsInOrder J merged marked r o)

    process_draws-Finishes :
        (alive : ℕ → Bool) (m c all_draws : Map (Item Node))
        → convert_draws J R window_width m ≡ ok c
        → c ≢ []
        → alive 0 ≡ true
        → Finishes (IsDistinct J.node_eq) (update_draws J R window_width alive c all_draws)
        → Finishes (IsDistinct J.node_eq) (process_draws J R window_width alive m all_draws)
    unfolding process_draws convert_draws
    process_draws-Finishes alive [] c all_draws h ne on f = absurd (ne (sym (ok-injective h)))
    process_draws-Finishes alive (d ∷ draws) c all_draws h ne on f = rw (h, process_draws, on) f

    -- A message that parses to drawables which can all be converted, one at least, at a time when the
    -- program goes on: if of two equal ones, among the new drawables and the old ones that stay, the one with the
    -- later key is always the younger, then process_payload returns, and no two drawables are left
    -- that show the same.
    pub process_payload-Finishes :
        (alive : ℕ → Bool) (clock : ℕ → ℕ) (next : ℕ) (json_str : Bytes)
        (m c all_draws : Map (Item Node))
        → (parse_json_string J clock next json_str).0 ≡ ok m
        → convert_draws J R window_width m ≡ ok c
        → c ≢ []
        → alive 0 ≡ true
        → IsInOrder J.node_eq (Map.merged c all_draws)
        → Finishes
            (IsDistinct J.node_eq)
            (process_payload J R window_width alive clock next json_str all_draws).0
    unfolding process_payload incoming_draws
    process_payload-Finishes alive clock next json_str m c all_draws h t ne on o =
        let board =
          convert_draws-IsBoard J R window_width m c t
            (parse_json_string-IsParsed J clock next json_str m h) in
        rw (h, process_payload, incoming_draws)
          (process_draws-Finishes alive m c all_draws t ne on
            (update_draws-Finishes alive c all_draws ne board.0 o))
