-- ===== src/Tests/Messages.antt =====
-- Messages and duplicates.
use edmcoverlay_for_linux.Base.{
  ℕ, ◌+◌, ◌≡◌, inl, inr, refl, Bool, true, ◌==◌, some, none, List, [], ◌∷◌, ◌++◌, Any, ok, finished,
  undefined, Finishes, map_outcome, arith,
}
use edmcoverlay_for_linux.Base.Int.{pos}
use edmcoverlay_for_linux.Base.Text.{codes, bytes_eq, bytes_compare}
use edmcoverlay_for_linux.Base.Map.{Map}
use edmcoverlay_for_linux.Base.Map
use edmcoverlay_for_linux.Draw.{
  Item, mode_eq, text_eq, svg_eq, shape_eq, font_size_eq, is_equal_stored_data, is_command,
  is_shape_vector,
}
use edmcoverlay_for_linux.Draw.Parse.{
  parse_json_string, parse_single_object, process_fields, processors, is_switched, store,
}
use edmcoverlay_for_linux.Draw.Vector.{get_coord, const_at}
use edmcoverlay_for_linux.Svg.Build.{build_svg_task, convert_as}
use edmcoverlay_for_linux.Session.Duplicates.{
  Entry, find_dup, duplicates_loop, remove_renamed_duplicates,
}
use edmcoverlay_for_linux.Session.Duplicates.Distinct.{
  IsDistinct, IsInOrder, remove_renamed_duplicates-IsDistinct,
}
use edmcoverlay_for_linux.Session.Duplicates.Kept.{Covers, remove_renamed_duplicates-Covers}
use edmcoverlay_for_linux.Session.Duplicates.Faults.{Settled, remove_renamed_duplicates_past_end}
use edmcoverlay_for_linux.Session.Payload.{
  convert_draws, incoming_draws, process_draws, process_payload, marks_loop, update_draws,
}
use edmcoverlay_for_linux.Session.Payload.Marks.{marked_by, find-marks_loop-merged}
use edmcoverlay_for_linux.Session.Payload.Finish.{process_payload-Finishes}
use edmcoverlay_for_linux.Session.Payload.Board.{IsBoard, process_payload-IsBoard}
use edmcoverlay_for_linux.Session.Payload.Faults.{IsEnd, Breaks, process_payload-terminated}
use edmcoverlay_for_linux.Tests.Toy.{toy, plain, picture, vector}

abbrev node_eq : ℕ → ℕ → Bool
node_eq m n = m == n

-- The same picture under two ids, the second younger, and another one.
abbrev renamed : List (Entry ℕ)
renamed =
    (codes "a", picture (codes "a") (codes "<svg/>") 1)
    ∷ (codes "b", picture (codes "b") (codes "<svg/>") 2)
    ∷ (codes "c", picture (codes "c") (codes "<g/>") 3)
    ∷ []

renamed-IsInOrder : IsInOrder node_eq renamed
renamed-IsInOrder = ((λ _. omega arith, (λ _. omega arith, tt)), ((λ _. omega arith, tt), (tt, tt)))

remove_renamed_duplicates-IsDistinct_example :
    Finishes (IsDistinct node_eq) (remove_renamed_duplicates node_eq renamed)
remove_renamed_duplicates-IsDistinct_example =
    remove_renamed_duplicates-IsDistinct node_eq renamed (λ e. cc e) renamed-IsInOrder

abbrev younger : List (Entry ℕ)
younger =
    (codes "b", picture (codes "b") (codes "<svg/>") 2)
    ∷ (codes "c", picture (codes "c") (codes "<g/>") 3)
    ∷ []

renamed_run : remove_renamed_duplicates node_eq renamed ≡ finished younger
unfolding remove_renamed_duplicates duplicates_loop find_dup map_outcome is_equal_stored_data
    mode_eq bytes_eq text_eq svg_eq shape_eq font_size_eq
renamed_run = refl

remove_renamed_duplicates-Covers_example : Covers node_eq younger renamed
remove_renamed_duplicates-Covers_example =
    remove_renamed_duplicates-Covers node_eq renamed younger renamed_run

-- The screen has a picture under the id b, and a message brings the same picture as a.
abbrev again : Entry ℕ
again = (codes "a", picture (codes "a") (codes "<svg/>") 2)

abbrev old : Entry ℕ
old = (codes "b", picture (codes "b") (codes "<svg/>") 1)

abbrev other : Entry ℕ
other = (codes "A", picture (codes "A") (codes "<g/>") 1)

same_data : is_equal_stored_data node_eq old.1 again.1 ≡ true
unfolding is_equal_stored_data mode_eq bytes_eq text_eq svg_eq shape_eq font_size_eq
same_data = refl

other-Settled : Settled node_eq (other ∷ []) (again ∷ old ∷ [])
unfolding is_equal_stored_data mode_eq bytes_eq text_eq svg_eq shape_eq font_size_eq
other-Settled = (refl, tt)

remove_renamed_duplicates_past_end_example :
    remove_renamed_duplicates node_eq ((other ∷ []) ++ (again ∷ old ∷ [])) ≡ undefined
remove_renamed_duplicates_past_end_example =
    remove_renamed_duplicates_past_end node_eq (other ∷ []) again old other-Settled same_data refl

abbrev clock : ℕ → ℕ
clock n = 10 + n

abbrev always : ℕ → Bool
always n = true

abbrev screen : Map (Item ℕ)
screen = (codes "a", picture (codes "a") (codes "<g/>") 1) ∷ []

screen-IsBoard : IsBoard toy screen
screen-IsBoard = ((tt, tt), (record { keyed = refl; direct = inr refl }, tt))

find-marks_loop-merged_example :
    Map.find
      (codes "a")
      (marks_loop toy (λ _. true) 1 (Map.leftover screen screen) (Map.merged screen screen))
    ≡ elim (Map.find (codes "a") screen) [
      | some it ↦ marked_by toy (Map.find (codes "a") screen) (some it)
      | none ↦ Map.find (codes "a") screen
    ]
find-marks_loop-merged_example = find-marks_loop-merged toy (codes "a") screen screen (tt, tt)

abbrev with_message : Map (Item ℕ)
with_message =
    (codes "a", picture (codes "a") (codes "<g/>") 1)
    ∷ (codes "v", picture (codes "v") (codes "<svg/>") 10)
    ∷ []

message_run :
    (process_payload toy plain (pos 800) always clock 0 (codes "ready") screen).0
    ≡ finished with_message
unfolding process_payload process_draws incoming_draws parse_json_string parse_single_object
    process_fields Map.find Map.set Map.merged Map.leftover processors bytes_eq bytes_compare
    is_switched mode_eq store is_command convert_draws update_draws marks_loop
    remove_renamed_duplicates duplicates_loop find_dup map_outcome is_equal_stored_data text_eq
    svg_eq shape_eq font_size_eq build_svg_task is_shape_vector convert_as
message_run = refl

process_payload-IsBoard_example : IsBoard toy with_message
process_payload-IsBoard_example =
    process_payload-IsBoard toy plain (pos 800) always clock 0 (codes "ready") screen with_message
      screen-IsBoard message_run

abbrev broken : Map (Item ℕ)
broken = (codes "v", vector (codes "v") 10 10) ∷ []

broken_parsed : (parse_json_string toy clock 0 (codes "broken")).0 ≡ ok broken
unfolding parse_json_string parse_single_object process_fields Map.find Map.set processors bytes_eq
    is_switched mode_eq store is_command
broken_parsed = refl

breaks : Any (Breaks toy) broken
unfolding is_shape_vector mode_eq bytes_eq get_coord const_at
breaks = inl (refl, λ h. absurd (cc h.0.0.1))

process_payload-terminated_example :
    IsEnd (process_payload toy plain (pos 800) always clock 0 (codes "broken") screen).0
process_payload-terminated_example =
    process_payload-terminated toy plain (pos 800) always clock 0 (codes "broken") broken screen
      broken_parsed breaks

abbrev ready : Map (Item ℕ)
ready = (codes "v", picture (codes "v") (codes "<svg/>") 10) ∷ []

ready_parsed : (parse_json_string toy clock 0 (codes "ready")).0 ≡ ok ready
unfolding parse_json_string parse_single_object process_fields Map.find Map.set processors bytes_eq
    is_switched mode_eq store is_command
ready_parsed = refl

ready_converted : convert_draws toy plain (pos 800) ready ≡ ok ready
unfolding convert_draws build_svg_task is_shape_vector mode_eq convert_as
ready_converted = refl

merged-IsInOrder : IsInOrder node_eq (Map.merged ready screen)
unfolding Map.merged Map.find Map.set bytes_eq bytes_compare
merged-IsInOrder = ((λ _. omega arith, tt), (tt, tt))

process_payload-Finishes_example :
    Finishes
      (IsDistinct node_eq)
      (process_payload toy plain (pos 800) always clock 0 (codes "ready") screen).0
process_payload-Finishes_example =
    process_payload-Finishes toy plain (pos 800) always clock 0 (codes "ready") ready ready screen
      ready_parsed ready_converted (λ e. cc e) refl merged-IsInOrder
