-- ===== src/Tests/Frames.antt =====
-- Rounds of the main loop.
use edmcoverlay_for_linux.Base.{ℕ, ◌+◌, ◌≡◌, refl, true, false, some, none, finished, List, [], ◌∷◌}
use edmcoverlay_for_linux.Base.Int.{pos, negsuc}
use edmcoverlay_for_linux.Base.Text.{codes, bytes_eq}
use edmcoverlay_for_linux.Base.Map.{Map}
use edmcoverlay_for_linux.Draw.{Item, is_command, is_expired, is_valid, new_item}
use edmcoverlay_for_linux.Main.{Loop, Checks, Action, erase_loop, process_frame}
use edmcoverlay_for_linux.Main.Start.{start}
use edmcoverlay_for_linux.Main.Left.{survivors, erase_loop-survivors}
use edmcoverlay_for_linux.Main.Runs.{Runs}
use edmcoverlay_for_linux.Tests.Toy.{picture}

abbrev seen : Loop
seen = record {
  last_check_time = 0;
  transparency_checks_counter = 0;
  target_app_active = true;
  command_hide_layer = false;
  window_was_hidden = false;
  accepting = true;
}

-- One drawable for good, one that has expired, and a command.
abbrev lasting : Item ℕ
lasting = picture (codes "a") (codes "<svg/>") 1

abbrev brief : Item ℕ
brief = record (picture (codes "b") (codes "<g/>") 1) {
  ttl = record { created_at = 1; ttl = pos 2 };
}

abbrev off : Item ℕ
off = record (new_item 0 1) { id = codes "c"; command = codes "overlay_off" }

abbrev draws : Map (Item ℕ)
draws = (codes "a", lasting) ∷ (codes "b", brief) ∷ (codes "c", off) ∷ []

abbrev clock : ℕ → ℕ
clock n = 9_000_000_000 + n

left_over : survivors clock 0 draws ≡ (codes "a", lasting) ∷ []
unfolding is_command is_expired is_valid bytes_eq
left_over = refl

erase_loop-survivors_example : (erase_loop clock 0 draws seen true).left ≡ survivors clock 0 draws
erase_loop-survivors_example = erase_loop-survivors clock 0 draws seen true

abbrev checks : Checks
checks = record { now = 0; later = 0; focused = []; transparent = true; transparent_later = true }

abbrev hidden_now : Loop × Map (Item ℕ) × List (Action ℕ)
unfolding process_frame
hidden_now = process_frame clock draws seen

-- The window of the plugin.
started :
    start (
      codes "edmcoverlay"
      ∷ codes "-5"
      ∷ codes " 7"
      ∷ codes "640"
      ∷ codes "480px"
      ∷ codes " elite\n"
      ∷ [])
    ≡ finished (
        some (record {
          program_name = codes "elite";
          x = negsuc 4;
          y = pos 7;
          window_width = pos 640;
          window_height = pos 480;
        }))
unfolding start
started = refl

-- Too few arguments.
usage : start (codes "edmcoverlay" ∷ codes "1" ∷ []) ≡ finished none
unfolding start
usage = refl
