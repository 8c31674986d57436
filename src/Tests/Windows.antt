-- ===== src/Tests/Windows.antt =====
-- The output on an X server that counts its ids.
use edmcoverlay_for_linux.Base.{
  ℕ, suc, ◌+◌, ◌≡◌, ◌≢◌, refl, true, false, some, none, List, [], ◌∷◌, ◌++◌, finished, undefined,
  ◌↔◌, All, All-mono, Ends, arith, is_empty, ◌<◌,
}
use edmcoverlay_for_linux.Base.Int.{pos}
use edmcoverlay_for_linux.Base.Map.{find, set}
use edmcoverlay_for_linux.Base.Text.{Bytes, codes, to_string, bytes_eq, bytes_compare}
use edmcoverlay_for_linux.Draw.{Item, Mode, new_item}
use edmcoverlay_for_linux.Output.{Request, Server, Lunasvg, Screen}
use edmcoverlay_for_linux.Output.Live.{live, AreProper, GivesNewIds}
use edmcoverlay_for_linux.Output.Sound.{IsSound, new_picture}
use edmcoverlay_for_linux.Output.Kept.{Accounts, draw_as_svg-Accounts}
use edmcoverlay_for_linux.Output.Freed.{draw_as_svg-destroy}
use edmcoverlay_for_linux.Output.Faults.{CannotRender, draw_as_svg_iff}
use edmcoverlay_for_linux.Output.Frame.{redraw_window, merge_drawn, erase_drawn, Events}
use edmcoverlay_for_linux.Output.Run.{IsAccounted, Events-IsAccounted}
use edmcoverlay_for_linux.Output.Drawing.{draw_as_svg, destroy}
use edmcoverlay_for_linux.Output.Window.{get_focused_window_binary_path}

-- One more than the greatest id among those that live.
abbrev above : List ℕ → ℕ
above [] = 1
above (x ∷ xs) = suc (x + above xs)

above-All : (xs : List ℕ) (n : ℕ) → above xs + n ≢ 0
above-All [] n e = absurd (omega arith)
above-All (x ∷ xs) n e = absurd (omega arith)

all_below : (xs : List ℕ) (n : ℕ) → All (λ x. x < above xs + n) xs
all_below [] n = tt
all_below (x ∷ xs) n = (omega arith, All-mono (λ y h. omega arith) xs (all_below xs n))

abbrev x_server : Server
x_server = record {
  open_display = true;
  intern_atom = λ name. 7;
  selection_owner = λ atom. 9;
  query_shape = true;
  input_focus = 9;
  window_property = λ window atom. (true, some (42 ∷ 1 ∷ 0 ∷ 0 ∷ []));
  alloc_color = λ r g b. some (r + g + b);
  create_image = λ w h. true;
  new_id = λ rs. above (live rs);
}

x_server-GivesNewIds : GivesNewIds x_server
x_server-GivesNewIds rs = (
  (λ e. above-All (live rs) 0 (omega arith)),
  All-mono (λ x h e. omega arith) (live rs) (all_below (live rs) 0),
)

-- Every text but the empty one is an SVG of 3 by 2 pixels.
abbrev lunasvg : Lunasvg Bytes
lunasvg = record {
  add_font_face = λ p. true;
  load_from_data = λ svg. some svg;
  apply_style_sheet = λ css d. d;
  render_to_bitmap = λ d. some (3, 2);
}

abbrev empty_screen : Screen
empty_screen = record { requests = []; window_picture = 0; installed = []; known_xcolors = [] }

empty_screen-IsSound : IsSound empty_screen
empty_screen-IsSound = (tt, λ there. absurd (there refl))

abbrev picture : Item ℕ
picture = record (new_item 0 5) {
  drawmode = Mode.svg;
  svg = record { svg = codes "<svg/>"; css = []; font_file = []; render = none };
}

abbrev drawn : Item ℕ
drawn = record picture {
  svg = record (picture.svg) { render = some (record { pixmap = 1; width = 3; height = 2 }) };
}

abbrev drawn_screen : Screen
drawn_screen = record empty_screen {
  window_picture = 7;
  requests =
      Request.free_picture 3
      ∷ Request.composite 3 7 (pos 0) (pos 0) 3 2
      ∷ Request.create_picture 7 none
      ∷ Request.create_picture 3 (some 1)
      ∷ Request.put_image 1 3 2
      ∷ Request.create_pixmap 1
      ∷ [];
}

draw_picture : draw_as_svg x_server lunasvg picture empty_screen ≡ finished (drawn, drawn_screen)
unfolding draw_as_svg
draw_picture = refl

abbrev shown : Item ℕ
shown = record drawn { already_rendered = true }

-- The picture on a clean frame.
abbrev shown_screen : Screen
shown_screen = record drawn_screen {
  requests =
      Request.flush
      ∷ Request.free_picture 3
      ∷ Request.composite 3 7 (pos 0) (pos 0) 3 2
      ∷ Request.create_picture 7 none
      ∷ Request.create_picture 3 (some 1)
      ∷ Request.put_image 1 3 2
      ∷ Request.create_pixmap 1
      ∷ Request.fill_rectangle (pos 640) (pos 480)
      ∷ Request.set_foreground 0
      ∷ Request.set_background 18446744073692971005
      ∷ [];
  known_xcolors =
      (
        codes "solid_white",
        record { red = 65535; green = 65535; blue = 65535; pixel = 18446744073692971005 },
      )
      ∷ (codes "transparent", record { red = 0; green = 0; blue = 0; pixel = 0 })
      ∷ [];
}

abbrev freed_screen : Screen
freed_screen = record shown_screen { requests = Request.free_pixmap 1 ∷ shown_screen.requests }

show_picture :
    redraw_window x_server lunasvg (pos 640) (pos 480) ((codes "a", picture) ∷ []) empty_screen
    ≡ finished ((codes "a", shown) ∷ [], shown_screen)
unfolding redraw_window find set bytes_eq bytes_compare
show_picture = refl

-- The picture comes, is shown, and goes.
come_and_go : Events x_server lunasvg {N = ℕ} (pos 640) (pos 480) [] empty_screen [] freed_screen
unfolding merge_drawn erase_drawn find set bytes_eq bytes_compare
come_and_go =
    Events.message ((codes "a", picture) ∷ []) (refl, tt)
      (Events.redraw show_picture (Events.gone (codes "a") (Events.nothing [] freed_screen)))

empty_screen-IsAccounted : IsAccounted {N = ℕ} [] empty_screen
empty_screen-IsAccounted = (tt, (tt, λ id. refl))

Events-IsAccounted_example : IsAccounted {N = ℕ} [] freed_screen
Events-IsAccounted_example =
    Events-IsAccounted x_server x_server-GivesNewIds lunasvg (pos 640) (pos 480) come_and_go
      empty_screen-IsAccounted

draw_as_svg-Accounts_example :
    Ends
      (λ (r : Item ℕ × Screen).
        Accounts
          (some (record { pixmap = 1; width = 3; height = 2 }))
          drawn_screen
          r.0.svg.render
          r.1)
      (draw_as_svg x_server lunasvg drawn drawn_screen)
draw_as_svg-Accounts_example =
    draw_as_svg-Accounts x_server x_server-GivesNewIds lunasvg drawn drawn_screen

draw_as_svg-destroy_example :
    (live (destroy drawn drawn_screen.requests)
      ≡ new_picture empty_screen drawn_screen ++ live empty_screen.requests)
    × AreProper (destroy drawn drawn_screen.requests)
draw_as_svg-destroy_example =
    draw_as_svg-destroy x_server x_server-GivesNewIds lunasvg picture drawn empty_screen
      drawn_screen refl empty_screen-IsSound draw_picture

draw_as_svg_iff_example : (draw_as_svg x_server lunasvg picture empty_screen ≡ undefined) ↔ (
    (picture.svg.render ≡ none)
    × (is_empty picture.svg.svg ≡ false)
    × CannotRender x_server lunasvg picture.svg.svg picture.svg.css)
draw_as_svg_iff_example = draw_as_svg_iff x_server lunasvg picture empty_screen

-- A text that lunasvg does not read.
abbrev no_svg_reader : Lunasvg Bytes
no_svg_reader = record lunasvg { load_from_data = λ svg. none }

broken_picture : draw_as_svg x_server no_svg_reader picture empty_screen ≡ undefined
unfolding draw_as_svg
broken_picture = refl

-- The process 42 + 256 has the focus.
focused_path :
    get_focused_window_binary_path x_server (λ path. some (path ++ (0 ∷ codes "-x")))
    ≡ finished (codes "/proc/298/cmdline")
unfolding get_focused_window_binary_path to_string
focused_path = refl
