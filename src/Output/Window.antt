-- ===== src/Output/Window.antt =====
-- What XPrivateAccess and XOverlayOutput of cpp/xoverlayoutput.cpp do beside drawing SVG: the checks of
-- the display, the cleaning of the frame, the version string, and the focused program, whose path
-- comes from cpp/layer_out.h.
use edmcoverlay_for_linux.Base.{
  uncaught, ℕ, ◌+◌, ◌*◌, ◌^◌, ◌==◌, Bool, not, ◌&&◌, Option, none, some, [], ◌∷◌, ◌++◌,
  if◌then◌else◌, Result, ◌>>=◌, ok, thrown, Exception, Outcome, finished, undefined, map_outcome,
}
use edmcoverlay_for_linux.Base.Int.{ℤ, pos}
use edmcoverlay_for_linux.Base.Text.{Bytes, codes, to_string}
use edmcoverlay_for_linux.Json.{Json}
use edmcoverlay_for_linux.Colors.{get}
use edmcoverlay_for_linux.Draw.{Item, Mode, new_item}
use edmcoverlay_for_linux.Svg.TextTags.{Renderer, c_str}
use edmcoverlay_for_linux.Svg.Build.{build_svg_task}
use edmcoverlay_for_linux.Output.{Request, Server, Lunasvg, Screen}
use edmcoverlay_for_linux.Output.Drawing.{draw_as_svg, destroy}

-- streamSizeToEnd and read_stream_into_container of cpp/common/strutils.h: all of the file, or
-- std::ios_base::failure if the stream is not open.
unfoldable pub read_stream_into_container : Option Bytes → Result Bytes
read_stream_into_container none = thrown Exception.runtime_error
read_stream_into_container (some content) = ok content

-- OutputLayer::getBinaryPathForPid; `file` is the file system.
unfoldable pub get_binary_path_for_pid : (Bytes → Option Bytes) → ℕ → Bytes
unfolding read_stream_into_container c_str
get_binary_path_for_pid file pid =
    elim (read_stream_into_container (file (codes "/proc/" ++ to_string pid ++ codes "/cmdline"))) [
      | thrown e ↦ []
      | ok fulls ↦ c_str fulls
    ]

-- std::memcpy of four bytes, the least first, from what the server returned.
unfoldable pub first_u32 : Bytes → Outcome ℕ
first_u32 (a ∷ b ∷ c ∷ d ∷ rest) = finished (a + 2 ^ 8 * b + 2 ^ 16 * c + 2 ^ 24 * d)
first_u32 _ = undefined

module _ (X : Server) where
  -- isTransparencyAvail, with a display.
  unfoldable pub is_transparency_avail : Bool
  is_transparency_avail =
      X.open_display
      && not (X.intern_atom (codes "_NET_WM_CM_S0") == 0)
      && not (X.selection_owner (X.intern_atom (codes "_NET_WM_CM_S0")) == 0)

  -- openDisplay: whether the constructor gets past it.
  unfoldable pub open_display : Result {0} Unit
  unfolding is_transparency_avail
  open_display =
      if not X.open_display
      then thrown Exception.runtime_error
      else if not is_transparency_avail
      then thrown Exception.runtime_error
      else if not X.query_shape
      then thrown Exception.runtime_error
      else ok tt

  -- getWindowPropertyAny; the status is only printed.
  unfoldable pub get_window_property_any : Bytes → ℕ → Option Bytes
  get_window_property_any name window =
      if window == 0 then none else (X.window_property window (X.intern_atom name)).1

  -- getWindowPropertyInt of std::uint32_t
  unfoldable pub get_window_property_int : Bytes → ℕ → Outcome ℕ
  unfolding get_window_property_any first_u32
  get_window_property_int name window = elim (get_window_property_any name window) [
    | none ↦ finished 0
    | some bytes ↦ first_u32 bytes
  ]

  -- getFocusedWindowPid
  unfoldable pub get_focused_window_pid : Outcome ℕ
  unfolding get_window_property_int
  get_focused_window_pid = get_window_property_int (codes "_NET_WM_PID") X.input_focus

  -- XOverlayOutput::getFocusedWindowBinaryPath
  unfoldable pub get_focused_window_binary_path : (Bytes → Option Bytes) → Outcome Bytes
  unfolding get_focused_window_pid get_binary_path_for_pid map_outcome
  get_focused_window_binary_path file =
      map_outcome (λ pid. if pid == 0 then [] else get_binary_path_for_pid file pid)
        get_focused_window_pid

  -- cleanGC, with a graphics context: the window is filled with what is transparent. The exception is
  -- that of a color that cannot be had.
  unfoldable pub clean_gc : ℤ → ℤ → Screen → Result Screen
  unfolding get
  clean_gc width height s =
      let (white, colors) = get X.alloc_color (codes "solid_white") s.known_xcolors in
      let (transparent, colors') = get X.alloc_color (codes "transparent") colors in
      do
        background ← white
        foreground ← transparent
        ok (record s {
          known_xcolors = colors';
          requests =
              Request.fill_rectangle width height
              ∷ Request.set_foreground foreground.pixel
              ∷ Request.set_background background.pixel
              ∷ s.requests;
        })

  -- flush
  unfoldable pub flush : Screen → Screen
  flush s = record s { requests = Request.flush ∷ s.requests }

  module _ {D : Type 0} (L : Lunasvg D) (J : Json) (R : Renderer) where
    open J use {Node}

    -- The drawable of showVersionString; `now` is the time.
    abbrev pub version_task : ℕ → Bytes → Bytes → Item Node
    version_task now version color = record (new_item J.null now) {
      drawmode = Mode.text;
      color = color;
      text = record { text = version; size = []; font_size = some 16 };
      x = pos 10;
      y = pos 10;
    }

    -- showVersionString: the drawable is destroyed once it is drawn.
    unfoldable pub show_version_string : ℤ → ℕ → Bytes → Bytes → Screen → Outcome Screen
    unfolding build_svg_task draw_as_svg destroy map_outcome
    show_version_string window_width now version color s =
        elim (build_svg_task J R window_width (version_task now version color)) [
          | thrown e ↦ uncaught e
          | ok task ↦
              map_outcome
                (λ (r : Item Node × Screen). record (r.1) { requests = destroy r.0 r.1.requests })
                (draw_as_svg X L task s)
        ]

    -- What main does before it accepts connections.
    unfoldable pub greet : ℤ → ℤ → ℕ → Screen → Outcome Screen
    unfolding clean_gc flush show_version_string map_outcome
    greet width height now s = elim (clean_gc width height s) [
      | thrown e ↦ uncaught e
      | ok s' ↦ map_outcome flush (
          show_version_string width now
            (codes "Binary is awaiting connection(s) from EDMC's plugins...") (codes "green") s')
    ]
