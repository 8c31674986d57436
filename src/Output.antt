-- ===== src/Output.antt =====
-- XPrivateAccess and XOverlayOutput of cpp/xoverlayoutput.cpp: what the overlay asks of the X server.
pub mod ManagedId
pub mod Fonts
pub mod Drawing
pub mod Live
pub mod Sound
pub mod Kept
pub mod Freed
pub mod Faults
pub mod Frame
pub mod Held
pub mod Accounted
pub mod Redrawn
pub mod Run
pub mod Window
pub mod Version
use edmcoverlay_for_linux.Base.{ℕ, Bool, Option, List, ◌==◌, not}
use edmcoverlay_for_linux.Base.Int.{ℤ}
use edmcoverlay_for_linux.Base.Text.{Bytes}
use edmcoverlay_for_linux.Base.Map.{Map}
use edmcoverlay_for_linux.Colors.{XColor}

-- Requests that draw, or that make and free resources, with the ids of these. A picture is made of a
-- pixmap, or of the window, which is `none`.
pub data Request : Type 0 where
  create_pixmap free_pixmap free_picture : ℕ → Request
  create_picture : (id : ℕ) (drawable : Option ℕ) → Request
  put_image : (pixmap width height : ℕ) → Request
  composite : (source destination : ℕ) (x y : ℤ) (width height : ℕ) → Request
  set_background set_foreground : ℕ → Request
  fill_rectangle : (width height : ℤ) → Request
  flush : Request

-- What Xlib answers: XInternAtom, XGetSelectionOwner, XShapeQueryExtension, XGetInputFocus,
-- XGetWindowProperty (whether it succeeds, and the bytes of the property), XAllocColor, whether
-- XCreateImage gives an image of the width and height, and the id of the next resource, which may
-- depend on the requests before, the latest first. None is 0.
pub record Server : Type 0 where
  pub open_display : Bool
  pub intern_atom : Bytes → ℕ
  pub selection_owner : ℕ → ℕ
  pub query_shape : Bool
  pub input_focus : ℕ
  pub window_property : ℕ → ℕ → Bool × Option Bytes
  pub alloc_color : ℕ → ℕ → ℕ → Option ℕ
  pub create_image : ℕ → ℕ → Bool
  pub new_id : List Request → ℕ

-- lunasvg: a text that is no SVG gives no document; a document may give no bitmap.
pub record Lunasvg (D : Type 0) : Type 0 where
  pub add_font_face : Bytes → Bool
  pub load_from_data : Bytes → Option D
  pub apply_style_sheet : Bytes → D → D
  pub render_to_bitmap : D → Option (ℕ × ℕ)

-- The requests so far, the latest first; g_windowOpaqueDestination; the fonts that
-- InstallNormalFontFileToLuna has installed; the colors of MyXOverlayColorMap.
pub record Screen : Type 0 where
  pub requests : List Request
  pub window_picture : ℕ
  pub installed : List Bytes
  pub known_xcolors : Map XColor
