-- ===== src/Draw.antt =====
-- cpp/drawables.h: one drawable, its lifetime, and the equality that the anti-flicker code uses.
pub mod Equality
pub mod Parse
pub mod Vector
use edmcoverlay_for_linux.Base.{
  ℕ, ◌+◌, ◌*◌, ◌≡◌, Bool, true, false, not, ◌&&◌, ◌||◌, Option, none, some, leb, ltb, ◌==◌,
  if◌then◌else◌, is_empty, [],
}
use edmcoverlay_for_linux.Base.Int.{ℤ, pos, negsuc, pos_part, is_negative, eqb_ℤ}
use edmcoverlay_for_linux.Base.Text.{Bytes, codes, bytes_eq}

-- `created_at` counts the nanoseconds of the steady clock, `ttl` seconds.
pub record Timestamp : Type 0 where
  pub created_at : ℕ
  pub ttl : ℤ

unfoldable pub is_valid : ℕ → Timestamp → Bool
is_valid now t = is_negative t.ttl || leb now (t.created_at + pos_part t.ttl * 1_000_000_000)

unfoldable pub is_expired : ℕ → Timestamp → Bool
unfolding is_valid
is_expired now t = not (is_valid now t)

pub data Mode : Type 0 where
  idk text shape svg : Mode

unfoldable pub mode_eq : Mode → Mode → Bool
mode_eq idk idk = true
mode_eq text text = true
mode_eq shape shape = true
mode_eq svg svg = true
mode_eq _ _ = false

pub record DrawText : Type 0 where
  pub text : Bytes
  pub size : Bytes
  pub font_size : Option ℕ

pub record DrawShape (N : Type 0) : Type 0 where
  pub shape : Bytes
  pub fill : Bytes
  pub w : ℤ
  pub h : ℤ
  pub vector_font_size : ℕ
  pub vect : N

-- What the cached `render` closure holds: the pixmap and its dimensions.
pub record Rendered : Type 0 where
  pub pixmap : ℕ
  pub width : ℕ
  pub height : ℕ

pub record DrawSvg : Type 0 where
  pub svg : Bytes
  pub css : Bytes
  pub font_file : Bytes
  pub render : Option Rendered

pub record Item (N : Type 0) : Type 0 where
  pub ttl : Timestamp
  pub id : Bytes
  pub command : Bytes
  pub drawmode : Mode
  pub x : ℤ
  pub y : ℤ
  pub color : Bytes
  pub text : DrawText
  pub shape : DrawShape N
  pub svg : DrawSvg
  pub already_rendered : Bool

-- The values that the members have before any is assigned.
abbrev pub no_text : DrawText
no_text = record { text = []; size = []; font_size = none }

abbrev pub no_svg : DrawSvg
no_svg = record { svg = []; css = []; font_file = []; render = none }

abbrev pub normal_font_size : ℕ
normal_font_size = 16

abbrev pub delta_font_difference : ℕ
delta_font_difference = 4

-- drawtext_t::getFinalFontSize
unfoldable pub text_font_size : DrawText → ℕ
text_font_size t = elim t.font_size [
  | some size ↦ size
  | none ↦
      if bytes_eq t.size (codes "large")
      then normal_font_size + delta_font_difference
      else normal_font_size
]

-- `==` of std::optional<FontPixelSize>
unfoldable pub font_size_eq : Option ℕ → Option ℕ → Bool
font_size_eq none none = true
font_size_eq (some m) (some n) = m == n
font_size_eq _ _ = false

unfoldable pub text_eq : DrawText → DrawText → Bool
text_eq a b =
    bytes_eq a.text b.text && bytes_eq a.size b.size && font_size_eq a.font_size b.font_size

unfoldable pub svg_eq : DrawSvg → DrawSvg → Bool
svg_eq a b = bytes_eq a.svg b.svg && bytes_eq a.css b.css && bytes_eq a.font_file b.font_file

module _ {N : Type 0} where
  abbrev pub no_shape : N → DrawShape N
  no_shape null = record {
    shape = [];
    fill = [];
    w = pos 0;
    h = pos 0;
    vector_font_size = 0;
    vect = null;
  }

  -- `drawitem_t drawitem;` at the time `now`
  abbrev pub new_item : N → ℕ → Item N
  new_item null now = record {
    ttl = record { created_at = now; ttl = negsuc 0 };
    id = [];
    command = [];
    drawmode = idk;
    x = pos 0;
    y = pos 0;
    color = [];
    text = no_text;
    shape = no_shape null;
    svg = no_svg;
    already_rendered = false;
  }

  -- drawshape_t::getFinalFontSize
  unfoldable pub shape_font_size : DrawShape N → ℕ
  shape_font_size s = if ltb 0 s.vector_font_size then s.vector_font_size else normal_font_size

  unfoldable pub is_command : Item N → Bool
  is_command i = not (is_empty i.command)

  unfoldable pub set_already_rendered : Item N → Item N
  set_already_rendered i = record i { already_rendered = true }

  unfoldable pub is_shape_vector : Item N → Bool
  is_shape_vector i = mode_eq i.drawmode shape && bytes_eq i.shape.shape (codes "vect")

  -- drawshape_t::operator==, which leaves the font size out
  unfoldable pub shape_eq : (N → N → Bool) → DrawShape N → DrawShape N → Bool
  shape_eq node_eq a b =
      bytes_eq a.shape b.shape
      && bytes_eq a.fill b.fill
      && eqb_ℤ a.w b.w
      && eqb_ℤ a.h b.h
      && node_eq a.vect b.vect

  -- isEqualStoredData
  unfoldable pub is_equal_stored_data : (N → N → Bool) → Item N → Item N → Bool
  is_equal_stored_data node_eq a b =
      mode_eq a.drawmode b.drawmode
      && bytes_eq a.color b.color
      && text_eq a.text b.text
      && shape_eq node_eq a.shape b.shape
      && svg_eq a.svg b.svg
      && eqb_ℤ a.x b.x
      && eqb_ℤ a.y b.y
      && bytes_eq a.color b.color
