-- ===== src/Draw/Equality.antt =====
-- The equality of stored data (cpp/drawables.h): what it compares.
use edmcoverlay_for_linux.Base.{ℕ, ◌≡◌, ◌↔◌, Bool, true, Option, none, some, arith}
use edmcoverlay_for_linux.Base.Int.{ℤ, eqb_ℤ, eqb_ℤ→eq}
use edmcoverlay_for_linux.Base.Text.{bytes_eq_iff}
use edmcoverlay_for_linux.Draw.{
  Mode, Item, DrawText, DrawShape, DrawSvg, mode_eq, font_size_eq, text_eq, shape_eq, svg_eq,
  is_equal_stored_data,
}

pub mode_eq_iff : (a b : Mode) → (mode_eq a b ≡ true) ↔ (a ≡ b)
unfolding mode_eq
mode_eq_iff Mode.idk b = ground arith
mode_eq_iff Mode.text b = ground arith
mode_eq_iff Mode.shape b = ground arith
mode_eq_iff Mode.svg b = ground arith

font_size_eq_iff : (a b : Option ℕ) → (font_size_eq a b ≡ true) ↔ (a ≡ b)
unfolding font_size_eq
font_size_eq_iff none b = ground arith
font_size_eq_iff (some m) b = ground arith

eqb_ℤ_iff : (a b : ℤ) → (eqb_ℤ a b ≡ true) ↔ (a ≡ b)
eqb_ℤ_iff a b = (eqb_ℤ→eq a b, λ h. ground arith)

text_eq_iff : (a b : DrawText) → (text_eq a b ≡ true) ↔ (a ≡ b)
unfolding text_eq
text_eq_iff a b = ground (
  arith,
  bytes_eq_iff a.text b.text,
  bytes_eq_iff a.size b.size,
  font_size_eq_iff a.font_size b.font_size,
)

-- Equal up to the cached rendering.
pub record SameSvg (a b : DrawSvg) : Type 0 where
  pub same_svg : a.svg ≡ b.svg
  pub same_css : a.css ≡ b.css
  pub same_font_file : a.font_file ≡ b.font_file

svg_eq_iff : (a b : DrawSvg) → (svg_eq a b ≡ true) ↔ SameSvg a b
unfolding svg_eq
svg_eq_iff a b = ground (
  arith,
  bytes_eq_iff a.svg b.svg,
  bytes_eq_iff a.css b.css,
  bytes_eq_iff a.font_file b.font_file,
)

module _ {N : Type 0} (node_eq : N → N → Bool) where
  -- Equal up to the size of the labels, and by the JSON library's equality of the points.
  pub record SameShape (a b : DrawShape N) : Type 0 where
    pub same_shape : a.shape ≡ b.shape
    pub same_fill : a.fill ≡ b.fill
    pub same_w : a.w ≡ b.w
    pub same_h : a.h ≡ b.h
    pub same_vect : node_eq a.vect b.vect ≡ true

  shape_eq_iff : (a b : DrawShape N) → (shape_eq node_eq a b ≡ true) ↔ SameShape a b
  unfolding shape_eq
  shape_eq_iff a b = ground (
    arith,
    bytes_eq_iff a.shape b.shape,
    bytes_eq_iff a.fill b.fill,
    eqb_ℤ_iff a.w b.w,
    eqb_ℤ_iff a.h b.h,
  )

  -- Two items have equal data but for ids, lifetimes, commands, render marks, and the size of the labels of
  -- a vector.
  record SameData (a b : Item N) : Type 0 where
    pub same_mode : a.drawmode ≡ b.drawmode
    pub same_color : a.color ≡ b.color
    pub same_text : a.text ≡ b.text
    pub same_shape : SameShape a.shape b.shape
    pub same_svg : SameSvg a.svg b.svg
    pub same_x : a.x ≡ b.x
    pub same_y : a.y ≡ b.y

  -- isEqualStoredData holds exactly of two items with these data equal.
  is_equal_stored_data_iff :
      (a b : Item N) → (is_equal_stored_data node_eq a b ≡ true) ↔ SameData a b
  unfolding is_equal_stored_data
  is_equal_stored_data_iff a b = ground (
    arith,
    mode_eq_iff a.drawmode b.drawmode,
    bytes_eq_iff a.color b.color,
    text_eq_iff a.text b.text,
    shape_eq_iff a.shape b.shape,
    svg_eq_iff a.svg b.svg,
    eqb_ℤ_iff a.x b.x,
    eqb_ℤ_iff a.y b.y,
  )
