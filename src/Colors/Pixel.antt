-- ===== src/Colors/Pixel.antt =====
-- The 16-bit components and the pixel of a color (cpp/x11_colors_mgr.h), and the cache of colors.
use edmcoverlay_for_linux.Base.{
  ℕ, ◌/◌, ◌%◌, ◌^◌, ◌<◌, ◌≡◌, refl, sym, ap, ◌∙◌, subst, inl, inr, Option, some, if◌then◌else◌,
  arith, Bool-cases, Option-cases, ok, Result-cases,
}
use edmcoverlay_for_linux.Base.Text.{Bytes, bytes_eq, bytes_eq_iff}
use edmcoverlay_for_linux.Base.Map.{Map, find-set}
use edmcoverlay_for_linux.Base.Map
use edmcoverlay_for_linux.Strutils.{to_lower}
use edmcoverlay_for_linux.Colors.{XColor, up_scale, with_alpha, color_from_name, get}

-- Of the 16 bits that a component of 8 bits is spread over, the upper byte and the lower byte are
-- both the component.
pub up_scale_lem : (c : ℕ) → c < 256 → (up_scale c / 256 ≡ c) × (up_scale c % 256 ≡ c)
unfolding up_scale
up_scale_lem c h = (omega arith, omega arith)

-- The 32 bits of the pixel that X11 reads have the alpha on top of the pixel that it allocated.
with_alpha_lem :
    (pixel alpha : ℕ)
    → alpha < 256
    → (with_alpha pixel alpha % 2 ^ 32 / 2 ^ 24 ≡ alpha)
      × (with_alpha pixel alpha % 2 ^ 24 ≡ pixel % 2 ^ 24)
unfolding with_alpha
with_alpha_lem pixel alpha h = ground arith

module _ (alloc : ℕ → ℕ → ℕ → Option ℕ) where
  -- Every color in the cache is what its name gives.
  abbrev pub IsCache : Map XColor → Type 0
  IsCache known =
      (name : Bytes) (color : XColor)
      → Map.find name known ≡ some color
      → color_from_name alloc name ≡ ok color

  set-IsCache :
      (name : Bytes) (color : XColor) (known : Map XColor)
      → color_from_name alloc name ≡ ok color
      → IsCache known
      → IsCache (Map.set name color known)
  set-IsCache name color known t h k c there =
      let there' : (if bytes_eq name k then some color else Map.find k known) ≡ some c =
        sym (find-set name k color known) ∙ there in
      elim (Bool-cases (bytes_eq name k)) [
        | inl hit ↦
            let e : color ≡ c = ground arith in
            subst (λ k. color_from_name alloc k ≡ ok c) ((bytes_eq_iff name k).0 hit) (t ∙ ap ok e)
        | inr miss ↦ h k c (ground arith)
      ]

  -- With a cache of right colors, get returns what the name in lower case gives, an exception
  -- included, and leaves a cache of right colors.
  pub get-IsCache :
      (name : Bytes) (known : Map XColor)
      → IsCache known
      → ((get alloc name known).0 ≡ color_from_name alloc (to_lower name))
        × IsCache (get alloc name known).1
  unfolding get
  get-IsCache name known h = elim (Option-cases (Map.find (to_lower name) known)) [
    | inr (color, there) ↦ rw (there, get) (sym (h (to_lower name) color there), h)
    | inl gone ↦ elim (Result-cases (color_from_name alloc (to_lower name))) [
      | inl (e, t) ↦ rw (gone, t, get) (refl, h)
      | inr (color, t) ↦ rw (gone, t, get) (refl, set-IsCache (to_lower name) color known t h)
    ]
  ]
