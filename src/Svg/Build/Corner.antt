-- ===== src/Svg/Build/Corner.antt =====
-- The bounding corner that BuildSvgTask (cpp/svgbuilder.cpp) finds for a vector.
use edmcoverlay_for_linux.Base.{
  ◌≡◌, refl, ap, sym, ◌∙◌, ◌⊎◌, inl, inr, true, List, [], ◌∷◌, Result, ok, thrown, Result-cases,
  Bool-cases, All, All-mono, Any, ◌==◌, if◌then◌else◌, arith,
}
use edmcoverlay_for_linux.Base.Int.{ℤ, pos, ◌-ℤ◌, ◌≤ℤ◌, min_ℤ, ltb_ℤ}
use edmcoverlay_for_linux.Base.Text.{Bytes, codes}
use edmcoverlay_for_linux.Json.{Json}
use edmcoverlay_for_linux.Draw.Vector.{get_coord, int_max}
use edmcoverlay_for_linux.Draw.{Item, Mode, is_shape_vector}
use edmcoverlay_for_linux.Draw.Equality.{mode_eq_iff}
use edmcoverlay_for_linux.Svg.TextTags.{Renderer}
use edmcoverlay_for_linux.Svg.Shape.{wrap_int, make_svg_shape}
use edmcoverlay_for_linux.Svg.Build.{
  Bounds, no_bounds, extend, bounds_loop, converted, convert, convert_as, build_svg_task,
  vector_header, vector_frame,
}
use edmcoverlay_for_linux.Svg.Build.Built.{ok-injective}

-- `b'` is around all that `b` is around.
abbrev pub Around : Bounds → Bounds → Type 0
Around b' b =
    (b'.min_x ≤ℤ b.min_x) × (b'.min_y ≤ℤ b.min_y) × (b.max_x ≤ℤ b'.max_x) × (b.max_y ≤ℤ b'.max_y)

abbrev pub Inside : Bounds → ℤ → ℤ → Type 0
Inside b x y = (b.min_x ≤ℤ x) × (x ≤ℤ b.max_x) × (b.min_y ≤ℤ y) × (y ≤ℤ b.max_y)

extend-Around : (x y : ℤ) (b : Bounds) → Around (extend x y b) b × Inside (extend x y b) x y
unfolding extend
extend-Around x y b = ground arith

Around-trans : (a b c : Bounds) → Around a b → Around b c → Around a c
Around-trans a b c h k = ground arith

Inside-Around : (a b : Bounds) (x y : ℤ) → Around a b → Inside b x y → Inside a x y
Inside-Around a b x y h k = ground arith

min-touches :
    {B : Type 0} (m old new : ℤ) (read : Result ℤ)
    → read ≡ ok new
    → (m ≡ min_ℤ old new) ⊎ B
    → (m ≡ old) ⊎ ((read ≡ ok m) ⊎ B)
min-touches m old new read h (inr b) = inr (inr b)
min-touches m old new read h (inl e) = elim (Bool-cases (ltb_ℤ new old)) [
  | inl less ↦ inr (inl (h ∙ ap ok (sym (e ∙ rw less refl))))
  | inr more ↦ inl (e ∙ rw more refl)
]

module _ (J : Json) where
  open J use {Node}

  -- The point can be read, and lies inside.
  abbrev pub IsWithin : Bounds → Bytes × Node → Type 0
  IsWithin b e =
      (x : ℤ) × (y : ℤ) × (get_coord J e.1 (codes "x") ≡ ok x)
      × (get_coord J e.1 (codes "y") ≡ ok y)
      × Inside b x y

  -- The point can be read, and lies right of `left` and below `top`, or on them.
  abbrev pub IsRightBelow : ℤ → ℤ → Bytes × Node → Type 0
  IsRightBelow left top e =
      (x : ℤ) × (y : ℤ) × (get_coord J e.1 (codes "x") ≡ ok x)
      × (get_coord J e.1 (codes "y") ≡ ok y)
      × (left ≤ℤ x)
      × (top ≤ℤ y)

  abbrev pub HasX : ℤ → Bytes × Node → Type 0
  HasX x e = get_coord J e.1 (codes "x") ≡ ok x

  abbrev pub HasY : ℤ → Bytes × Node → Type 0
  HasY y e = get_coord J e.1 (codes "y") ≡ ok y

  bounds_loop-Around :
      (nodes : List (Bytes × Node)) (b b' : Bounds)
      → bounds_loop J nodes b ≡ ok b'
      → Around b' b × All (IsWithin b') nodes
  unfolding bounds_loop
  bounds_loop-Around [] b b' h = ground arith
  bounds_loop-Around ((k, val) ∷ rest) b b' h = elim (Result-cases (get_coord J val (codes "x"))) [
    | inl (e, t) ↦ absurd (ground arith)
    | inr (x, gx) ↦ elim (Result-cases (get_coord J val (codes "y"))) [
      | inl (e, t) ↦ absurd (ground arith)
      | inr (y, gy) ↦
          let (out, all) = bounds_loop-Around rest (extend x y b) b' (ground arith) in
          let step = extend-Around x y b in
          (
            Around-trans b' (extend x y b) b out step.0,
            ((x, y, gx, gy, Inside-Around b' (extend x y b) x y out step.1), all),
          )
    ]
  ]

  -- Each side of the corner goes through a point, or is where it was before the loop.
  bounds_loop-touches :
      (nodes : List (Bytes × Node)) (b b' : Bounds)
      → bounds_loop J nodes b ≡ ok b'
      → ((b'.min_x ≡ b.min_x) ⊎ Any (HasX b'.min_x) nodes)
        × ((b'.min_y ≡ b.min_y) ⊎ Any (HasY b'.min_y) nodes)
  unfolding bounds_loop
  bounds_loop-touches [] b b' h = ground arith
  bounds_loop-touches ((k, val) ∷ rest) b b' h = elim (Result-cases (get_coord J val (codes "x"))) [
    | inl (e, t) ↦ absurd (ground arith)
    | inr (x, gx) ↦ elim (Result-cases (get_coord J val (codes "y"))) [
      | inl (e, t) ↦ absurd (ground arith)
      | inr (y, gy) ↦
          let (left, top) = bounds_loop-touches rest (extend x y b) b' (ground arith) in
          (
            min-touches b'.min_x b.min_x x (get_coord J val (codes "x")) gx left,
            min-touches b'.min_y b.min_y y (get_coord J val (codes "y")) gy top,
          )
    ]
  ]

  module _ (R : Renderer) where
    convert_as-corner :
        (m : Mode) (task r : Item Node) (header : Bytes) (x y : ℤ)
        → m ≡ Mode.shape
        → convert_as J R m task header x y ≡ ok r
        → (r.x ≡ x) × (r.y ≡ y)
    unfolding convert_as converted
    convert_as-corner Mode.shape task r header x y h e =
        elim (Result-cases (make_svg_shape J R task header)) [
          | inl (bad, t) ↦
              let none_built : thrown bad ≡ ok r = rw (t, convert_as) at e in absurd (cc)
          | inr (out, t) ↦
              let built : ok (converted J R task out x y) ≡ ok r = rw (t, convert_as) at e in
              let same = ok-injective built in
              (sym (ap (λ (i : Item Node). i.x) same), sym (ap (λ (i : Item Node). i.y) same))
        ]
    convert_as-corner Mode.text task r header x y h e = absurd (cc)
    convert_as-corner Mode.idk task r header x y h e = absurd (cc)
    convert_as-corner Mode.svg task r header x y h e = absurd (cc)

    -- Where a coordinate of the corner goes: a single point has its marker, of four pixels to each side,
    -- and a pixel more.
    abbrev pub placed : Item Node → ℤ → ℤ
    placed task z = if J.size task.shape.vect == 1 then wrap_int (z -ℤ pos 5) else z

    vector_frame-placed :
        (window_width : ℤ) (task : Item Node) (b : Bounds)
        → ((vector_frame J window_width task b).corner_x ≡ placed task b.min_x)
          × ((vector_frame J window_width task b).corner_y ≡ placed task b.min_y)
    unfolding vector_frame
    vector_frame-placed window_width task b = elim (Bool-cases (J.size task.shape.vect == 1)) [
      | inl one ↦ rw (one, vector_frame) (refl, refl)
      | inr several ↦ rw (several, vector_frame) (refl, refl)
    ]

    -- BuildSvgTask returned `r` with the corner and size of the box around the points.
    boxed :
        (window_width : ℤ) (task r : Item Node)
        → is_shape_vector task ≡ true
        → build_svg_task J R window_width task ≡ ok r
        → (b : Bounds) × (bounds_loop J (J.items task.shape.vect) no_bounds ≡ ok b)
          × (r.x ≡ placed task b.min_x)
          × (r.y ≡ placed task b.min_y)
    unfolding build_svg_task is_shape_vector
    boxed window_width task r vector h =
        elim (Result-cases (bounds_loop J (J.items task.shape.vect) no_bounds)) [
          | inl (e, t) ↦ absurd (ground arith)
          | inr (b, t) ↦
              let f = vector_frame J window_width task b in
              let e : convert J R task (vector_header J f) f.corner_x f.corner_y ≡ ok r =
                ground arith in
              let corner =
                convert_as-corner task.drawmode task r (vector_header J f) f.corner_x f.corner_y
                  ((mode_eq_iff task.drawmode Mode.shape).0 (ground arith)) e in
              let at_frame = vector_frame-placed window_width task b in
              (b, t, corner.0 ∙ at_frame.0, corner.1 ∙ at_frame.1)
        ]

    -- The place that BuildSvgTask gives a vector, if it returns: there is a corner, no point is left of it
    -- or above it, and, unless a coordinate is the greatest int, it is the leftmost and the topmost of
    -- them. The vector is placed there, or, if it has one point, five pixels to the left and above.
    pub build_svg_task-corner :
        (window_width : ℤ) (task r : Item Node)
        → is_shape_vector task ≡ true
        → build_svg_task J R window_width task ≡ ok r
        → (left : ℤ) × (top : ℤ) × All (IsRightBelow left top) (J.items task.shape.vect)
          × ((left ≡ int_max) ⊎ Any (HasX left) (J.items task.shape.vect))
          × ((top ≡ int_max) ⊎ Any (HasY top) (J.items task.shape.vect))
          × (r.x ≡ placed task left)
          × (r.y ≡ placed task top)
    build_svg_task-corner window_width task r vector h =
        let (b, t, ex, ey) = boxed window_width task r vector h in
        let (left, top) = bounds_loop-touches (J.items task.shape.vect) no_bounds b t in
        (
          b.min_x,
          b.min_y,
          All-mono (λ _ (x, y, gx, gy, inside). (x, y, gx, gy, inside.0, inside.2))
              (J.items task.shape.vect)
              (bounds_loop-Around (J.items task.shape.vect) no_bounds b t).1,
          left,
          top,
          ex,
          ey,
        )
