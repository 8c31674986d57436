-- ===== src/Svg/Build/Built.antt =====
-- What BuildSvgTask (cpp/svgbuilder.cpp) keeps of a drawable and what it replaces.
use edmcoverlay_for_linux.Base.{
  ◌≡◌, refl, ap, ◌∙◌, ◌++◌, false, subst, ◌⊎◌, inl, inr, Result, ok, thrown, Result-cases,
  Bool-cases, arith,
}
use edmcoverlay_for_linux.Base.Int.{ℤ}
use edmcoverlay_for_linux.Base.Text.{Bytes, codes, int_to_string}
use edmcoverlay_for_linux.Json.{Json}
use edmcoverlay_for_linux.Draw.{Item, Mode, no_text, no_shape, is_shape_vector}
use edmcoverlay_for_linux.Svg.TextTags.{Renderer, make_svg_text_multiline}
use edmcoverlay_for_linux.Svg.Shape.{make_svg_shape}
use edmcoverlay_for_linux.Svg.Build.{
  Frame, moved, no_bounds, bounds_loop, converted, convert, convert_as, build_svg_task,
  plain_header, vector_header, vector_frame,
}

pub ok-injective {ℓ} : {A : Type ℓ} {a b : A} → ok a ≡ ok b → a ≡ b
ok-injective h = cc

abbrev plain_opening : Bytes
plain_opening = codes "<svg xmlns=\"http://www.w3.org/2000/svg\" overflow='visible' >"

abbrev vector_opening : (J : Json) → Frame J → Bytes
vector_opening J f =
    codes "<svg xmlns=\"http://www.w3.org/2000/svg\" width=\""
    ++ int_to_string f.width
    ++ codes "\" height=\""
    ++ int_to_string f.height
    ++ codes "\" overflow='visible' >"

plain_header_opens :
    (J : Json) (task : Item J.Node) → plain_header J task ≡ plain_opening ++ moved J task.x task.y
unfolding plain_header
plain_header_opens J task = refl

vector_header_opens :
    (J : Json) (f : Frame J)
    → vector_header J f ≡ vector_opening J f ++ moved J f.corner_x f.corner_y
unfolding vector_header
vector_header_opens J f = refl

-- What the switch tells apart.
abbrev pub IsDirect : Mode → Type 0
IsDirect m = (m ≡ Mode.idk) ⊎ (m ≡ Mode.svg)

module _ (J : Json) where
  open J use {Node}

  -- The members of `r` that do not depend on what is drawn are those of `task`.
  pub record Keeps (task r : Item Node) : Type 0 where
    pub ttl : r.ttl ≡ task.ttl
    pub id : r.id ≡ task.id
    pub command : r.command ≡ task.command
    pub color : r.color ≡ task.color
    pub css : r.svg.css ≡ task.svg.css
    pub font_file : r.svg.font_file ≡ task.svg.font_file
    pub already_rendered : r.already_rendered ≡ task.already_rendered

  Keeps-all : (task : Item Node) → Keeps task task
  Keeps-all task = record {
    ttl = refl;
    id = refl;
    command = refl;
    color = refl;
    css = refl;
    font_file = refl;
    already_rendered = refl;
  }

  module _ (R : Renderer) where
    -- What is drawn behind the header.
    abbrev pub drawing_by : Mode → Item Node → Bytes → Result Bytes
    drawing_by Mode.text task out = ok (make_svg_text_multiline R task out)
    drawing_by Mode.shape task out = make_svg_shape J R task out
    drawing_by Mode.idk task out = ok out
    drawing_by Mode.svg task out = ok out

    abbrev pub drawing : Item Node → Bytes → Result Bytes
    drawing task = drawing_by task.drawmode task

    -- A text or a shape becomes an SVG with nothing else left in it: a group that is moved by as much as
    -- the drawable is placed off the corner of the window, with the drawing in it. Others stay as
    -- they are, and all but vectors stay where they are.
    pub record IsBuilt (task r : Item Node) : Type 0 where
      pub keeps : Keeps task r
      pub direct : IsDirect task.drawmode → r ≡ task
      pub mode : IsDirect r.drawmode
      pub cleared :
          (task.drawmode ≡ Mode.text) ⊎ (task.drawmode ≡ Mode.shape)
          → (r.drawmode ≡ Mode.svg) × (r.text ≡ no_text) × (r.shape ≡ no_shape J.null)
      pub picture :
          (task.drawmode ≡ Mode.text) ⊎ (task.drawmode ≡ Mode.shape)
          → (opening : Bytes) × (stream : Bytes) × (drawing task (opening ++ moved J r.x r.y)
              ≡ ok stream)
            × (r.svg.svg ≡ stream ++ codes "</g></svg>")
      pub place : is_shape_vector task ≡ false → (r.x ≡ task.x) × (r.y ≡ task.y)

    converted-Keeps :
        (task : Item Node) (out : Bytes) (x y : ℤ) → Keeps task (converted J R task out x y)
    unfolding converted
    converted-Keeps task out x y = record {
      ttl = refl;
      id = refl;
      command = refl;
      color = refl;
      css = refl;
      font_file = refl;
      already_rendered = refl;
    }

    as_is : (task : Item Node) → IsDirect task.drawmode → IsBuilt task task
    as_is task d = record {
      keeps = Keeps-all task;
      direct = λ _. refl;
      mode = d;
      cleared = λ c. absurd (ground (arith, d, c));
      picture = λ c. absurd (ground (arith, d, c));
      place = λ _. (refl, refl);
    }

    drawn :
        (task : Item Node) (out opening : Bytes) (x y : ℤ)
        → (task.drawmode ≡ Mode.text) ⊎ (task.drawmode ≡ Mode.shape)
        → drawing task (opening ++ moved J x y) ≡ ok out
        → (is_shape_vector task ≡ false → (x ≡ task.x) × (y ≡ task.y))
        → IsBuilt task (converted J R task out x y)
    unfolding converted
    drawn task out opening x y c e there = record {
      keeps = converted-Keeps task out x y;
      direct = λ d. absurd (ground (arith, d, c));
      mode = inr refl;
      cleared = λ _. (refl, refl, refl);
      picture = λ _. (opening, out, e, refl);
      place = there;
    }

    convert_as-IsBuilt :
        (m : Mode) (task r : Item Node) (opening : Bytes) (x y : ℤ)
        → task.drawmode ≡ m
        → convert_as J R m task (opening ++ moved J x y) x y ≡ ok r
        → (is_shape_vector task ≡ false → (x ≡ task.x) × (y ≡ task.y))
        → IsBuilt task r
    unfolding convert_as
    convert_as-IsBuilt Mode.idk task r opening x y e h there =
        subst (IsBuilt task) (ok-injective h) (as_is task (inl e))
    convert_as-IsBuilt Mode.svg task r opening x y e h there =
        subst (IsBuilt task) (ok-injective h) (as_is task (inr e))
    convert_as-IsBuilt Mode.text task r opening x y e h there =
        let out = make_svg_text_multiline R task (opening ++ moved J x y) in
        subst (IsBuilt task) (ok-injective h) (
          drawn task out opening x y (inl e)
            (ap (λ m. drawing_by m task (opening ++ moved J x y)) e) there)
    convert_as-IsBuilt Mode.shape task r opening x y e h there =
        elim (Result-cases (make_svg_shape J R task (opening ++ moved J x y))) [
          | inl (bad, t) ↦
              let none_built : thrown bad ≡ ok r = rw (t, convert_as) at h in absurd (cc)
          | inr (out, t) ↦
              let built : ok (converted J R task out x y) ≡ ok r = rw (t, convert_as) at h in
              subst (IsBuilt task) (ok-injective built) (
                drawn task out opening x y (inr e)
                  (ap (λ m. drawing_by m task (opening ++ moved J x y)) e ∙ t) there)
        ]

    convert-IsBuilt :
        (task r : Item Node) (header opening : Bytes) (x y : ℤ)
        → convert J R task header x y ≡ ok r
        → header ≡ opening ++ moved J x y
        → (is_shape_vector task ≡ false → (x ≡ task.x) × (y ≡ task.y))
        → IsBuilt task r
    convert-IsBuilt task r header opening x y e h there =
        convert_as-IsBuilt task.drawmode task r opening x y refl
          (subst (λ t. convert J R task t x y ≡ ok r) h e) there

    pub build_svg_task-IsBuilt :
        (window_width : ℤ) (task r : Item Node)
        → build_svg_task J R window_width task ≡ ok r
        → IsBuilt task r
    unfolding build_svg_task
    build_svg_task-IsBuilt window_width task r h = elim (Bool-cases (is_shape_vector task)) [
      | inr plain ↦
          convert-IsBuilt task r (plain_header J task) plain_opening task.x task.y (ground arith)
            (plain_header_opens J task) (λ _. (refl, refl))
      | inl vector ↦ elim (Result-cases (bounds_loop J (J.items task.shape.vect) no_bounds)) [
        | inl (e, t) ↦ absurd (ground arith)
        | inr (b, t) ↦
            let f = vector_frame J window_width task b in
            convert-IsBuilt task r (vector_header J f) (vector_opening J f) f.corner_x f.corner_y
              (ground arith) (vector_header_opens J f) (λ no. absurd (cc))
      ]
    ]
