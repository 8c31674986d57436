-- ===== src/Output/Faults.antt =====
-- Where drawAsSvg of cpp/xoverlayoutput.cpp leaves what C++ defines.
use edmcoverlay_for_linux.Base.{
  ℕ, ◌≡◌, ◌≢◌, refl, ◌↔◌, ◌⊎◌, inl, inr, false, none, some, List, Bool-cases, Option-cases,
  if◌then◌else◌, is_empty, Outcome, finished, undefined, map_outcome,
}
use edmcoverlay_for_linux.Base.Text.{Bytes}
use edmcoverlay_for_linux.Draw.{Item}
use edmcoverlay_for_linux.Output.{Request, Server, Lunasvg, Screen}
use edmcoverlay_for_linux.Output.Fonts.{install_normal_font_file_to_luna}
use edmcoverlay_for_linux.Output.Drawing.{
  call_render, keep_and_draw, bitmap_to_pixmap, render_x_pixmap_from_svg_text, draw_as_svg,
}

module _ (X : Server) {D : Type 0} (L : Lunasvg D) where
  -- The text is no SVG, or there is a bitmap and no image for it.
  abbrev pub CannotRender : Bytes → Bytes → Type 0
  CannotRender svg css =
      (L.load_from_data svg ≡ none)
      ⊎ ((document : D) × (width : ℕ) × (height : ℕ) × (L.load_from_data svg ≡ some document)
          × (L.render_to_bitmap
                (if is_empty css then document else L.apply_style_sheet css document)
              ≡ some (width, height))
          × (X.create_image width height ≡ false))

  finished-undefined {ℓ} : {A : Type ℓ} (a : A) → finished a ≢ undefined
  finished-undefined a e = absurd (cc)

  render-undefined :
      (svg css : Bytes) (rs : List Request)
      → render_x_pixmap_from_svg_text X L svg css rs ≡ undefined
      → (is_empty svg ≡ false) × CannotRender svg css
  unfolding render_x_pixmap_from_svg_text bitmap_to_pixmap
  render-undefined svg css rs h = elim (Bool-cases (is_empty svg)) [
    | inl hollow ↦ absurd (cc)
    | inr text ↦ elim (Option-cases (L.load_from_data svg)) [
      | inl bad ↦ (text, inl bad)
      | inr (document, loaded) ↦
          let styled = if is_empty css then document else L.apply_style_sheet css document in
          elim (Option-cases (L.render_to_bitmap styled)) [
            | inl null ↦ absurd (cc)
            | inr ((width, height), drawn) ↦ elim (Bool-cases (X.create_image width height)) [
              | inl image ↦ absurd (cc)
              | inr no_image ↦ (text, inr (document, width, height, loaded, drawn, no_image))
            ]
          ]
    ]
  ]

  undefined-render :
      (svg css : Bytes) (rs : List Request)
      → is_empty svg ≡ false
      → CannotRender svg css
      → render_x_pixmap_from_svg_text X L svg css rs ≡ undefined
  unfolding render_x_pixmap_from_svg_text bitmap_to_pixmap
  undefined-render svg css rs text (inl bad) = rw (text, bad) refl
  undefined-render svg css rs text (inr (document, width, height, loaded, drawn, no_image)) =
      rw (text, loaded, drawn, no_image) refl

  undefined_mapped {ℓ} :
      {A B : Type ℓ} (f : A → B) (o : Outcome A) → map_outcome f o ≡ undefined → o ≡ undefined
  unfolding map_outcome
  undefined_mapped f (finished a) h = absurd (cc)
  undefined_mapped f undefined h = refl
  undefined_mapped f (Outcome.terminated e) h = absurd (cc)

  module _ {N : Type 0} where
    draw-undefined :
        (item : Item N) (s : Screen)
        → draw_as_svg X L item s ≡ undefined
        → (item.svg.render ≡ none)
          × (is_empty item.svg.svg ≡ false)
          × CannotRender item.svg.svg item.svg.css
    unfolding draw_as_svg
    draw-undefined item s h =
        let fonts =
          (install_normal_font_file_to_luna L.add_font_face item.svg.font_file s.installed).1 in
        let s1 : Screen = record s { installed = fonts } in
        elim (Option-cases item.svg.render) [
          | inr (r, kept) ↦
              let drawn : Item N × Screen = (item, call_render X item r s1) in
              let again : finished drawn ≡ undefined = cc in absurd (finished-undefined drawn again)
          | inl none_kept ↦
              let (text, fault) = render-undefined item.svg.svg item.svg.css s.requests (
                undefined_mapped (keep_and_draw X item s1)
                  (render_x_pixmap_from_svg_text X L item.svg.svg item.svg.css s.requests) (cc)) in
              (none_kept, text, fault)
        ]

    undefined-draw :
        (item : Item N) (s : Screen)
        → item.svg.render ≡ none
        → is_empty item.svg.svg ≡ false
        → CannotRender item.svg.svg item.svg.css
        → draw_as_svg X L item s ≡ undefined
    unfolding draw_as_svg map_outcome
    undefined-draw item s none_kept text fault =
        let bad = undefined-render item.svg.svg item.svg.css s.requests text fault in
        rw (none_kept, bad) refl

    -- drawAsSvg reads through a null pointer exactly if the drawable has no pixmap yet, its text is
    -- not empty, and lunasvg gives no document for it, or XCreateImage no image for its bitmap.
    pub draw_as_svg_iff :
        (item : Item N) (s : Screen)
        → (draw_as_svg X L item s ≡ undefined) ↔ (
            (item.svg.render ≡ none)
            × (is_empty item.svg.svg ≡ false)
            × CannotRender item.svg.svg item.svg.css)
    draw_as_svg_iff item s = (draw-undefined item s, λ h. undefined-draw item s h.0 h.1 h.2)
