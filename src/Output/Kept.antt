-- ===== src/Output/Kept.antt =====
-- The pixmaps that drawAsSvg of cpp/xoverlayoutput.cpp keeps with the drawables.
use edmcoverlay_for_linux.Base.{
  ℕ, ◌≢◌, ◌⊎◌, ◌≡◌, ◌==◌, refl, sym, subst, ap, ◌∙◌, ◌++◌, true, false, Option, none, some, List,
  [], ◌∷◌, if◌then◌else◌, is_empty, Ends, map_outcome-Ends, inl, inr, Any, Bool-cases, Option-cases,
  arith,
}
use edmcoverlay_for_linux.Base.Text.{Bytes}
use edmcoverlay_for_linux.Draw.{Item, Rendered}
use edmcoverlay_for_linux.Output.{Request, Server, Lunasvg, Screen}
use edmcoverlay_for_linux.Output.ManagedId.{reset, moved, is_initialized}
use edmcoverlay_for_linux.Output.Fonts.{install_normal_font_file_to_luna}
use edmcoverlay_for_linux.Output.Live.{live, IsLive, AreProper, GivesNewIds}
use edmcoverlay_for_linux.Output.Sound.{IsSound, new_picture, call_render-Drawn}
use edmcoverlay_for_linux.Output.Drawing.{
  PixmapWithDims, allocate_id, bitmap_to_pixmap, call_render, keep_and_draw,
  render_x_pixmap_from_svg_text, draw_as_svg,
}

-- The pixmap of the closure, if there is one, lives.
abbrev pub KeepsPixmap : Option Rendered → List Request → Type 0
KeepsPixmap none rs = Unit
KeepsPixmap (some r) rs = IsLive r.pixmap rs

-- The pixmap that a drawing has made and left with the drawable.
abbrev pub new_pixmap : Option Rendered → Option Rendered → List ℕ
new_pixmap (some r) after = []
new_pixmap none none = []
new_pixmap none (some r) = r.pixmap ∷ []

-- A pixmap that is there stays.
abbrev pub Stays : Option Rendered → Option Rendered → Type 0
Stays none after = Unit
Stays (some r) after = after ≡ some r

-- What a drawing does to the resources: it leaves a picture of the window, where that had none, and
-- the pixmap that is kept with the drawable, and nothing else; and the requests stay proper.
abbrev pub Accounts : Option Rendered → Screen → Option Rendered → Screen → Type 0
Accounts before s after s' =
    (live s'.requests ≡ new_picture s s' ++ (new_pixmap before after ++ live s.requests))
    × (IsSound s → KeepsPixmap before s.requests → IsSound s' × KeepsPixmap after s'.requests)
    × (s.window_picture ≢ 0 → s'.window_picture ≡ s.window_picture)
    × Stays before after

Any-behind : (P : ℕ → Type 0) (xs ys : List ℕ) → Any P ys → Any P (xs ++ ys)
Any-behind P [] ys h = h
Any-behind P (x ∷ xs) ys h = inr (Any-behind P xs ys h)

same_picture : (s : Screen) → new_picture s s ≡ []
same_picture s = ground arith

module _ (X : Server) (fresh : GivesNewIds X) where
  abbrev Made : List Request → PixmapWithDims × List Request → Type 0
  unfolding is_initialized
  Made rs (p, rs') =
      (AreProper rs → AreProper rs')
      × (((is_initialized p.pixmap ≡ true) × (live rs' ≡ p.pixmap.id ∷ live rs))
          ⊎ ((is_initialized p.pixmap ≡ false) × (live rs' ≡ live rs)))

  bitmap_to_pixmap-Made :
      (width height : ℕ) (rs : List Request) → Ends (Made rs) (bitmap_to_pixmap X width height rs)
  unfolding bitmap_to_pixmap allocate_id reset moved is_initialized Made
  bitmap_to_pixmap-Made width height rs =
      let (new, apart) = fresh rs in
      let no_zero : (X.new_id rs == 0) ≡ false = ground arith in
      elim (Bool-cases (X.create_image width height)) [
        | inl image ↦
            rw (image, Ends, is_initialized, no_zero)
              (λ proper. (inl refl, ((new, apart), proper)), inl (refl, refl))
        | inr no_image ↦ rw (no_image, Ends) tt
      ]

  module _ {D : Type 0} (L : Lunasvg D) where
    render_x_pixmap_from_svg_text-Made :
        (svg css : Bytes) (rs : List Request)
        → Ends (Made rs) (render_x_pixmap_from_svg_text X L svg css rs)
    unfolding render_x_pixmap_from_svg_text is_initialized Made
    render_x_pixmap_from_svg_text-Made svg css rs = elim (Bool-cases (is_empty svg)) [
      | inl hollow ↦ rw (hollow, Ends) (λ proper. proper, inr (refl, refl))
      | inr text ↦ elim (Option-cases (L.load_from_data svg)) [
        | inl bad ↦ rw (text, bad, Ends) tt
        | inr (document, loaded) ↦
            let styled = if is_empty css then document else L.apply_style_sheet css document in
            elim (Option-cases (L.render_to_bitmap styled)) [
              | inl null ↦ rw (text, loaded, null, Ends) (λ proper. proper, inr (refl, refl))
              | inr ((width, height), drawn) ↦
                  rw (text, loaded, drawn, Ends) (bitmap_to_pixmap-Made width height rs)
            ]
      ]
    ]

  kept_none :
      (s : Screen) (rs : List Request)
      → (AreProper s.requests → AreProper rs)
      → live rs ≡ live s.requests
      → Accounts none s none (record s { requests = rs })
  kept_none s rs proper same = (
    same ∙ ap (λ p. p ++ live s.requests) (sym (same_picture s)),
    λ ok keeps. ((proper ok.0, λ nz. subst (Any (◌≡◌ s.window_picture)) (sym same) (ok.1 nz)), tt),
    λ nz. refl,
    tt,
  )

  module _ {N : Type 0} where
    drawn_again :
        (item : Item N) (r : Rendered) (s : Screen)
        → Accounts (some r) s (some r) (call_render X item r s)
    drawn_again item r s =
        let (left, sound, window) = call_render-Drawn X fresh item r s in
        (
          left,
          λ ok keeps. (
            sound ok keeps,
            subst (Any (◌≡◌ r.pixmap)) (sym left) (
                Any-behind (◌≡◌ r.pixmap) (new_picture s (call_render X item r s)) (live s.requests)
                  keeps),
          ),
          window,
          refl,
        )

    kept_and_drawn :
        (item : Item N) (s : Screen) (r : Rendered) (rs : List Request)
        → (AreProper s.requests → AreProper rs)
        → live rs ≡ r.pixmap ∷ live s.requests
        → Accounts none s (some r) (call_render X item r (record s { requests = rs }))
    kept_and_drawn item s r rs proper made =
        let s1 : Screen = record s { requests = rs } in
        let (left, again, window, stays) = drawn_again item r s1 in
        let there : IsLive r.pixmap rs = subst (Any (◌≡◌ r.pixmap)) (sym made) (inl refl) in
        (
          left ∙ ap (λ l. new_picture s1 (call_render X item r s1) ++ l) made,
          λ ok keeps.
              again
                (proper ok.0, λ nz. subst (Any (◌≡◌ s.window_picture)) (sym made) (inr (ok.1 nz)))
                there,
          window,
          tt,
        )

    keep_and_draw-Accounts :
        (item : Item N) (s : Screen) (m : PixmapWithDims × List Request)
        → item.svg.render ≡ none
        → Made s.requests m
        → Accounts none s (keep_and_draw X item s m).0.svg.render (keep_and_draw X item s m).1
    unfolding keep_and_draw Made
    keep_and_draw-Accounts item s (p, rs) none_kept (proper, inl (there, made)) =
        rw (there, keep_and_draw)
          (kept_and_drawn item s
            (record { pixmap = p.pixmap.id; width = p.width; height = p.height }) rs proper made)
    keep_and_draw-Accounts item s (p, rs) none_kept (proper, inr (absent, same)) =
        rw (absent, keep_and_draw, none_kept) (kept_none s rs proper same)

    module _ {D : Type 0} (L : Lunasvg D) where
      -- drawAsSvg leaves no resource on the server but a picture of the window, if that had none, and
      -- the pixmap that a drawable had not yet and now keeps. It makes, uses and frees only what the
      -- requests before allow, and this stays true of the pixmap kept, provided it was. A picture of the
      -- window and a pixmap that are there stay the same.
      pub draw_as_svg-Accounts :
          (item : Item N) (s : Screen)
          → Ends
              (λ (r : Item N × Screen). Accounts item.svg.render s r.0.svg.render r.1)
              (draw_as_svg X L item s)
      unfolding draw_as_svg
      draw_as_svg-Accounts item s =
          let fonts =
            (install_normal_font_file_to_luna L.add_font_face item.svg.font_file s.installed).1 in
          let s1 : Screen = record s { installed = fonts } in
          elim (Option-cases item.svg.render) [
            | inr (r, kept) ↦
                rw (kept, Ends)
                  (subst (λ o. Accounts o s o (call_render X item r s1)) (sym kept)
                    (drawn_again item r s1))
            | inl none_kept ↦
                let after : Option Rendered → Item N × Screen → Type 0 =
                  (λ o r. Accounts o s r.0.svg.render r.1) in
                subst (λ o. Ends (after o) (draw_as_svg X L item s)) (sym none_kept)
                  (rw (none_kept, Ends)
                    (map_outcome-Ends (Made s.requests)
                      (λ (r : Item N × Screen). Accounts none s r.0.svg.render r.1)
                      (keep_and_draw X item s1)
                      (render_x_pixmap_from_svg_text X L item.svg.svg item.svg.css s.requests)
                      (λ m made. keep_and_draw-Accounts item s1 m none_kept made)
                      (render_x_pixmap_from_svg_text-Made L item.svg.svg item.svg.css s.requests)))
          ]
