-- ===== src/Emoji/Renderer/Calls.antt =====
-- Runs of calls of renderToPng and computeWidth, cpp/emoji_renderer/emoji_renderer.cpp.
use edmcoverlay_for_linux.Base.{
  ℕ, ◌≡◌, refl, sym, subst, ◌∙◌, ap, true, false, some, List, [], ◌∷◌, Bool-cases, Option-cases,
  arith, finished, Ends, inl, inr, ◌==◌, ◌||◌, not,
}
use edmcoverlay_for_linux.Base.Map.{set}
use edmcoverlay_for_linux.Base.Order.{equivalent, equivalent_refl, equivalent_same}
use edmcoverlay_for_linux.Svg.TextTags.{Font, PngData, png_is_valid}
use edmcoverlay_for_linux.Emoji.FreeType.{FreeType, FontConfig, Png}
use edmcoverlay_for_linux.Emoji.Request.{FontRequirement, EmojiToRender, request_less, to_key}
use edmcoverlay_for_linux.Emoji.Request.Order.{request_less-WeakOrder}
use edmcoverlay_for_linux.Emoji.Faces.{
  Pictures, find_picture, put_picture, no_result, State, get_face,
}
use edmcoverlay_for_linux.Emoji.Renderer.{render_to_png}
use edmcoverlay_for_linux.Emoji.Renderer.Cache.{
  find-put_picture, render_loop-Good, get_face-emojies,
}
use edmcoverlay_for_linux.Emoji.Measure.{compute_width, width_loop, measured_text}

-- Requests that share an entry find the same picture.
find_picture-equivalent :
    (a b : EmojiToRender) (m : Pictures)
    → equivalent request_less a b ≡ true
    → find_picture a m ≡ find_picture b m
unfolding find_picture equivalent
find_picture-equivalent a b [] h = refl
find_picture-equivalent a b ((k, png) ∷ m) h = ground (
  arith,
  equivalent_same request_less request_less-WeakOrder a b k h,
  find_picture-equivalent a b m h,
)

no_result_invalid : png_is_valid no_result ≡ true → ⊥
unfolding png_is_valid
no_result_invalid h = absurd (cc)

module _ {F P : Type 0} (T : FreeType F) (C : FontConfig P) (G : Png) where
  -- Calls in their order; a call of renderToPng is one that ends in the defined part.
  pub data Calls : State F → State F → Type 0 where
    here : (s : State F) → Calls s s
    render :
        {s s' s'' : State F} {png : PngData} (what : EmojiToRender)
        → render_to_png T C G what s ≡ finished (png, s')
        → Calls s' s''
        → Calls s s''
    width :
        {s s'' : State F} (font : FontRequirement) (text : List ℕ)
        → Calls (compute_width T C font text s).1 s''
        → Calls s s''

  width_loop-emojies :
      (size : ℕ) (text : List ℕ) (fonts : List Font) (s : State F)
      → (width_loop T C size text fonts s).1.emojies ≡ s.emojies
  unfolding width_loop
  width_loop-emojies size text [] s = refl
  width_loop-emojies size text (font ∷ fonts) s =
      let found = get_face T C font s in
      elim (Option-cases found.0) [
        | inl no_face ↦
            rw (no_face, width_loop)
              (width_loop-emojies size text fonts found.1 ∙ get_face-emojies T C G font s)
        | inr (face, have) ↦
            let measured = measured_text T C size text face in
            let s' = record found.1 { faces = set (to_key font) measured.1 found.1.faces } in
            elim (Option-cases measured.0) [
              | inl missing ↦
                  rw (have, width_loop, missing)
                    (width_loop-emojies size text fonts s' ∙ get_face-emojies T C G font s)
              | inr (pen, all) ↦ rw (have, width_loop, all) (get_face-emojies T C G font s)
            ]
      ]

  render_to_png-stored :
      (what : EmojiToRender) (s : State F)
      → Ends
          (λ r. png_is_valid r.0 ≡ true → find_picture what r.1.emojies ≡ some r.0)
          (render_to_png T C G what s)
  unfolding render_to_png
  render_to_png-stored what s = elim (Bool-cases (what.emoji == 0 || not T.init)) [
    | inl off ↦ rw (off, Ends) (λ valid. absurd (no_result_invalid valid))
    | inr on ↦ elim (Option-cases (find_picture what s.emojies)) [
      | inr (png, have) ↦ rw (on, have, Ends) (λ valid. have)
      | inl absent ↦
          rw (on, absent, Ends)
            (render_loop-Good T C G what (λ m. Unit)
              (λ png m. png_is_valid png ≡ true → find_picture what m ≡ some png) (λ m i. tt)
              (λ m i valid. absurd (no_result_invalid valid))
              (λ m bmp png scaled i valid.
                find-put_picture what what png m
                ∙ rw (equivalent_refl request_less request_less-WeakOrder what) refl)
              what.font.font_face_or_path s tt)
    ]
  ]

  render_to_png-kept_entry :
      (k what : EmojiToRender) (p : PngData) (s : State F)
      → find_picture k s.emojies ≡ some p
      → Ends (λ r. find_picture k r.1.emojies ≡ some p) (render_to_png T C G what s)
  unfolding render_to_png
  render_to_png-kept_entry k what p s h = elim (Bool-cases (what.emoji == 0 || not T.init)) [
    | inl off ↦ rw (off, Ends) h
    | inr on ↦ elim (Option-cases (find_picture what s.emojies)) [
      | inr (png, have) ↦ rw (on, have, Ends) h
      | inl absent ↦
          let other : equivalent request_less what k ≡ false =
            elim (Bool-cases (equivalent request_less what k)) [
              | inr no_match ↦ no_match
              | inl same ↦ let e = find_picture-equivalent what k s.emojies same in absurd (cc)
            ] in
          let kept : (png : PngData) (m : Pictures)
              → find_picture k m ≡ some p
              → find_picture k (put_picture what png m) ≡ some p =
            (λ png m i. find-put_picture k what png m ∙ rw (other) i) in
          rw (on, absent, Ends)
            (render_loop-Good T C G what (λ m. find_picture k m ≡ some p)
              (λ png m. find_picture k m ≡ some p) (λ m i. kept no_result m i) (λ m i. i)
              (λ m bmp png scaled i. kept png m i) what.font.font_face_or_path s h)
    ]
  ]

  Calls-kept_entry :
      (k : EmojiToRender) (p : PngData) (s s' : State F)
      → Calls s s'
      → find_picture k s.emojies ≡ some p
      → find_picture k s'.emojies ≡ some p
  unfolding compute_width
  Calls-kept_entry k p s s' (here _) h = h
  Calls-kept_entry k p s s' (render {s' = s1} what call calls) h =
      Calls-kept_entry k p s1 s' calls (
        subst (Ends (λ r. find_picture k r.1.emojies ≡ some p)) call
          (render_to_png-kept_entry k what p s h))
  Calls-kept_entry k p s s' (width font text calls) h =
      Calls-kept_entry k p (compute_width T C font text s).1 s' calls
        (ap (find_picture k) (width_loop-emojies font.font_size text font.font_face_or_path s) ∙ h)

  -- A valid picture that renderToPng has given is given again by every later call with the request,
  -- whatever calls stand in between, and that call changes nothing.
  pub render_to_png-again :
      (what : EmojiToRender) (png : PngData) (s s' s'' : State F)
      → render_to_png T C G what s ≡ finished (png, s')
      → png_is_valid png ≡ true
      → Calls s' s''
      → render_to_png T C G what s'' ≡ finished (png, s'')
  unfolding render_to_png
  render_to_png-again what png s s' s'' call valid calls =
      let stored =
        subst (Ends (λ r. png_is_valid r.0 ≡ true → find_picture what r.1.emojies ≡ some r.0)) call
          (render_to_png-stored what s) valid in
      let found = Calls-kept_entry what png s' s'' calls stored in
      elim (Bool-cases (what.emoji == 0 || not T.init)) [
        | inr on ↦ rw (on, found) refl
        | inl off ↦
            let nothing : finished (no_result, s) ≡ finished (png, s') = rw (off) at call in
            absurd (
              no_result_invalid
                (subst (λ o. Ends (λ r. png_is_valid r.0 ≡ true) o) (sym nothing) valid))
      ]
