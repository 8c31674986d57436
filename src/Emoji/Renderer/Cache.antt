-- ===== src/Emoji/Renderer/Cache.antt =====
-- The pictures that renderToPng of cpp/emoji_renderer/emoji_renderer.cpp keeps, and its loop over the
-- fonts as far as they are concerned.
use edmcoverlay_for_linux.Base.{
  Option, none, some, finished, undefined, ◌⊎◌, Exception, Outcome, refl, ◌≡◌, refl, sym, subst,
  some, List, [], ◌∷◌, if◌then◌else◌, Bool-cases, Option-cases, arith, Outcome, finished, Ends,
  Outcome-cases, inl, inr,
}
use edmcoverlay_for_linux.Base.Map.{set, find}
use edmcoverlay_for_linux.Base.Order.{equivalent, equivalent_same}
use edmcoverlay_for_linux.Svg.TextTags.{Font, PngData}
use edmcoverlay_for_linux.Emoji.FreeType.{FreeType, FontConfig, Png}
use edmcoverlay_for_linux.Emoji.Request.{EmojiToRender, request_less, to_key}
use edmcoverlay_for_linux.Emoji.Request.Order.{request_less-WeakOrder}
use edmcoverlay_for_linux.Emoji.Bitmap.{Bitmap, copy_glyph}
use edmcoverlay_for_linux.Emoji.Faces.{
  Pictures, find_picture, put_picture, no_result, State, get_face, load_face,
}
use edmcoverlay_for_linux.Emoji.Renderer.{
  render_loop, with_face, stored_png, drawn_glyph, scaled_png,
}

Copied-cases :
    (o : Outcome (Option Bitmap))
    → (o ≡ finished none)
      ⊎ (((bmp : Bitmap) × (o ≡ finished (some bmp)))
          ⊎ ((o ≡ undefined) ⊎ ((e : Exception) × (o ≡ Outcome.terminated e))))
Copied-cases (finished none) = inl refl
Copied-cases (finished (some bmp)) = inr (inl (bmp, refl))
Copied-cases undefined = inr (inr (inl refl))
Copied-cases (Outcome.terminated e) = inr (inr (inr (e, refl)))

-- A picture that is stored is found for the requests that share its entry, and no other request
-- finds another picture than before.
pub find-put_picture :
    (k what : EmojiToRender) (png : PngData) (m : Pictures)
    → find_picture k (put_picture what png m)
      ≡ (if equivalent request_less what k then some png else find_picture k m)
unfolding find_picture put_picture
find-put_picture k what png [] = refl
find-put_picture k what png ((j, old) ∷ m) = ground (
  arith,
  equivalent_same request_less request_less-WeakOrder what k j,
  equivalent_same request_less request_less-WeakOrder j what k,
  find-put_picture k what png m,
)

module _ {F P : Type 0} (T : FreeType F) (C : FontConfig P) (G : Png) where
  pub get_face-emojies : (font : Font) (s : State F) → (get_face T C font s).1.emojies ≡ s.emojies
  unfolding get_face
  get_face-emojies font s = elim (Option-cases (find (to_key font) s.faces)) [
    | inr (face, here) ↦ rw (here, get_face) refl
    | inl absent ↦ elim (Option-cases (load_face T C font)) [
      | inr (face, loaded) ↦ rw (absent, get_face, loaded) refl
      | inl failed ↦ rw (absent, get_face, failed) refl
    ]
  ]

  -- What holds of the pictures before the loop over the fonts, of those with an empty one in place
  -- of the one wanted, and of each result with the pictures it leaves.
  module _ (what : EmojiToRender) (I : Pictures → Type 0) (Q : PngData → Pictures → Type 0)
      (emptied : (m : Pictures) → I m → I (put_picture what no_result m))
      (missed : (m : Pictures) → I m → Q no_result m)
      (stored : (m : Pictures) (bmp : Bitmap) (png : PngData)
        → scaled_png T C G what.font.font_size bmp ≡ finished png
        → I m
        → Q png (put_picture what png m)) where
    abbrev Good : Outcome (PngData × State F) → Type 0
    Good = Ends (λ r. Q r.0 r.1.emojies)

    stored_png-Good :
        (face : F) (s : State F) (rest : State F → Outcome (PngData × State F))
        → ((s' : State F) → I s'.emojies → Good (rest s'))
        → I s.emojies
        → Good (stored_png T C G what face s rest)
    unfolding stored_png
    stored_png-Good face s rest more i =
        elim (Copied-cases (copy_glyph what.color (T.bitmap face))) [
          | inr (inr (inl bad)) ↦ rw (bad, stored_png) tt
          | inr (inr (inr (e, bad))) ↦ rw (bad, stored_png) tt
          | inl other ↦
              rw (other, stored_png)
                (more (record s { emojies = put_picture what no_result s.emojies })
                  (emptied s.emojies i))
          | inr (inl (bmp, copied)) ↦
              elim (Outcome-cases (scaled_png T C G what.font.font_size bmp)) [
                | inl (png, scaled) ↦
                    rw (copied, stored_png, scaled) (stored s.emojies bmp png scaled i)
                | inr (inl bad) ↦ rw (copied, stored_png, bad) tt
                | inr (inr (e, bad)) ↦ rw (copied, stored_png, bad) tt
              ]
        ]

    with_face-Good :
        (font : Font) (face : F) (s : State F) (rest : State F → Outcome (PngData × State F))
        → ((s' : State F) → I s'.emojies → Good (rest s'))
        → I s.emojies
        → Good (with_face T C G what font face s rest)
    unfolding with_face
    with_face-Good font face s rest more i =
        let s' = record s { faces = set (to_key font) (drawn_glyph T C G what face).1 s.faces } in
        elim (Bool-cases (drawn_glyph T C G what face).0) [
          | inl drawn ↦ rw (drawn) (stored_png-Good (drawn_glyph T C G what face).1 s' rest more i)
          | inr none_drawn ↦ rw (none_drawn) (more s' i)
        ]

    pub render_loop-Good :
        (fonts : List Font) (s : State F)
        → I s.emojies
        → Ends (λ r. Q r.0 r.1.emojies) (render_loop T C G what fonts s)
    unfolding render_loop
    render_loop-Good [] s i = missed s.emojies i
    render_loop-Good (font ∷ fonts) s i =
        let found = get_face T C font s in
        let i' = subst I (sym (get_face-emojies font s)) i in
        elim (Option-cases found.0) [
          | inl no_face ↦ rw (no_face, Ends) (render_loop-Good fonts found.1 i')
          | inr (face, here) ↦
              rw (here, Ends)
                (with_face-Good font face found.1 (λ s'. render_loop T C G what fonts s')
                  (λ s' j. render_loop-Good fonts s' j) i')
        ]
