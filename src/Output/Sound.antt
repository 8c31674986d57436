-- ===== src/Output/Sound.antt =====
-- The resources that the drawing of cpp/xoverlayoutput.cpp makes and frees.
use edmcoverlay_for_linux.Base.{
  ℕ, ◌≡◌, ◌≢◌, ◌==◌, refl, sym, subst, ap, ◌∙◌, ◌++◌, true, false, none, some, List, [], ◌∷◌,
  if◌then◌else◌, inl, inr, Any, Bool-cases, arith,
}
use edmcoverlay_for_linux.Draw.{Item, Rendered}
use edmcoverlay_for_linux.Output.{Request, Server, Screen}
use edmcoverlay_for_linux.Output.ManagedId.{reset, is_initialized}
use edmcoverlay_for_linux.Output.Live.{
  live, IsLive, AreProper, GivesNewIds, without_head, without_second,
}
use edmcoverlay_for_linux.Output.Drawing.{allocate_id, with_window_picture, call_render}

-- The requests are proper, and the picture of the window lives once it is there.
abbrev pub IsSound : Screen → Type 0
IsSound s = AreProper s.requests × (s.window_picture ≢ 0 → IsLive s.window_picture s.requests)

abbrev pub KeepsPixmap : {N : Type 0} → Item N → List Request → Type 0
KeepsPixmap item rs = (r : Rendered) → item.svg.render ≡ some r → IsLive r.pixmap rs

-- The picture of the window, if the drawing made it.
abbrev pub new_picture : Screen → Screen → List ℕ
new_picture s s' =
    if s.window_picture == 0
    then (if s'.window_picture == 0 then [] else s'.window_picture ∷ [])
    else []

-- The drawing with a pixmap leaves no resource but the picture of the window, and is sound.
abbrev pub Drawn : Rendered → Screen → Screen → Type 0
Drawn r s s' =
    (live s'.requests ≡ new_picture s s' ++ live s.requests)
    × (IsSound s → IsLive r.pixmap s.requests → IsSound s')
    × (s.window_picture ≢ 0 → s'.window_picture ≡ s.window_picture)

new_picture_first :
    (s s' : Screen)
    → s.window_picture ≡ 0
    → s'.window_picture ≢ 0
    → new_picture s s' ≡ s'.window_picture ∷ []
new_picture_first s s' h k = ground arith

new_picture_later : (s s' : Screen) → s.window_picture ≢ 0 → new_picture s s' ≡ []
new_picture_later s s' h = ground arith

module _ (X : Server) where
  abbrev source : Screen → ℕ
  source s = X.new_id s.requests

  abbrev window : Rendered → Screen → ℕ
  window r s = X.new_id (Request.create_picture (source s) (some r.pixmap) ∷ s.requests)

module _ (X : Server) (fresh : GivesNewIds X) {N : Type 0} where
  -- The requests of the closure, the latest first, where the window has its picture and where not.
  call_render-later :
      (item : Item N) (r : Rendered) (s : Screen)
      → s.window_picture ≢ 0
      → call_render X item r s ≡ record s {
        requests =
            Request.free_picture (source X s)
            ∷ Request.composite (source X s) s.window_picture item.x item.y r.width r.height
            ∷ Request.create_picture (source X s) (some r.pixmap)
            ∷ s.requests;
      }
  unfolding call_render with_window_picture allocate_id reset is_initialized
  call_render-later item r s there =
      let (src_new, apart) = fresh s.requests in
      let no_zero : (source X s == 0) ≡ false = ground arith in
      let no_first : (s.window_picture == 0) ≡ false = ground arith in
      rw (no_first, is_initialized, no_zero) refl

  call_render-first :
      (item : Item N) (r : Rendered) (s : Screen)
      → s.window_picture ≡ 0
      → call_render X item r s ≡ record s {
        requests =
            Request.free_picture (source X s)
            ∷ Request.composite (source X s) (window X r s) item.x item.y r.width r.height
            ∷ Request.create_picture (window X r s) none
            ∷ Request.create_picture (source X s) (some r.pixmap)
            ∷ s.requests;
        window_picture = window X r s;
      }
  unfolding call_render with_window_picture allocate_id reset is_initialized
  call_render-first item r s absent =
      let (src_new, apart) = fresh s.requests in
      let no_zero : (source X s == 0) ≡ false = ground arith in
      let first : (s.window_picture == 0) ≡ true = ground arith in
      rw (first, is_initialized, no_zero) refl

  -- The closure frees its picture of the pixmap, and leaves the one of the window.
  pub call_render-Drawn :
      (item : Item N) (r : Rendered) (s : Screen) → Drawn r s (call_render X item r s)
  call_render-Drawn item r s = elim (Bool-cases (s.window_picture == 0)) [
    | inl absent ↦
        let first : s.window_picture ≡ 0 = ground arith in
        let a = source X s in
        let b = window X r s in
        let (src, src_apart) = fresh s.requests in
        let (win, (win_src, win_apart)) =
          fresh (Request.create_picture a (some r.pixmap) ∷ s.requests) in
        let s' : Screen = record s {
          requests =
              Request.free_picture a
              ∷ Request.composite a b item.x item.y r.width r.height
              ∷ Request.create_picture b none
              ∷ Request.create_picture a (some r.pixmap)
              ∷ s.requests;
          window_picture = b;
        } in
        let left = without_second b a (live s.requests) win_src in
        subst (Drawn r s) (sym (call_render-first item r s first)) (
          left ∙ ap (λ p. p ++ live s.requests) (sym (new_picture_first s s' first win)),
          λ sound pixmap. (
            (
              inr (inl refl),
              (
                (inr (inl refl), inl refl),
                ((win, (win_src, win_apart)), ((src, src_apart, pixmap), sound.0)),
              ),
            ),
            λ there. subst (Any (◌≡◌ b)) (sym left) (inl refl),
          ),
          λ nz. absurd (nz first),
        )
    | inr there ↦
        let later : s.window_picture ≢ 0 = ground arith in
        let a = source X s in
        let (src, src_apart) = fresh s.requests in
        let s' : Screen = record s {
          requests =
              Request.free_picture a
              ∷ Request.composite a s.window_picture item.x item.y r.width r.height
              ∷ Request.create_picture a (some r.pixmap)
              ∷ s.requests;
        } in
        let left = without_head a (live s.requests) in
        subst (Drawn r s) (sym (call_render-later item r s later)) (
          left ∙ ap (λ p. p ++ live s.requests) (sym (new_picture_later s s' later)),
          λ sound pixmap. (
            (inl refl, ((inl refl, inr (sound.1 later)), ((src, src_apart, pixmap), sound.0))),
            λ nz. subst (Any (◌≡◌ s.window_picture)) (sym left) (sound.1 later),
          ),
          λ nz. refl,
        )
  ]
