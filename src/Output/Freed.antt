-- ===== src/Output/Freed.antt =====
-- The end of a drawable, for cpp/xoverlayoutput.cpp: its pixmap is freed.
use edmcoverlay_for_linux.Base.{
  ℕ, ◌≡◌, ◌≢◌, ◌==◌, refl, sym, subst, ap, ◌∙◌, ◌++◌, false, Option, none, some, List, [], ◌∷◌,
  finished, Ends, inl, inr, All, Bool-cases, arith,
}
use edmcoverlay_for_linux.Draw.{Item, Rendered}
use edmcoverlay_for_linux.Output.{Request, Server, Lunasvg, Screen}
use edmcoverlay_for_linux.Output.ManagedId.{reset, is_initialized}
use edmcoverlay_for_linux.Output.Live.{live, AreProper, GivesNewIds, without, without_head}
use edmcoverlay_for_linux.Output.Sound.{IsSound, new_picture}
use edmcoverlay_for_linux.Output.Kept.{Accounts, KeepsPixmap, new_pixmap, draw_as_svg-Accounts}
use edmcoverlay_for_linux.Output.Drawing.{draw_as_svg, destroy}

-- No id lives twice, and none is None.
abbrev pub AreDistinct : List ℕ → Type 0
AreDistinct [] = Unit
AreDistinct (x ∷ xs) = ((x ≢ 0) × All (◌≢◌ x) xs) × AreDistinct xs

All-without_id : (P : ℕ → Type 0) (id : ℕ) (xs : List ℕ) → All P xs → All P (without id xs)
All-without_id P id [] h = tt
All-without_id P id (x ∷ xs) h = elim (Bool-cases (x == id)) [
  | inl here ↦ rw (here) h.1
  | inr later ↦ rw (later) (h.0, All-without_id P id xs h.1)
]

without-AreDistinct : (id : ℕ) (xs : List ℕ) → AreDistinct xs → AreDistinct (without id xs)
without-AreDistinct id [] h = tt
without-AreDistinct id (x ∷ xs) h = elim (Bool-cases (x == id)) [
  | inl here ↦ rw (here) h.1
  | inr later ↦
      rw (later) ((h.0.0, All-without_id (◌≢◌ x) id xs h.0.1), without-AreDistinct id xs h.1)
]

-- Proper requests never leave an id twice.
pub live-AreDistinct : (rs : List Request) → AreProper rs → AreDistinct (live rs)
live-AreDistinct [] p = tt
live-AreDistinct (Request.create_pixmap id ∷ rs) p = (p.0, live-AreDistinct rs p.1)
live-AreDistinct (Request.create_picture id none ∷ rs) p = (p.0, live-AreDistinct rs p.1)
live-AreDistinct (Request.create_picture id (some d) ∷ rs) p =
    ((p.0.0, p.0.1), live-AreDistinct rs p.1)
live-AreDistinct (Request.free_pixmap id ∷ rs) p =
    without-AreDistinct id (live rs) (live-AreDistinct rs p.1)
live-AreDistinct (Request.free_picture id ∷ rs) p =
    without-AreDistinct id (live rs) (live-AreDistinct rs p.1)
live-AreDistinct (Request.put_image i w h ∷ rs) p = live-AreDistinct rs p.1
live-AreDistinct (Request.composite a b x y w h ∷ rs) p = live-AreDistinct rs p.1
live-AreDistinct (Request.set_background c ∷ rs) p = live-AreDistinct rs p.1
live-AreDistinct (Request.set_foreground c ∷ rs) p = live-AreDistinct rs p.1
live-AreDistinct (Request.fill_rectangle w h ∷ rs) p = live-AreDistinct rs p.1
live-AreDistinct (Request.flush ∷ rs) p = live-AreDistinct rs p.1

without_behind :
    (xs ys : List ℕ) (id : ℕ)
    → AreDistinct (xs ++ (id ∷ ys))
    → without id (xs ++ (id ∷ ys)) ≡ xs ++ ys
without_behind [] ys id d = without_head id ys
without_behind (x ∷ xs) ys id d =
    let apart : x ≢ id = behind xs d.0.1 in
    let no_match : (x == id) ≡ false = ground arith in
    rw (no_match) (ap (◌∷◌ x) (without_behind xs ys id d.1))
  where
    behind : (zs : List ℕ) → All (◌≢◌ x) (zs ++ (id ∷ ys)) → x ≢ id
    behind [] h = h.0
    behind (z ∷ zs) h = behind zs h.1

behind_nonzero : (xs ys : List ℕ) (id : ℕ) → AreDistinct (xs ++ (id ∷ ys)) → id ≢ 0
behind_nonzero [] ys id d = d.0.0
behind_nonzero (x ∷ xs) ys id d = behind_nonzero xs ys id d.1

pub freed :
    {N : Type 0} (item : Item N) (r : Rendered) (rs : List Request)
    → item.svg.render ≡ some r
    → r.pixmap ≢ 0
    → destroy item rs ≡ Request.free_pixmap r.pixmap ∷ rs
unfolding destroy reset is_initialized
freed item r rs kept there =
    let no_zero : (r.pixmap == 0) ≡ false = ground arith in
    rw (kept, destroy, reset, is_initialized, no_zero) refl

module _ (X : Server) (fresh : GivesNewIds X) {N D : Type 0} (L : Lunasvg D) where
  destroyed :
      (item' : Item N) (s s' : Screen) (o : Option Rendered)
      → item'.svg.render ≡ o
      → live s'.requests ≡ new_picture s s' ++ (new_pixmap none o ++ live s.requests)
      → IsSound s'
      → KeepsPixmap o s'.requests
      → (live (destroy item' s'.requests) ≡ new_picture s s' ++ live s.requests)
        × AreProper (destroy item' s'.requests)
  unfolding destroy
  destroyed item' s s' none kept left sound keeps = rw (kept, destroy) (left, sound.0)
  destroyed item' s s' (some r) kept left sound keeps =
      let distinct = subst AreDistinct left (live-AreDistinct s'.requests sound.0) in
      let there : r.pixmap ≢ 0 =
        behind_nonzero (new_picture s s') (live s.requests) r.pixmap distinct in
      let Freed : List Request → Type 0 =
        (λ rs. (live rs ≡ new_picture s s' ++ live s.requests) × AreProper rs) in
      subst Freed (sym (freed item' r s'.requests kept there)) (
        ap (without r.pixmap) left
            ∙ without_behind (new_picture s s') (live s.requests) r.pixmap distinct,
        (keeps, sound.0),
      )

  -- A drawable that is drawn for the first time and then destroyed leaves nothing on the server but
  -- the picture of the window, if that had none; its pixmap, if it got one, is freed once, while it
  -- lives. The screen is one where the requests were proper before.
  pub draw_as_svg-destroy :
      (item item' : Item N) (s s' : Screen)
      → item.svg.render ≡ none
      → IsSound s
      → draw_as_svg X L item s ≡ finished (item', s')
      → (live (destroy item' s'.requests) ≡ new_picture s s' ++ live s.requests)
        × AreProper (destroy item' s'.requests)
  draw_as_svg-destroy item item' s s' first sound drawn =
      let after : Option Rendered → Item N × Screen → Type 0 =
        (λ o r. Accounts o s r.0.svg.render r.1) in
      let accounts =
        subst (λ o. Ends (after o) (finished (item', s'))) first
          (subst (Ends (after item.svg.render)) drawn (draw_as_svg-Accounts X fresh L item s)) in
      let (sound', keeps) = accounts.1 sound tt in
      destroyed item' s s' item'.svg.render refl accounts.0 sound' keeps
