-- ===== src/Output/Redrawn.antt =====
-- A redraw of cpp/main.cpp keeps the account of the resources.
use native.Mathlib.Omega.{arith}
use edmcoverlay_for_linux.Base.{
  uncaught-Ends, ℕ, ◌≡◌, sym, subst, ◌++◌, List, [], ◌∷◌, append_assoc, append-nil, finished, ◌>>=◌,
  bind_outcome, bind_outcome-Ends, Ends, inl, inr, Result, ok, thrown, Result-cases,
}
use edmcoverlay_for_linux.Base.Int.{ℤ}
use edmcoverlay_for_linux.Base.Text.{Bytes, codes}
use edmcoverlay_for_linux.Base.Map.{Map, IsSorted, Above}
use edmcoverlay_for_linux.Colors.{XColor, get}
use edmcoverlay_for_linux.Draw.{Item, set_already_rendered}
use edmcoverlay_for_linux.Output.{Request, Server, Lunasvg, Screen}
use edmcoverlay_for_linux.Output.Live.{GivesNewIds}
use edmcoverlay_for_linux.Output.Held.{count, count-append, pixmaps, pixmap_list, Holds, draw-Holds}
use edmcoverlay_for_linux.Output.Accounted.{Holds-reordered}
use edmcoverlay_for_linux.Output.Drawing.{draw}
use edmcoverlay_for_linux.Output.Window.{clean_gc, flush}
use edmcoverlay_for_linux.Output.Frame.{draw_all, redraw_window}

-- What stands between the drawables already drawn and the others.
swap : (id : ℕ) (xs ys zs : List ℕ) → count id (xs ++ (ys ++ zs)) ≡ count id (ys ++ (xs ++ zs))
swap id xs ys zs =
    let a = count-append id xs (ys ++ zs) in
    let b = count-append id ys zs in
    let c = count-append id ys (xs ++ zs) in let d = count-append id xs zs in omega arith

-- What holds of every screen that two colors give, holds of the one that they gave.
both_colors :
    (P : Screen → Type 0) (white transparent : Result XColor) (fill : XColor → XColor → Screen)
    → ((w t : XColor) → P (fill w t))
    → (s' : Screen) → (do w ← white; t ← transparent; ok (fill w t)) ≡ ok s'
    → P s'
both_colors P (ok w) (ok t) fill all s' e = subst P (cc) (all w t)
both_colors P (ok w) (thrown x) fill all s' e = absurd (cc)
both_colors P (thrown x) t fill all s' e = absurd (cc)

clean_gc-Holds :
    (X : Server) (width height : ℤ) (ids : List ℕ) (s s' : Screen)
    → clean_gc X width height s ≡ ok s'
    → Holds ids s
    → Holds ids s'
unfolding clean_gc
clean_gc-Holds X width height ids s s' cleaned holds =
    let first = get X.alloc_color (codes "solid_white") s.known_xcolors in
    let second = get X.alloc_color (codes "transparent") first.1 in
    both_colors (Holds ids) first.0 second.0
      (λ w t. record s {
        known_xcolors = second.1;
        requests =
            Request.fill_rectangle width height
            ∷ Request.set_foreground t.pixel
            ∷ Request.set_background w.pixel
            ∷ s.requests;
      })
      (λ w t. ((tt, (tt, (tt, holds.0))), holds.1)) s' cleaned

module _ {N : Type 0} where
  -- The keys of a map are those of another.
  abbrev pub SameOrder : Map (Item N) → Map (Item N) → Type 0
  SameOrder draws draws' =
      ((key : Bytes) → Above key draws → Above key draws') × (IsSorted draws → IsSorted draws')

  SameOrder-cons :
      (key : Bytes) (item item' : Item N) (draws draws' : Map (Item N))
      → SameOrder draws draws'
      → SameOrder ((key, item) ∷ draws) ((key, item') ∷ draws')
  SameOrder-cons key item item' draws draws' (above, sorted) =
      (λ j h. (h.0, above j h.1), λ h. (above key h.0, sorted h.1))

  abbrev pub AllDrawn : Map (Item N) → List ℕ → Map (Item N) × Screen → Type 0
  AllDrawn draws ids r = SameOrder draws r.0 × Holds (pixmaps r.0 ++ ids) r.1

module _ (X : Server) (fresh : GivesNewIds X) {D : Type 0} (L : Lunasvg D) {N : Type 0} where
  draw_all-AllDrawn :
      (draws : Map (Item N)) (ids : List ℕ) (s : Screen)
      → Holds (pixmaps draws ++ ids) s
      → Ends (AllDrawn draws ids) (draw_all X L draws s)
  unfolding draw_all set_already_rendered
  draw_all-AllDrawn [] ids s holds = ((λ key h. h, λ h. h), holds)
  draw_all-AllDrawn ((key, item) ∷ draws) ids s holds =
      let holds' : Holds (pixmap_list item.svg.render ++ (pixmaps draws ++ ids)) s =
        subst (λ l. Holds l s) (append_assoc (pixmap_list item.svg.render) (pixmaps draws) ids)
          holds in
      bind_outcome-Ends
        (λ (r : Item N × Screen). Holds (pixmap_list r.0.svg.render ++ (pixmaps draws ++ ids)) r.1)
        (AllDrawn ((key, item) ∷ draws) ids) (draw X L item s)
        (λ (r : Item N × Screen).
          bind_outcome (draw_all X L draws r.1) (λ (rest : Map (Item N) × Screen).
            finished ((key, set_already_rendered r.0) ∷ rest.0, rest.1)))
        (draw-Holds X fresh L item (pixmaps draws ++ ids) s holds')
        (λ r drawn.
          let mine = pixmap_list r.0.svg.render in
          bind_outcome-Ends (AllDrawn draws (mine ++ ids)) (AllDrawn ((key, item) ∷ draws) ids)
            (draw_all X L draws r.1)
            (λ (rest : Map (Item N) × Screen).
              finished ((key, set_already_rendered r.0) ∷ rest.0, rest.1))
            (draw_all-AllDrawn draws (mine ++ ids) r.1 (
              Holds-reordered (mine ++ (pixmaps draws ++ ids)) (pixmaps draws ++ (mine ++ ids)) r.1
                (λ id. swap id mine (pixmaps draws) ids) drawn))
            (λ rest (order, held). (
              SameOrder-cons key item (set_already_rendered r.0) draws rest.0 order,
              subst (λ l. Holds l rest.1) (sym (append_assoc mine (pixmaps rest.0) ids))
                  (Holds-reordered (pixmaps rest.0 ++ (mine ++ ids))
                    (mine ++ (pixmaps rest.0 ++ ids)) rest.1
                    (λ id. swap id (pixmaps rest.0) mine ids) held),
            )))

  pub redraw_window-AllDrawn :
      (width height : ℤ) (draws : Map (Item N)) (s : Screen)
      → Holds (pixmaps draws) s
      → Ends (AllDrawn draws []) (redraw_window X L width height draws s)
  unfolding redraw_window flush
  redraw_window-AllDrawn width height draws s holds =
      elim (Result-cases (clean_gc X width height s)) [
        | inl (e, bad) ↦ rw (bad, Ends) (uncaught-Ends (AllDrawn draws []) e)
        | inr (s', good) ↦
            rw (good, Ends)
              (bind_outcome-Ends (AllDrawn draws []) (AllDrawn draws []) (draw_all X L draws s')
                (λ (r : Map (Item N) × Screen). finished (r.0, flush X r.1))
                (draw_all-AllDrawn draws [] s' (
                  subst (λ l. Holds l s') (sym (append-nil (pixmaps draws)))
                    (clean_gc-Holds X width height (pixmaps draws) s s' good holds)))
                (λ r (order, held). (order, ((tt, held.0), held.1))))
      ]
