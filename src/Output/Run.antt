-- ===== src/Output/Run.antt =====
-- Runs of redraws, messages and drawables that go: cpp/main.cpp and cpp/tcp_session.hpp over
-- cpp/xoverlayoutput.cpp.
use edmcoverlay_for_linux.Base.{
  ◌≡◌, subst, none, [], ◌∷◌, append-nil, Option-cases, finished, Ends, All, inl, inr,
}
use edmcoverlay_for_linux.Base.Int.{ℤ}
use edmcoverlay_for_linux.Base.Text.{Bytes}
use edmcoverlay_for_linux.Base.Map.{Map, find, IsSorted, set-IsSorted, erase-IsSorted}
use edmcoverlay_for_linux.Draw.{Item, set_already_rendered}
use edmcoverlay_for_linux.Output.{Server, Lunasvg, Screen}
use edmcoverlay_for_linux.Output.Live.{GivesNewIds}
use edmcoverlay_for_linux.Output.Held.{pixmaps, Holds}
use edmcoverlay_for_linux.Output.Accounted.{erase_drawn-Holds, put_drawn-Holds, mark_drawn-Holds}
use edmcoverlay_for_linux.Output.Frame.{
  redraw_window, erase_drawn, put_drawn, merge_drawn, mark_drawn, Events,
}
use edmcoverlay_for_linux.Output.Redrawn.{AllDrawn, redraw_window-AllDrawn}

-- The map is sorted, the requests are proper, and what lives on the server is what the drawables of the
-- map and the window hold: nothing leaks, and nothing held is gone.
abbrev pub IsAccounted : {N : Type 0} → Map (Item N) → Screen → Type 0
IsAccounted draws s = IsSorted draws × Holds (pixmaps draws) s

module _ {N : Type 0} where
  erase_drawn-IsSorted :
      (key : Bytes) (draws : Map (Item N)) (s : Screen)
      → IsSorted draws
      → IsSorted (erase_drawn key draws s).0
  unfolding erase_drawn
  erase_drawn-IsSorted key draws s sorted = elim (Option-cases (find key draws)) [
    | inl absent ↦ rw (absent, erase_drawn) sorted
    | inr (item, here) ↦ rw (here, erase_drawn) (erase-IsSorted key draws sorted)
  ]

  put_drawn-IsSorted :
      (key : Bytes) (item : Item N) (draws : Map (Item N)) (s : Screen)
      → IsSorted draws
      → IsSorted (put_drawn key item draws s).0
  unfolding put_drawn
  put_drawn-IsSorted key item draws s sorted = elim (Option-cases (find key draws)) [
    | inl absent ↦ rw (absent, put_drawn) (set-IsSorted key item draws sorted)
    | inr (old, here) ↦ rw (here, put_drawn) (set-IsSorted key item draws sorted)
  ]

  mark_drawn-IsSorted :
      (key : Bytes) (draws : Map (Item N)) → IsSorted draws → IsSorted (mark_drawn key draws)
  unfolding mark_drawn
  mark_drawn-IsSorted key draws sorted = elim (Option-cases (find key draws)) [
    | inl absent ↦ rw (absent, mark_drawn) sorted
    | inr (item, here) ↦
        rw (here, mark_drawn) (set-IsSorted key (set_already_rendered item) draws sorted)
  ]

  merge_drawn-IsAccounted :
      (incoming draws : Map (Item N)) (s : Screen)
      → All (λ (e : Bytes × Item N). e.1.svg.render ≡ none) incoming
      → IsAccounted draws s
      → IsAccounted (merge_drawn incoming draws s).0 (merge_drawn incoming draws s).1
  unfolding merge_drawn
  merge_drawn-IsAccounted [] draws s bare accounted = accounted
  merge_drawn-IsAccounted ((key, item) ∷ incoming) draws s (first, bare) (sorted, holds) =
      let r = put_drawn key item draws s in
      merge_drawn-IsAccounted incoming r.0 r.1 bare (
        put_drawn-IsSorted key item draws s sorted,
        put_drawn-Holds key item draws s first sorted holds,
      )

module _ (X : Server) (fresh : GivesNewIds X) {D : Type 0} (L : Lunasvg D) {N : Type 0} where
  redraw_window-IsAccounted :
      (width height : ℤ) (draws draws' : Map (Item N)) (s s' : Screen)
      → redraw_window X L width height draws s ≡ finished (draws', s')
      → IsAccounted draws s
      → IsAccounted draws' s'
  redraw_window-IsAccounted width height draws draws' s s' done (sorted, holds) =
      let (order, held) =
        subst (Ends (AllDrawn draws [])) done
          (redraw_window-AllDrawn X fresh L width height draws s holds) in
      (order.1 sorted, subst (λ l. Holds l s') (append-nil (pixmaps draws')) held)

  -- Along any redraws that end in the defined part, messages whose drawables have no pixmap yet, marks and
  -- ends of drawables, on a server that gives new ids: if at the start what lives on the server is what
  -- the drawables and the window hold, and the requests are proper, then so it is at the end. No pixmap
  -- and no picture leaks, none is freed while it is held, and every request uses what lives.
  pub Events-IsAccounted :
      (width height : ℤ) {draws draws' : Map (Item N)} {s s' : Screen}
      → Events X L width height draws s draws' s'
      → IsAccounted draws s
      → IsAccounted draws' s'
  Events-IsAccounted width height (Events.nothing draws s) accounted = accounted
  Events-IsAccounted width height
        (Events.redraw {draws} {draws'} {draws''} {s} {s'} {s''} done later) accounted =
      Events-IsAccounted width height later
        (redraw_window-IsAccounted width height draws draws' s s' done accounted)
  Events-IsAccounted width height (Events.gone {draws} {draws''} {s} {s''} key later)
        (sorted, holds) =
      Events-IsAccounted width height later
        (erase_drawn-IsSorted key draws s sorted, erase_drawn-Holds key draws s holds)
  Events-IsAccounted width height (Events.message {draws} {draws''} {s} {s''} incoming bare later)
        accounted =
      Events-IsAccounted width height later
        (merge_drawn-IsAccounted incoming draws s bare accounted)
  Events-IsAccounted width height (Events.marked {draws} {draws''} {s} {s''} key later)
        (sorted, holds) =
      Events-IsAccounted width height later
        (mark_drawn-IsSorted key draws sorted, mark_drawn-Holds key draws s sorted holds)
