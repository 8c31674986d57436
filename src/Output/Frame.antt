-- ===== src/Output/Frame.antt =====
-- The drawables of cpp/main.cpp and cpp/tcp_session.hpp on the screen of cpp/xoverlayoutput.cpp: each
-- keeps its pixmap in the map, and frees it when it leaves the map.
use edmcoverlay_for_linux.Base.{
  uncaught, ◌≡◌, some, none, [], ◌∷◌, Outcome, finished, bind_outcome, ok, thrown, All,
}
use edmcoverlay_for_linux.Base.Int.{ℤ}
use edmcoverlay_for_linux.Base.Text.{Bytes}
use edmcoverlay_for_linux.Base.Map.{Map, find, set, erase}
use edmcoverlay_for_linux.Draw.{Item, set_already_rendered}
use edmcoverlay_for_linux.Output.{Server, Lunasvg, Screen}
use edmcoverlay_for_linux.Output.Drawing.{draw, destroy}
use edmcoverlay_for_linux.Output.Window.{clean_gc, flush}

-- allDraws.erase(key)
unfoldable pub erase_drawn : {N : Type 0} → Bytes → Map (Item N) → Screen → Map (Item N) × Screen
unfolding find erase destroy
erase_drawn key draws s = elim (find key draws) [
  | none ↦ (draws, s)
  | some item ↦ (erase key draws, record s { requests = destroy item s.requests })
]

-- A drawable of a message comes into the map: the one that stood there ends with allDraws.clear().
unfoldable pub put_drawn :
    {N : Type 0} → Bytes → Item N → Map (Item N) → Screen → Map (Item N) × Screen
unfolding find set destroy
put_drawn key item draws s = elim (find key draws) [
  | none ↦ (set key item draws, s)
  | some old ↦ (set key item draws, record s { requests = destroy old s.requests })
]

-- incoming_draws.merge(allDraws), and allDraws.clear() of what has not moved.
unfoldable pub merge_drawn :
    {N : Type 0} → Map (Item N) → Map (Item N) → Screen → Map (Item N) × Screen
unfolding put_drawn
merge_drawn [] draws s = (draws, s)
merge_drawn ((key, item) ∷ incoming) draws s =
    let r = put_drawn key item draws s in merge_drawn incoming r.0 r.1

-- The anti-flicker code, or removeRenamedDuplicates, marks a drawable as drawn.
unfoldable pub mark_drawn : {N : Type 0} → Bytes → Map (Item N) → Map (Item N)
unfolding find set set_already_rendered
mark_drawn key draws = elim (find key draws) [
  | none ↦ draws
  | some item ↦ set key (set_already_rendered item) draws
]

module _ (X : Server) {D : Type 0} (L : Lunasvg D) {N : Type 0} where
  -- The loop over the drawables of a redraw.
  unfoldable pub draw_all : Map (Item N) → Screen → Outcome (Map (Item N) × Screen)
  unfolding draw bind_outcome set_already_rendered
  draw_all [] s = finished ([], s)
  draw_all ((key, item) ∷ draws) s = bind_outcome (draw X L item s) (λ (r : Item N × Screen).
      bind_outcome (draw_all draws r.1) (λ (rest : Map (Item N) × Screen).
        finished ((key, set_already_rendered r.0) ∷ rest.0, rest.1)))

  -- cleanFrame, the drawables, flushFrame.
  unfoldable pub redraw_window : ℤ → ℤ → Map (Item N) → Screen → Outcome (Map (Item N) × Screen)
  unfolding clean_gc draw_all flush bind_outcome
  redraw_window width height draws s = elim (clean_gc X width height s) [
    | thrown e ↦ uncaught e
    | ok s' ↦
        bind_outcome (draw_all draws s')
          (λ (r : Map (Item N) × Screen). finished (r.0, flush X r.1))
  ]

  -- What happens to the drawables that have pictures: a redraw that ends in the defined part; the end of
  -- a drawable, which has expired, was a command, or is a renamed duplicate; the drawables of a message,
  -- which have no pixmap yet; and the mark of one that is drawn already.
  pub data Events (width height : ℤ) : Map (Item N) → Screen → Map (Item N) → Screen → Type 0 where
    nothing : (draws : Map (Item N)) (s : Screen) → Events width height draws s draws s
    redraw :
        {draws draws' draws'' : Map (Item N)} {s s' s'' : Screen}
        → redraw_window width height draws s ≡ finished (draws', s')
        → Events width height draws' s' draws'' s''
        → Events width height draws s draws'' s''
    gone :
        {draws draws'' : Map (Item N)} {s s'' : Screen} (key : Bytes)
        → Events width height (erase_drawn key draws s).0 (erase_drawn key draws s).1 draws'' s''
        → Events width height draws s draws'' s''
    message :
        {draws draws'' : Map (Item N)} {s s'' : Screen} (incoming : Map (Item N))
        → All (λ (e : Bytes × Item N). e.1.svg.render ≡ none) incoming
        → Events width height
            (merge_drawn incoming draws s).0
            (merge_drawn incoming draws s).1
            draws''
            s''
        → Events width height draws s draws'' s''
    marked :
        {draws draws'' : Map (Item N)} {s s'' : Screen} (key : Bytes)
        → Events width height (mark_drawn key draws) s draws'' s''
        → Events width height draws s draws'' s''
