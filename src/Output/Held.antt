-- ===== src/Output/Held.antt =====
-- The resources that live on the server are those that the drawables and the window hold, for
-- cpp/main.cpp and cpp/xoverlayoutput.cpp.
use edmcoverlay_for_linux.Base.{
  ℕ, ◌+◌, ◌≡◌, ◌≢◌, ◌<◌, ◌==◌, refl, ap, ◌++◌, Option, none, some, List, [], ◌∷◌, if◌then◌else◌,
  finished, Ends, Ends-mono, inl, inr, Any, Bool-cases, arith,
}
use edmcoverlay_for_linux.Base.Map.{Map}
use edmcoverlay_for_linux.Draw.{Item, Mode, Rendered}
use edmcoverlay_for_linux.Output.{Server, Lunasvg, Screen}
use edmcoverlay_for_linux.Output.Live.{live, IsLive, AreProper, GivesNewIds, without}
use edmcoverlay_for_linux.Output.Sound.{IsSound, new_picture}
use edmcoverlay_for_linux.Output.Kept.{
  Accounts, KeepsPixmap, Stays, new_pixmap, draw_as_svg-Accounts,
}
use edmcoverlay_for_linux.Output.Drawing.{draw, draw_as_svg}

-- How often an id is in a list.
abbrev pub count : ℕ → List ℕ → ℕ
count id [] = 0
count id (x ∷ xs) = (if x == id then 1 else 0) + count id xs

abbrev pub window_list : Screen → List ℕ
window_list s = if s.window_picture == 0 then [] else s.window_picture ∷ []

abbrev pub pixmap_list : Option Rendered → List ℕ
pixmap_list none = []
pixmap_list (some r) = r.pixmap ∷ []

-- The pixmaps that the drawables keep.
abbrev pub pixmaps : {N : Type 0} → Map (Item N) → List ℕ
pixmaps [] = []
pixmaps ((key, item) ∷ draws) = pixmap_list item.svg.render ++ pixmaps draws

-- The requests are proper, and what they leave is held: by the window, or by one of `ids`, as often
-- as it lives.
abbrev pub Holds : List ℕ → Screen → Type 0
Holds ids s =
    AreProper s.requests
    × ((id : ℕ) → count id (live s.requests) ≡ count id (window_list s) + count id ids)

pub count-append : (id : ℕ) (xs ys : List ℕ) → count id (xs ++ ys) ≡ count id xs + count id ys
count-append id [] ys = omega arith
count-append id (x ∷ xs) ys = omega (arith, count-append id xs ys)

count-Any : (id : ℕ) (xs : List ℕ) → 0 < count id xs → Any (◌≡◌ id) xs
count-Any id [] h = absurd (omega arith)
count-Any id (x ∷ xs) h = elim (Bool-cases (x == id)) [
  | inl here ↦ inl (ground arith)
  | inr other ↦
      let more : 0 < 0 + count id xs = rw (other) at h in inr (count-Any id xs (omega arith))
]

pub count-without :
    (id pix : ℕ) (xs : List ℕ)
    → Any (◌≡◌ pix) xs
    → count id xs ≡ (if pix == id then 1 else 0) + count id (without pix xs)
count-without id pix [] h = absurd h
count-without id pix (x ∷ xs) h = elim (Bool-cases (x == pix)) [
  | inl here ↦
      let e : x ≡ pix = ground arith in
      rw (here) (ap (λ z. (if z == id then 1 else 0) + count id xs) e)
  | inr other ↦ elim h [
    | inl e ↦ absurd (ground arith)
    | inr more ↦ rw (other) (omega (arith, count-without id pix xs more))
  ]
]

window-counted :
    (id : ℕ) (s s' : Screen)
    → (s.window_picture ≢ 0 → s'.window_picture ≡ s.window_picture)
    → count id (window_list s') ≡ count id (new_picture s s') + count id (window_list s)
window-counted id s s' kept = ground arith

pixmap-counted :
    (id : ℕ) (before after : Option Rendered)
    → Stays before after
    → count id (pixmap_list after)
      ≡ count id (new_pixmap before after) + count id (pixmap_list before)
pixmap-counted id none none h = refl
pixmap-counted id none (some r) h = omega arith
pixmap-counted id (some r) after h = rw (h) (omega arith)

-- What is held lives.
held_lives :
    (id : ℕ) (ids : List ℕ) (s : Screen) → Holds ids s → 0 < count id ids → IsLive id s.requests
held_lives id ids s holds some_held =
    let all = holds.1 id in count-Any id (live s.requests) (omega arith)

window_held : (s : Screen) → s.window_picture ≢ 0 → 0 < count s.window_picture (window_list s)
window_held s there = ground arith

Holds-IsSound : (ids : List ℕ) (s : Screen) → Holds ids s → IsSound s
Holds-IsSound ids s holds = (
  holds.0,
  λ there.
      let held = window_held s there in
      let all = holds.1 s.window_picture in
      count-Any s.window_picture (live s.requests) (omega arith),
)

pixmap_held : (r : Rendered) (ids : List ℕ) → 0 < count r.pixmap (r.pixmap ∷ ids)
pixmap_held r ids = ground arith

pub Holds-KeepsPixmap :
    (o : Option Rendered) (ids : List ℕ) (s : Screen)
    → Holds (pixmap_list o ++ ids) s
    → KeepsPixmap o s.requests
Holds-KeepsPixmap none ids s holds = tt
Holds-KeepsPixmap (some r) ids s holds =
    held_lives r.pixmap (r.pixmap ∷ ids) s holds (pixmap_held r ids)

-- A drawing keeps the account, whatever else is held.
Accounts-Holds :
    (before after : Option Rendered) (ids : List ℕ) (s s' : Screen)
    → Accounts before s after s'
    → Holds (pixmap_list before ++ ids) s
    → Holds (pixmap_list after ++ ids) s'
Accounts-Holds before after ids s s' (left, sound, window, stays) holds =
    let (sound', keeps) =
      sound (Holds-IsSound (pixmap_list before ++ ids) s holds)
        (Holds-KeepsPixmap before ids s holds) in
    (
      sound'.0,
      λ id.
          let all = holds.1 id in
          let now = ap (count id) left in
          let parts =
            count-append id (new_picture s s') (new_pixmap before after ++ live s.requests) in
          let more = count-append id (new_pixmap before after) (live s.requests) in
          let old = count-append id (pixmap_list before) ids in
          let new = count-append id (pixmap_list after) ids in
          let win = window-counted id s s' window in
          let pix = pixmap-counted id before after stays in omega arith,
    )

module _ (X : Server) (fresh : GivesNewIds X) {D : Type 0} (L : Lunasvg D) {N : Type 0} where
  pub draw-Holds :
      (item : Item N) (ids : List ℕ) (s : Screen)
      → Holds (pixmap_list item.svg.render ++ ids) s
      → Ends
          (λ (r : Item N × Screen). Holds (pixmap_list r.0.svg.render ++ ids) r.1)
          (draw X L item s)
  unfolding draw
  draw-Holds item ids s holds = draw_mode-Holds item.drawmode
    where
      draw_mode-Holds :
          (m : Mode)
          → Ends
              (λ (r : Item N × Screen). Holds (pixmap_list r.0.svg.render ++ ids) r.1)
              (elim m [ Mode.svg ↦ draw_as_svg X L item s | _ ↦ finished (item, s) ])
      draw_mode-Holds Mode.svg =
          Ends-mono (λ (r : Item N × Screen). Accounts item.svg.render s r.0.svg.render r.1)
            (λ (r : Item N × Screen). Holds (pixmap_list r.0.svg.render ++ ids) r.1)
            (draw_as_svg X L item s)
            (λ r accounts. Accounts-Holds item.svg.render r.0.svg.render ids s r.1 accounts holds)
            (draw_as_svg-Accounts X fresh L item s)
      draw_mode-Holds Mode.text = holds
      draw_mode-Holds Mode.shape = holds
      draw_mode-Holds Mode.idk = holds
