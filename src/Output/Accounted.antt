-- ===== src/Output/Accounted.antt =====
-- The drawables of cpp/main.cpp and the screen of cpp/xoverlayoutput.cpp, along whatever happens to
-- them.
use edmcoverlay_for_linux.Base.{
  ℕ, ◌+◌, ◌≡◌, ◌≢◌, refl, sym, subst, ap, ◌∙◌, ◌++◌, true, false, Option, none, some, List, [], ◌∷◌,
  inl, inr, Any, Bool-cases, Option-cases, arith, Ordering,
}
use edmcoverlay_for_linux.Base.Text.{
  Bytes, bytes_eq, bytes_eq_iff, bytes_compare, bytes_compare_eq, bytes_compare_refl,
}
use edmcoverlay_for_linux.Base.Map.{
  Map, find, set, erase, IsSorted, find-Above, Above-trans, Ordering-cases,
}
use edmcoverlay_for_linux.Draw.{Item, Rendered, set_already_rendered}
use edmcoverlay_for_linux.Output.{Screen}
use edmcoverlay_for_linux.Output.Live.{live}
use edmcoverlay_for_linux.Output.Freed.{AreDistinct, live-AreDistinct, freed}
use edmcoverlay_for_linux.Output.Held.{
  count, count-append, count-without, pixmaps, pixmap_list, Holds, Holds-KeepsPixmap,
}
use edmcoverlay_for_linux.Output.Drawing.{destroy}
use edmcoverlay_for_linux.Output.Frame.{erase_drawn, put_drawn, mark_drawn}

pub Holds-reordered :
    (ids ids' : List ℕ) (s : Screen)
    → ((id : ℕ) → count id ids ≡ count id ids')
    → Holds ids s
    → Holds ids' s
Holds-reordered ids ids' s same holds =
    (holds.0, λ id. let all = holds.1 id in let one = same id in omega arith)

AreDistinct-nonzero : (id : ℕ) (xs : List ℕ) → AreDistinct xs → Any (◌≡◌ id) xs → id ≢ 0
AreDistinct-nonzero id [] d h z = absurd h
AreDistinct-nonzero id (x ∷ xs) d (inl e) z = d.0.0 (sym e ∙ z)
AreDistinct-nonzero id (x ∷ xs) d (inr h) z = AreDistinct-nonzero id xs d.1 h z

apart : (key j : Bytes) → bytes_compare key j ≡ Ordering.gt → bytes_eq j key ≡ false
apart key j gt = ground (arith, bytes_eq_iff j key, bytes_compare_refl key)

module _ {N : Type 0} where
  -- A drawable that goes gives back what it held.
  destroy-Holds :
      (item : Item N) (ids : List ℕ) (s : Screen) (o : Option Rendered)
      → item.svg.render ≡ o
      → Holds (pixmap_list o ++ ids) s
      → Holds ids (record s { requests = destroy item s.requests })
  unfolding destroy
  destroy-Holds item ids s none kept holds = rw (kept, destroy) holds
  destroy-Holds item ids s (some r) kept holds =
      let there = Holds-KeepsPixmap (some r) ids s holds in
      let nonzero =
        AreDistinct-nonzero r.pixmap (live s.requests) (live-AreDistinct s.requests holds.0)
          there in
      subst (λ rs. Holds ids (record s { requests = rs }))
        (sym (freed item r s.requests kept nonzero))
        (
          (there, holds.0),
          λ id.
              let all = holds.1 id in
              let out = count-without id r.pixmap (live s.requests) there in omega arith,
        )

  erase-counted :
      (id : ℕ) (key : Bytes) (draws : Map (Item N)) (item : Item N)
      → find key draws ≡ some item
      → count id (pixmaps draws)
        ≡ count id (pixmap_list item.svg.render) + count id (pixmaps (erase key draws))
  unfolding find erase
  erase-counted id key [] item h = absurd (cc)
  erase-counted id key ((k, i) ∷ draws) item h = elim (Bool-cases (bytes_eq k key)) [
    | inl here ↦
        let e : some i ≡ some item = rw (here, find) at h in
        let e' : i ≡ item = cc in
        rw (here, erase)
          (subst
            (λ j.
              count id (pixmap_list i.svg.render ++ pixmaps draws)
              ≡ count id (pixmap_list j.svg.render) + count id (pixmaps draws))
            e' (count-append id (pixmap_list i.svg.render) (pixmaps draws)))
    | inr later ↦
        let h' = rw (later, find) at h in
        let rest = erase-counted id key draws item h' in
        let here = count-append id (pixmap_list i.svg.render) (pixmaps draws) in
        let left = count-append id (pixmap_list i.svg.render) (pixmaps (erase key draws)) in
        rw (later, erase) (omega arith)
  ]

  pub erase_drawn-Holds :
      (key : Bytes) (draws : Map (Item N)) (s : Screen)
      → Holds (pixmaps draws) s
      → Holds (pixmaps (erase_drawn key draws s).0) (erase_drawn key draws s).1
  unfolding erase_drawn
  erase_drawn-Holds key draws s holds = elim (Option-cases (find key draws)) [
    | inl absent ↦ rw (absent, erase_drawn) holds
    | inr (item, here) ↦
        let split =
          Holds-reordered (pixmaps draws) (pixmap_list item.svg.render ++ pixmaps (erase key draws))
            s
            (λ id.
              erase-counted id key draws item here
              ∙ sym (count-append id (pixmap_list item.svg.render) (pixmaps (erase key draws))))
            holds in
        rw (here, erase_drawn)
          (destroy-Holds item (pixmaps (erase key draws)) s item.svg.render refl split)
  ]

  abbrev held_there : Option (Item N) → List ℕ
  held_there none = []
  held_there (some item) = pixmap_list item.svg.render

  set-counted :
      (id : ℕ) (key : Bytes) (item : Item N) (draws : Map (Item N))
      → IsSorted draws
      → count id (pixmaps (set key item draws)) + count id (held_there (find key draws))
        ≡ count id (pixmap_list item.svg.render) + count id (pixmaps draws)
  unfolding find set
  set-counted id key item [] sorted =
      let one = count-append id (pixmap_list item.svg.render) [] in omega arith
  set-counted id key item ((j, w) ∷ draws) sorted =
      let first = count-append id (pixmap_list w.svg.render) (pixmaps draws) in
      elim (Ordering-cases (bytes_compare key j)) [
        | inl lt ↦
            let absent =
              find-Above key ((j, w) ∷ draws) (lt, Above-trans key j draws lt sorted.0) in
            let front =
              count-append id (pixmap_list item.svg.render)
                (pixmap_list w.svg.render ++ pixmaps draws) in
            rw (absent, set, lt) (omega arith)
        | inr (inl eq) ↦
            let same : bytes_eq j key ≡ true =
              (bytes_eq_iff j key).1 (sym (bytes_compare_eq key j eq)) in
            let front = count-append id (pixmap_list item.svg.render) (pixmaps draws) in
            rw (same, find, set, eq) (omega arith)
        | inr (inr gt) ↦
            let other : bytes_eq j key ≡ false = apart key j gt in
            let rest = set-counted id key item draws sorted.1 in
            let front = count-append id (pixmap_list w.svg.render) (pixmaps (set key item draws)) in
            rw (other, find, set, gt) (omega arith)
      ]

  pub put_drawn-Holds :
      (key : Bytes) (item : Item N) (draws : Map (Item N)) (s : Screen)
      → item.svg.render ≡ none
      → IsSorted draws
      → Holds (pixmaps draws) s
      → Holds (pixmaps (put_drawn key item draws s).0) (put_drawn key item draws s).1
  unfolding put_drawn
  put_drawn-Holds key item draws s bare sorted holds = elim (Option-cases (find key draws)) [
    | inl absent ↦
        rw (absent, put_drawn)
          (Holds-reordered (pixmaps draws) (pixmaps (set key item draws)) s
            (λ id.
              let all = set-counted id key item draws sorted in
              let nothing : held_there (find key draws) ≡ [] = rw (absent) refl in
              let new : pixmap_list item.svg.render ≡ [] = rw (bare) refl in
              let none_there = ap (count id) nothing in
              let none_new = ap (count id) new in omega arith)
            holds)
    | inr (old, here) ↦
        let split =
          Holds-reordered (pixmaps draws)
            (pixmap_list old.svg.render ++ pixmaps (set key item draws)) s
            (λ id.
              let all = set-counted id key item draws sorted in
              let there : held_there (find key draws) ≡ pixmap_list old.svg.render =
                rw (here) refl in
              let new : pixmap_list item.svg.render ≡ [] = rw (bare) refl in
              let count_there = ap (count id) there in
              let none_new = ap (count id) new in
              let both =
                count-append id (pixmap_list old.svg.render) (pixmaps (set key item draws)) in
              omega arith)
            holds in
        rw (here, put_drawn)
          (destroy-Holds old (pixmaps (set key item draws)) s old.svg.render refl split)
  ]

  pub mark_drawn-Holds :
      (key : Bytes) (draws : Map (Item N)) (s : Screen)
      → IsSorted draws
      → Holds (pixmaps draws) s
      → Holds (pixmaps (mark_drawn key draws)) s
  unfolding mark_drawn set_already_rendered
  mark_drawn-Holds key draws s sorted holds = elim (Option-cases (find key draws)) [
    | inl absent ↦ rw (absent, mark_drawn) holds
    | inr (item, here) ↦
        rw (here, mark_drawn)
          (Holds-reordered (pixmaps draws) (pixmaps (set key (set_already_rendered item) draws)) s
            (λ id.
              let all = set-counted id key (set_already_rendered item) draws sorted in
              let there : held_there (find key draws) ≡ pixmap_list item.svg.render =
                rw (here) refl in
              let count_there = ap (count id) there in omega arith)
            holds)
  ]
