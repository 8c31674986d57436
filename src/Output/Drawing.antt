-- ===== src/Output/Drawing.antt =====
-- The drawing of SVG by XPrivateAccess, cpp/xoverlayoutput.cpp.
use edmcoverlay_for_linux.Base.{
  ℕ, ◌==◌, true, none, some, List, ◌∷◌, if◌then◌else◌, is_empty, map_outcome, Outcome, finished,
  undefined,
}
use edmcoverlay_for_linux.Base.Text.{Bytes}
use edmcoverlay_for_linux.Draw.{Item, Mode, Rendered}
use edmcoverlay_for_linux.Output.{Request, Server, Lunasvg, Screen}
use edmcoverlay_for_linux.Output.ManagedId.{ManagedId, no_id, is_initialized, reset, moved}
use edmcoverlay_for_linux.Output.Fonts.{install_normal_font_file_to_luna}

-- TPixmapWithDims
pub record PixmapWithDims : Type 0 where
  pub pixmap : ManagedId
  pub width : ℕ
  pub height : ℕ

abbrev pub no_pixmap : PixmapWithDims
no_pixmap = record { pixmap = no_id; width = 0; height = 0 }

module _ (X : Server) where
  -- AllocateId of a pixmap or a picture.
  unfoldable pub allocate_id : (ℕ → Request) → List Request → ManagedId × List Request
  allocate_id create requests =
      let id = X.new_id requests in (record { id = id; has_free = true }, create id ∷ requests)

  -- From the bitmap to the pixmap that holds it. Without an image the pixmap is freed, but the owner of
  -- the image ends too, and calls XDestroyImage, which reads through the null pointer.
  unfoldable pub bitmap_to_pixmap : ℕ → ℕ → List Request → Outcome (PixmapWithDims × List Request)
  unfolding allocate_id reset moved is_initialized
  bitmap_to_pixmap width height requests =
      let (pixmap, requests') = allocate_id Request.create_pixmap requests in
      if X.create_image width height
      then finished (
        record { pixmap = (moved pixmap).0; width = width; height = height },
        (reset Request.free_pixmap (moved pixmap).1
            (Request.put_image pixmap.id width height ∷ requests')).1,
      )
      else undefined

  -- g_windowOpaqueDestination, made when it is first needed.
  unfoldable pub with_window_picture : Screen → Screen
  unfolding allocate_id
  with_window_picture s =
      if s.window_picture == 0
      then (let (picture, requests) =
            allocate_id (λ id. Request.create_picture id none) s.requests in
          record s { requests = requests; window_picture = picture.id })
      else s

  -- The closure that drawAsSvg keeps in the drawable.
  unfoldable pub call_render : {N : Type 0} → Item N → Rendered → Screen → Screen
  unfolding with_window_picture allocate_id reset is_initialized
  call_render item r s =
      let (source, requests) =
        allocate_id (λ id. Request.create_picture id (some r.pixmap)) s.requests in
      let s' = with_window_picture (record s { requests = requests }) in
      let drawn =
        Request.composite source.id s'.window_picture item.x item.y r.width r.height
        ∷ s'.requests in
      record s' { requests = (reset Request.free_picture source drawn).1 }

  -- What drawAsSvg does with the pixmap: it keeps and draws it, if there is one.
  unfoldable pub keep_and_draw :
      {N : Type 0} → Item N → Screen → PixmapWithDims × List Request → Item N × Screen
  unfolding call_render is_initialized
  keep_and_draw item s (p, requests) =
      let r : Rendered = record { pixmap = p.pixmap.id; width = p.width; height = p.height } in
      let item' = record item { svg = record (item.svg) { render = some r } } in
      if is_initialized p.pixmap
      then (item', call_render item' r (record s { requests = requests }))
      else (item, record s { requests = requests })

  module _ {D : Type 0} (L : Lunasvg D) where
    -- RenderXPixmapFromSvgText
    unfoldable pub render_x_pixmap_from_svg_text :
        Bytes → Bytes → List Request → Outcome (PixmapWithDims × List Request)
    unfolding bitmap_to_pixmap
    render_x_pixmap_from_svg_text svg css requests =
        if is_empty svg then finished (no_pixmap, requests) else elim (L.load_from_data svg) [
          | none ↦ undefined
          | some document ↦
              elim (L.render_to_bitmap
                (if is_empty css then document else L.apply_style_sheet css document)) [
                  | none ↦ finished (no_pixmap, requests)
                  | some (width, height) ↦ bitmap_to_pixmap width height requests
                ]
        ]

    -- drawAsSvg
    unfoldable pub draw_as_svg : {N : Type 0} → Item N → Screen → Outcome (Item N × Screen)
    unfolding install_normal_font_file_to_luna render_x_pixmap_from_svg_text keep_and_draw
        call_render map_outcome
    draw_as_svg item s =
        let fonts =
          (install_normal_font_file_to_luna L.add_font_face item.svg.font_file s.installed).1 in
        let s' = record s { installed = fonts } in
        elim item.svg.render [
          | some r ↦ finished (item, call_render item r s')
          | none ↦
              map_outcome (keep_and_draw item s')
                (render_x_pixmap_from_svg_text item.svg.svg item.svg.css s'.requests)
        ]

    -- XOverlayOutput::draw
    unfoldable pub draw : {N : Type 0} → Item N → Screen → Outcome (Item N × Screen)
    unfolding draw_as_svg
    draw item s = elim item.drawmode [ Mode.svg ↦ draw_as_svg item s | _ ↦ finished (item, s) ]

-- The destructor of a drawable: the closure goes, and its pixmap with it.
unfoldable pub destroy : {N : Type 0} → Item N → List Request → List Request
unfolding reset is_initialized
destroy item requests = elim item.svg.render [
  | none ↦ requests
  | some r ↦ (reset Request.free_pixmap (record { id = r.pixmap; has_free = true }) requests).1
]
