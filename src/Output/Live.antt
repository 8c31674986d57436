-- ===== src/Output/Live.antt =====
-- The resources that live on the X server after a list of requests, for cpp/xoverlayoutput.cpp.
use edmcoverlay_for_linux.Base.{
  ℕ, ◌≡◌, ◌≢◌, ◌==◌, List, [], ◌∷◌, if◌then◌else◌, All, Any, arith, some, none,
}
use edmcoverlay_for_linux.Output.{Request, Server}

abbrev pub without : ℕ → List ℕ → List ℕ
without id [] = []
without id (x ∷ xs) = if x == id then xs else x ∷ without id xs

-- The ids made and not freed since, the latest first.
abbrev pub live : List Request → List ℕ
live [] = []
live (Request.create_pixmap id ∷ rs) = id ∷ live rs
live (Request.create_picture id drawable ∷ rs) = id ∷ live rs
live (Request.free_pixmap id ∷ rs) = without id (live rs)
live (Request.free_picture id ∷ rs) = without id (live rs)
live (_ ∷ rs) = live rs

abbrev pub IsLive : ℕ → List Request → Type 0
IsLive id rs = Any (◌≡◌ id) (live rs)

-- What a request needs of those before it: a new id is new, and what is used or freed lives.
abbrev pub IsProper : Request → List Request → Type 0
IsProper (Request.create_pixmap id) rs = (id ≢ 0) × All (◌≢◌ id) (live rs)
IsProper (Request.create_picture id none) rs = (id ≢ 0) × All (◌≢◌ id) (live rs)
IsProper (Request.create_picture id (some pixmap)) rs =
    (id ≢ 0) × All (◌≢◌ id) (live rs) × IsLive pixmap rs
IsProper (Request.free_pixmap id) rs = IsLive id rs
IsProper (Request.free_picture id) rs = IsLive id rs
IsProper (Request.put_image pixmap width height) rs = IsLive pixmap rs
IsProper (Request.composite source destination x y width height) rs =
    IsLive source rs × IsLive destination rs
IsProper _ rs = Unit

abbrev pub AreProper : List Request → Type 0
AreProper [] = Unit
AreProper (r ∷ rs) = IsProper r rs × AreProper rs

-- What Xlib documents of the ids that it gives: none is None, and none is in use.
abbrev pub GivesNewIds : Server → Type 0
GivesNewIds X = (rs : List Request) → (X.new_id rs ≢ 0) × All (◌≢◌ (X.new_id rs)) (live rs)

pub without_head : (id : ℕ) (ids : List ℕ) → without id (id ∷ ids) ≡ ids
without_head id ids = ground arith

pub without_second : (a id : ℕ) (ids : List ℕ) → a ≢ id → without id (a ∷ id ∷ ids) ≡ a ∷ ids
without_second a id ids h = ground arith
