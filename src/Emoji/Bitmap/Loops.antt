-- ===== src/Emoji/Bitmap/Loops.antt =====
-- The loops of renderToPng of cpp/emoji_renderer/emoji_renderer.cpp over the pixels of a glyph.
use native.Mathlib.Nat.{mul-le-mul_right, suc-mul}
use edmcoverlay_for_linux.Base.{
  ℕ, zero, suc, ◌+◌, ◌*◌, ◌≤◌, ◌<◌, ◌≡◌, refl, ◌∙◌, ap, List, length, for_below, arith, inl, inr,
  Option, some, true, ltb, ◌⊎◌, replicate, compare,
}
use edmcoverlay_for_linux.Base.Map.{Ordering-cases}
use edmcoverlay_for_linux.Emoji.Bitmap.{put_pixel, write_pixel}
use edmcoverlay_for_linux.Emoji.Bitmap.Pixels.{
  Pixel, pixel_at, length-write_pixel, pixel_at-write_pixel_same, pixel_at-write_pixel_other,
}

for_below-ext {ℓ} :
    {A : Type ℓ} (n : ℕ) (f g : ℕ → A → A) (a : A)
    → ((i : ℕ) (b : A) → i < n → f i b ≡ g i b)
    → for_below n f a ≡ for_below n g a
unfolding for_below
for_below-ext zero f g a h = refl
for_below-ext (suc n) f g a h =
    h n (for_below n f a) (omega arith)
    ∙ ap (g n) (for_below-ext n f g a (λ i b below. h i b (omega arith)))

before_or_last : (x n : ℕ) → x < suc n → (x < n) ⊎ (x ≡ n)
before_or_last x n h = elim (Ordering-cases (compare x n)) [
  | inl lt ↦ inl (ground arith)
  | inr (inl eq) ↦ inr (ground arith)
  | inr (inr gt) ↦ absurd (ground arith)
]

pub cell_below : (w h y x : ℕ) → y < h → x < w → y * w + x < h * w
cell_below w h y x above beside =
    let higher = mul-le-mul_right {m = suc y} {n = h} w (omega arith) in
    let next = suc-mul y w in omega arith

pub length-replicate : (n a : ℕ) → length (replicate n a) ≡ n
length-replicate zero a = refl
length-replicate (suc n) a = omega (arith, length-replicate n a)

-- Loops that may fail, and do not, are those that cannot.
for_below-some {ℓ} :
    {A : Type ℓ} (Q : A → Type 0) (n : ℕ) (f : ℕ → Option A → Option A) (g : ℕ → A → A) (a : A)
    → ((i : ℕ) (b : A) → i < n → Q b → (f i (some b) ≡ some (g i b)) × Q (g i b))
    → Q a
    → (for_below n f (some a) ≡ some (for_below n g a)) × Q (for_below n g a)
unfolding for_below
for_below-some Q zero f g a step q = (refl, q)
for_below-some Q (suc n) f g a step q =
    let (e, kept) = for_below-some Q n f g a (λ i b below. step i b (omega arith)) q in
    let (last, kept') = step n (for_below n g a) (omega arith) kept in (ap (f n) e ∙ last, kept')

put_pixel-inside :
    (i : ℕ) (p : Pixel) (px : List ℕ)
    → i + 4 ≤ length px
    → put_pixel i p (some px) ≡ some (write_pixel i p px)
unfolding put_pixel
put_pixel-inside i p px h =
    let there : ltb (i + 3) (length px) ≡ true = ground arith in rw (there) refl

-- The loops write one pixel for each cell, row by row.
module _ (w : ℕ) (pixel : ℕ → ℕ → Pixel) where
  abbrev pub cell : ℕ → ℕ → ℕ
  cell y x = (y * w + x) * 4

  abbrev pub row : ℕ → ℕ → List ℕ → List ℕ
  unfolding for_below
  row y n px = for_below n (λ x. write_pixel (cell y x) (pixel y x)) px

  abbrev pub table : ℕ → List ℕ → List ℕ
  unfolding for_below
  table h px = for_below h (λ y. row y w) px

  length-row : (y n : ℕ) (px : List ℕ) → length (row y n px) ≡ length px
  unfolding for_below
  length-row y zero px = refl
  length-row y (suc n) px =
      length-write_pixel (cell y n) (pixel y n) (row y n px) ∙ length-row y n px

  length-table : (h : ℕ) (px : List ℕ) → length (table h px) ≡ length px
  unfolding for_below
  length-table zero px = refl
  length-table (suc h) px = length-row h w (table h px) ∙ length-table h px

  row-other : (y n j : ℕ) (px : List ℕ) → j + 4 ≤ cell y 0 → pixel_at (row y n px) j ≡ pixel_at px j
  unfolding for_below
  row-other y zero j px h = refl
  row-other y (suc n) j px h =
      pixel_at-write_pixel_other (cell y n) j (pixel y n) (row y n px) (inl (omega arith))
      ∙ row-other y n j px h

  row-pixel :
      (y n x : ℕ) (px : List ℕ)
      → x < n
      → cell y n ≤ length px
      → pixel_at (row y n px) (cell y x) ≡ pixel y x
  unfolding for_below
  row-pixel y zero x px below long = absurd (omega arith)
  row-pixel y (suc n) x px below long =
      let earlier = row y n px in
      let same_length = length-row y n px in
      elim (before_or_last x n below) [
        | inl before ↦
            pixel_at-write_pixel_other (cell y n) (cell y x) (pixel y n) earlier (inl (omega arith))
            ∙ row-pixel y n x px before (omega arith)
        | inr e ↦ rw (e) (pixel_at-write_pixel_same (cell y n) (pixel y n) earlier (omega arith))
      ]

  pub table-pixel :
      (h y x : ℕ) (px : List ℕ)
      → y < h
      → x < w
      → h * w * 4 ≤ length px
      → pixel_at (table h px) (cell y x) ≡ pixel y x
  unfolding for_below
  table-pixel zero y x px above below long = absurd (omega arith)
  table-pixel (suc h) y x px above below long =
      let next = suc-mul h w in
      let same_length = length-table h px in
      elim (before_or_last y h above) [
        | inl before ↦
            let higher = mul-le-mul_right {m = suc y} {n = h} w (omega arith) in
            let at_y = suc-mul y w in
            row-other h w (cell y x) (table h px) (omega arith)
            ∙ table-pixel h y x px before below (omega arith)
        | inr e ↦ rw (e) (row-pixel h w x (table h px) below (omega arith))
      ]

  -- The wrapped index of the source is the cell's, in a picture that is small enough.
  module _ (h : ℕ) (index : ℕ → ℕ → ℕ)
      (index_cell : (y x : ℕ) → y < h → x < w → index y x ≡ cell y x) (px : List ℕ) where
    pub indexed-table :
        for_below h (λ y. for_below w (λ x. write_pixel (index y x) (pixel y x))) px ≡ table h px
    unfolding row for_below
    indexed-table =
        for_below-ext h (λ y. for_below w (λ x. write_pixel (index y x) (pixel y x))) (λ y. row y w)
          px
          (λ y q above.
            for_below-ext w (λ x. write_pixel (index y x) (pixel y x))
              (λ x. write_pixel (cell y x) (pixel y x)) q
              (λ x r beside. ap (λ i. write_pixel i (pixel y x) r) (index_cell y x above beside)))

    -- Where the pixels are enough, no write is past their end.
    pub checked-table :
        h * w * 4 ≤ length px
        → (for_below h (λ y. for_below w (λ x. put_pixel (index y x) (pixel y x))) (some px)
            ≡ some (table h px))
          × (length (table h px) ≡ length px)
    unfolding for_below
    checked-table long =
        let writes =
          for_below-some (λ q. length q ≡ length px) h
            (λ y. for_below w (λ x. put_pixel (index y x) (pixel y x)))
            (λ y. for_below w (λ x. write_pixel (index y x) (pixel y x))) px
            (λ y q above same.
              for_below-some (λ r. length r ≡ length px) w (λ x. put_pixel (index y x) (pixel y x))
                (λ x. write_pixel (index y x) (pixel y x)) q
                (λ x r beside same'.
                  let at_cell = index_cell y x above beside in
                  let inside = cell_below w h y x above beside in
                  (
                    put_pixel-inside (index y x) (pixel y x) r (omega arith),
                    length-write_pixel (index y x) (pixel y x) r ∙ same',
                  ))
                same)
            refl in
        (writes.0 ∙ ap some indexed-table, length-table h px)
