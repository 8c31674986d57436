-- ===== src/Emoji/Bitmap/Pixels.antt =====
-- The bytes of a pixel, as renderToPng of cpp/emoji_renderer/emoji_renderer.cpp writes them.
use edmcoverlay_for_linux.Base.{
  ℕ, zero, suc, ◌+◌, ◌≤◌, ◌<◌, ◌≡◌, refl, ◌∙◌, ap, List, [], ◌∷◌, length, get_or, set_at, arith,
  inl, inr, ◌⊎◌, ◌≢◌,
}
use edmcoverlay_for_linux.Emoji.Bitmap.{write_pixel}

abbrev pub Pixel : Type 0
Pixel = ℕ × ℕ × ℕ × ℕ

-- The red, green, blue and alpha bytes of a pixel.
abbrev pub pixel_at : List ℕ → ℕ → Pixel
pixel_at px i = (get_or px i 0, get_or px (i + 1) 0, get_or px (i + 2) 0, get_or px (i + 3) 0)

pub length-set_at : (i v : ℕ) (xs : List ℕ) → length (set_at i v xs) ≡ length xs
length-set_at i v [] = refl
length-set_at zero v (x ∷ xs) = refl
length-set_at (suc i) v (x ∷ xs) = ap suc (length-set_at i v xs)

get_or-set_at_same : (i v : ℕ) (xs : List ℕ) → i < length xs → get_or (set_at i v xs) i 0 ≡ v
get_or-set_at_same i v [] h = absurd (omega arith)
get_or-set_at_same zero v (x ∷ xs) h = refl
get_or-set_at_same (suc i) v (x ∷ xs) h = get_or-set_at_same i v xs (omega arith)

get_or-set_at_other : (i j v : ℕ) (xs : List ℕ) → i ≢ j → get_or (set_at i v xs) j 0 ≡ get_or xs j 0
get_or-set_at_other i j v [] h = refl
get_or-set_at_other zero zero v (x ∷ xs) h = absurd (h refl)
get_or-set_at_other zero (suc j) v (x ∷ xs) h = refl
get_or-set_at_other (suc i) zero v (x ∷ xs) h = refl
get_or-set_at_other (suc i) (suc j) v (x ∷ xs) h = get_or-set_at_other i j v xs (λ e. h (ap suc e))

pub length-write_pixel : (i : ℕ) (p : Pixel) (px : List ℕ) → length (write_pixel i p px) ≡ length px
unfolding write_pixel
length-write_pixel i (r, g, b, a) px =
    let p1 = set_at i r px in
    let p2 = set_at (i + 1) g p1 in
    let p3 = set_at (i + 2) b p2 in
    length-set_at (i + 3) a p3
    ∙ length-set_at (i + 2) b p2
    ∙ length-set_at (i + 1) g p1
    ∙ length-set_at i r px

get_or-write_pixel_other :
    (i j : ℕ) (p : Pixel) (px : List ℕ)
    → (j < i) ⊎ (i + 4 ≤ j)
    → get_or (write_pixel i p px) j 0 ≡ get_or px j 0
unfolding write_pixel
get_or-write_pixel_other i j (r, g, b, a) px h =
    let p1 = set_at i r px in
    let p2 = set_at (i + 1) g p1 in
    let p3 = set_at (i + 2) b p2 in
    let apart : (k : ℕ) → k < 4 → i + k ≢ j = (λ k small e. omega arith) in
    get_or-set_at_other (i + 3) j a p3 (apart 3 (omega arith))
    ∙ get_or-set_at_other (i + 2) j b p2 (apart 2 (omega arith))
    ∙ get_or-set_at_other (i + 1) j g p1 (apart 1 (omega arith))
    ∙ get_or-set_at_other i j r px (λ e. omega arith)

pub pixel_at-write_pixel_other :
    (i j : ℕ) (p : Pixel) (px : List ℕ)
    → (j + 4 ≤ i) ⊎ (i + 4 ≤ j)
    → pixel_at (write_pixel i p px) j ≡ pixel_at px j
pixel_at-write_pixel_other i j p px h =
    let same : (k : ℕ) → k < 4 → get_or (write_pixel i p px) (j + k) 0 ≡ get_or px (j + k) 0 =
      (λ k small.
        get_or-write_pixel_other i (j + k) p px
          (elim h [ inl l ↦ inl (omega arith) | inr g ↦ inr (omega arith) ])) in
    let first =
      get_or-write_pixel_other i j p px
        (elim h [ inl l ↦ inl (omega arith) | inr g ↦ inr (omega arith) ]) in
    let second = same 1 (omega arith) in
    let third = same 2 (omega arith) in
    let fourth = same 3 (omega arith) in rw (first, second, third, fourth) refl

pub pixel_at-write_pixel_same :
    (i : ℕ) (p : Pixel) (px : List ℕ) → i + 4 ≤ length px → pixel_at (write_pixel i p px) i ≡ p
unfolding write_pixel
pixel_at-write_pixel_same i (r, g, b, a) px h =
    let p1 = set_at i r px in
    let p2 = set_at (i + 1) g p1 in
    let p3 = set_at (i + 2) b p2 in
    let l1 = length-set_at i r px in
    let l2 = length-set_at (i + 1) g p1 ∙ l1 in
    let l3 = length-set_at (i + 2) b p2 ∙ l2 in
    let first =
      get_or-set_at_other (i + 3) i a p3 (λ e. omega arith)
      ∙ get_or-set_at_other (i + 2) i b p2 (λ e. omega arith)
      ∙ get_or-set_at_other (i + 1) i g p1 (λ e. omega arith)
      ∙ get_or-set_at_same i r px (omega arith) in
    let second =
      get_or-set_at_other (i + 3) (i + 1) a p3 (λ e. omega arith)
      ∙ get_or-set_at_other (i + 2) (i + 1) b p2 (λ e. omega arith)
      ∙ get_or-set_at_same (i + 1) g p1 (omega arith) in
    let third =
      get_or-set_at_other (i + 3) (i + 2) a p3 (λ e. omega arith)
      ∙ get_or-set_at_same (i + 2) b p2 (omega arith) in
    let fourth = get_or-set_at_same (i + 3) a p3 (omega arith) in
    rw (first, second, third, fourth) refl
