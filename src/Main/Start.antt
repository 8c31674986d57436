-- ===== src/Main/Start.antt =====
-- The arguments of main, cpp/main.cpp.
use edmcoverlay_for_linux.Base.{
  ℕ, suc, ◌^◌, ◌<◌, ◌≤◌, ◌≡◌, ◌≢◌, refl, sym, ap, ◌∙◌, subst, Option, none, some, List, [], ◌∷◌,
  if◌then◌else◌, leb, ltb, ◌==◌, All, arith, Outcome, finished, undefined, bind_outcome,
}
use edmcoverlay_for_linux.Base.Int.{ℤ, pos, negsuc, sub_ℕ, pos_part, neg_part}
use edmcoverlay_for_linux.Base.Text.{
  Bytes, IsDigit, value_from, to_string, int_to_string, to_string-value, to_string-IsDigit,
  to_string-ne,
}
use edmcoverlay_for_linux.Strutils.{blanks, trim}
use edmcoverlay_for_linux.Session.Framing.{skip_spaces, is_space, leading_value}
use edmcoverlay_for_linux.Session.Framing.Number.{leading_value-value_from}

abbrev int_of : ℕ → Outcome ℤ
int_of v = if ltb v (2 ^ 31) then finished (pos v) else undefined

abbrev negative_int : ℕ → Outcome ℤ
negative_int v = if leb v (2 ^ 31) then finished (sub_ℕ 0 v) else undefined

-- The number behind the blanks: a sign, if there is one, and digits. Without digits it is 0.
unfoldable pub signed_int : Bytes → Outcome ℤ
unfolding leading_value
signed_int [] = finished (pos 0)
signed_int (c ∷ cs) =
    if c == b'-'
    then negative_int (leading_value 0 cs)
    else if c == b'+'
    then int_of (leading_value 0 cs)
    else int_of (leading_value 0 (c ∷ cs))

-- atoi, which is undefined for what is no int.
unfoldable pub atoi : Bytes → Outcome ℤ
unfolding skip_spaces signed_int
atoi text = signed_int (skip_spaces text)

-- What main goes on with.
pub record Launch : Type 0 where
  pub program_name : Bytes
  pub x : ℤ
  pub y : ℤ
  pub window_width : ℤ
  pub window_height : ℤ

unfoldable pub launch : Bytes → Bytes → Bytes → Bytes → Bytes → Outcome (Option Launch)
unfolding atoi bind_outcome
launch program_name x y w h = bind_outcome (atoi w) (λ window_width.
    bind_outcome (atoi h) (λ window_height. bind_outcome (atoi x) (λ left.
      bind_outcome (atoi y) (λ top. finished (
        some (record {
          program_name = program_name;
          x = left;
          y = top;
          window_width = window_width;
          window_height = window_height;
        }))))))

-- main, up to the overlay: `none` where it prints the usage and returns 1.
unfoldable pub start : List Bytes → Outcome (Option Launch)
unfolding launch trim
start (program ∷ x ∷ y ∷ w ∷ h ∷ []) = launch [] x y w h
start (program ∷ x ∷ y ∷ w ∷ h ∷ name ∷ []) = launch (trim blanks name) x y w h
start _ = finished none

abbrev pub IsInt : ℤ → Type 0
IsInt z = (pos_part z < 2 ^ 31) × (neg_part z ≤ 2 ^ 31)

signed_int-digits :
    (cs : Bytes)
    → All IsDigit cs
    → cs ≢ []
    → value_from 0 cs < 2 ^ 31
    → atoi cs ≡ finished (pos (value_from 0 cs))
unfolding atoi skip_spaces is_space signed_int
signed_int-digits [] d ne h = absurd (ne refl)
signed_int-digits (c ∷ cs) d ne h = ground (arith, leading_value-value_from 0 (c ∷ cs) d)

negative_lem :
    (cs : Bytes) (n : ℕ)
    → leading_value 0 cs ≡ suc n
    → suc n ≤ 2 ^ 31
    → atoi (b'-' ∷ cs) ≡ finished (negsuc n)
unfolding atoi skip_spaces is_space signed_int
negative_lem cs n e h = rw (e) (ground arith)

-- An int that the caller has printed is read back.
atoi-int_to_string : (z : ℤ) → IsInt z → atoi (int_to_string z) ≡ finished z
unfolding int_to_string
atoi-int_to_string (pos n) (small, h) =
    signed_int-digits (to_string n) (to_string-IsDigit n) (to_string-ne n)
      (subst (λ m. m < 2 ^ 31) (sym (to_string-value n)) small)
    ∙ ap (λ v. finished (pos v)) (to_string-value n)
atoi-int_to_string (negsuc n) (h, small) =
    negative_lem (to_string (suc n)) n
      (leading_value-value_from 0 (to_string (suc n)) (to_string-IsDigit (suc n))
        ∙ to_string-value (suc n))
      small

launch-int_to_string :
    (name : Bytes) (x y w h : ℤ)
    → IsInt x
    → IsInt y
    → IsInt w
    → IsInt h
    → launch name (int_to_string x) (int_to_string y) (int_to_string w) (int_to_string h)
      ≡ finished
          (some (record { program_name = name; x = x; y = y; window_width = w; window_height = h }))
unfolding launch bind_outcome
launch-int_to_string name x y w h ix iy iw ih =
    rw
      (
        atoi-int_to_string w iw,
        atoi-int_to_string h ih,
        atoi-int_to_string x ix,
        atoi-int_to_string y iy,
      )
      refl

-- Four printed ints, and perhaps a name, are read back: the place and the size of the window, and the
-- name without the blanks around it.
start-int_to_string :
    (program name : Bytes) (x y w h : ℤ)
    → IsInt x
    → IsInt y
    → IsInt w
    → IsInt h
    → (start (program ∷ int_to_string x ∷ int_to_string y ∷ int_to_string w ∷ int_to_string h ∷ [])
        ≡ finished (
            some (record { program_name = []; x = x; y = y; window_width = w; window_height = h })))
      × (start (
            program
            ∷ int_to_string x
            ∷ int_to_string y
            ∷ int_to_string w
            ∷ int_to_string h
            ∷ name
            ∷ [])
          ≡ finished (
              some (record {
                program_name = trim blanks name;
                x = x;
                y = y;
                window_width = w;
                window_height = h;
              })))
unfolding start
start-int_to_string program name x y w h ix iy iw ih = (
  launch-int_to_string [] x y w h ix iy iw ih,
  launch-int_to_string (trim blanks name) x y w h ix iy iw ih,
)
