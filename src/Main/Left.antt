-- ===== src/Main/Left.antt =====
-- Which drawables a round of the loop of cpp/main.cpp leaves.
use edmcoverlay_for_linux.Base.{
  ℕ, suc, ◌≡◌, refl, Bool, false, not, ◌&&◌, [], ◌∷◌, if◌then◌else◌, arith,
}
use edmcoverlay_for_linux.Base.Text.{Bytes, codes, bytes_eq}
use edmcoverlay_for_linux.Base.Map.{Map}
use edmcoverlay_for_linux.Draw.{Item, is_command, is_expired}
use edmcoverlay_for_linux.Main.{Loop, run_command, erase_loop}

leaves-exit : (c : Bytes) (s : Loop) → (run_command c s).1 ≡ bytes_eq c (codes "exit")
unfolding run_command
leaves-exit c s = ground arith

module _ {N : Type 0} where
  -- It is to be drawn: no command, and not expired.
  abbrev pub stays : ℕ → Item N → Bool
  stays now i = not (is_command i) && not (is_expired now i.ttl)

  -- The drawables up to an "exit" that are to be drawn, and all from the "exit" on.
  abbrev pub survivors : (ℕ → ℕ) → ℕ → Map (Item N) → Map (Item N)
  survivors clock n [] = []
  survivors clock n ((key, i) ∷ rest) =
      let more = survivors clock (suc n) rest in
      if is_command i && bytes_eq i.command (codes "exit")
      then (key, i) ∷ rest
      else if stays (clock n) i
      then (key, i) ∷ more
      else more

  -- Whatever the mark and the variables are, the loop leaves what is not a command and has not
  -- expired, and from an "exit" on everything.
  pub erase_loop-survivors :
      (clock : ℕ → ℕ) (n : ℕ) (all_draws : Map (Item N)) (s : Loop) (skip : Bool)
      → (erase_loop clock n all_draws s skip).left ≡ survivors clock n all_draws
  unfolding erase_loop
  erase_loop-survivors clock n [] s skip = refl
  erase_loop-survivors clock n ((key, i) ∷ rest) s skip = ground (
    arith,
    leaves-exit i.command s,
    erase_loop-survivors clock (suc n) rest (run_command i.command s).0 false,
    erase_loop-survivors clock (suc n) rest s false,
    erase_loop-survivors clock (suc n) rest s (skip && i.already_rendered),
  )
