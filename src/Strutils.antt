-- ===== src/Strutils.antt =====
-- cpp/common/strutils.h
pub mod Search
pub mod Trim
pub mod Tokens
use edmcoverlay_for_linux.Base.{
  ℕ, ◌+◌, ◌-◌, Bool, true, false, not, ◌&&◌, ◌||◌, List, [], ◌∷◌, ◌++◌, map, if◌then◌else◌, leb,
  ◌==◌, length, take, drop, replicate, any, is_empty,
}
use edmcoverlay_for_linux.Base.Text.{Bytes, bytes_eq}

-- ::tolower in the "C" locale
unfoldable pub lower_byte : ℕ → ℕ
lower_byte c = if leb b'A' c && leb c b'Z' then c + 32 else c

-- toLower
unfoldable pub to_lower : Bytes → Bytes
unfolding lower_byte
to_lower = map lower_byte

-- endsWith: fullString.compare(length - ending.length(), ending.length(), ending) == 0
unfoldable pub ends_with : Bytes → Bytes → Bool
ends_with full_string ending =
    if leb (length ending) (length full_string)
    then bytes_eq (take (length ending) (drop (length full_string - length ending) full_string))
        ending
    else false

unfoldable pub starts_with : Bytes → Bytes → Bool
starts_with [] s = true
starts_with (w ∷ ws) [] = false
starts_with (w ∷ ws) (c ∷ cs) = w == c && starts_with ws cs

-- strcontains: std::string::npos != src.find(what)
unfoldable pub strcontains : Bytes → Bytes → Bool
unfolding starts_with
strcontains [] what = starts_with what []
strcontains (c ∷ cs) what = starts_with what (c ∷ cs) || strcontains cs what

-- strcontains for one of several
unfoldable pub strcontains_any : Bytes → List Bytes → Bool
unfolding strcontains
strcontains_any src [] = false
strcontains_any src (w ∷ what) = strcontains src w || strcontains_any src what

-- std::getline until it fails, with the bytes read since the last delimiter
unfoldable pub getlines : ℕ → Bytes → Bytes → List Bytes
getlines delimiter tok [] = if is_empty tok then [] else tok ∷ []
getlines delimiter tok (c ∷ rest) =
    let next = getlines delimiter [] rest in
    let more = getlines delimiter (tok ++ (c ∷ [])) rest in
    if c == delimiter then tok ∷ next else more

unfoldable pub split : Bytes → ℕ → List Bytes
unfolding getlines
split str delimiter = getlines delimiter [] str

-- " \t\n\r\f\v"
abbrev pub blanks : Bytes
blanks = 32 ∷ 9 ∷ 10 ∷ 13 ∷ 12 ∷ 11 ∷ []

abbrev pub is_in : Bytes → ℕ → Bool
is_in t c = any (λ b. b == c) t

-- s.erase(0, s.find_first_not_of(t))
unfoldable pub ltrim : Bytes → Bytes → Bytes
ltrim t [] = []
ltrim t (c ∷ cs) = if is_in t c then ltrim t cs else c ∷ cs

-- s.erase(s.find_last_not_of(t) + 1)
unfoldable pub rtrim : Bytes → Bytes → Bytes
rtrim t [] = []
rtrim t (c ∷ cs) = let rest = rtrim t cs in if is_empty rest && is_in t c then [] else c ∷ rest

unfoldable pub trim : Bytes → Bytes → Bytes
unfolding ltrim rtrim
trim t s = ltrim t (rtrim t s)

unfoldable pub replace_tabs_with_spaces : Bytes → ℕ → Bytes
replace_tabs_with_spaces [] n = []
replace_tabs_with_spaces (c ∷ cs) n =
    (if c == b'\t' then replicate n 32 else c ∷ []) ++ replace_tabs_with_spaces cs n
