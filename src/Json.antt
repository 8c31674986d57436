-- ===== src/Json.antt =====
-- What the program uses of nlohmann::json (cpp/drawables.h, cpp/svgbuilder.cpp). The library is not
-- part of the repository, so its values and calls are the fields of a record that the model takes.
use edmcoverlay_for_linux.Base.{ℕ, Bool, List, Result}
use edmcoverlay_for_linux.Base.Int.{ℤ}
use edmcoverlay_for_linux.Base.Text.{Bytes}

pub record Json : Type 1 where
  pub Node : Type 0
  -- the default-constructed value
  pub null : Node
  -- json::parse(src)
  pub parse : Bytes → Result Node
  pub is_array : Node → Bool
  -- range-for over a value, and over its items()
  pub elements : Node → List Node
  pub items : Node → List (Bytes × Node)
  pub size : Node → ℕ
  -- get<int>(), get<std::uint32_t>(), get<std::string>()
  pub get_int : Node → Result ℤ
  pub get_uint32 : Node → Result ℕ
  pub get_string : Node → Result Bytes
  -- contains(key) is false on what is no object
  pub is_object : Node → Bool
  pub contains : Node → Bytes → Bool
  -- val[key] on a constant object that has the key
  pub at : Node → Bytes → Result Node
  pub node_eq : Node → Node → Bool
