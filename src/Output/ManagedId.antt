-- ===== src/Output/ManagedId.antt =====
-- TManagedId of cpp/common/managed_id.hpp: the id of a resource that is freed once.
use edmcoverlay_for_linux.Base.{ℕ, Bool, false, List, ◌∷◌, ◌==◌, not, ◌&&◌, if◌then◌else◌}
use edmcoverlay_for_linux.Output.{Request}

-- `has_free` says that the function `free_` is there.
pub record ManagedId : Type 0 where
  pub id : ℕ
  pub has_free : Bool

abbrev pub no_id : ManagedId
no_id = record { id = 0; has_free = false }

unfoldable pub is_initialized : ManagedId → Bool
is_initialized m = not (m.id == 0)

-- `free` is the request that frees.
unfoldable pub reset : (ℕ → Request) → ManagedId → List Request → ManagedId × List Request
unfolding is_initialized
reset free m requests =
    if is_initialized m && m.has_free
    then (record m { id = 0 }, free m.id ∷ requests)
    else (m, requests)

-- The defaulted move: the new object, and the one moved from, which keeps the id without the function.
unfoldable pub moved : ManagedId → ManagedId × ManagedId
moved m = (m, record m { has_free = false })
