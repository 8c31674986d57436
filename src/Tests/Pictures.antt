-- ===== src/Tests/Pictures.antt =====
-- The conversion to SVG.
use edmcoverlay_for_linux.Base.{ℕ, ◌≡◌, ◌⊎◌, refl, true, All, Any}
use edmcoverlay_for_linux.Base.Int.{ℤ, pos, negsuc}
use edmcoverlay_for_linux.Base.Text.{codes, bytes_eq}
use edmcoverlay_for_linux.Draw.{Item, mode_eq, is_shape_vector}
use edmcoverlay_for_linux.Draw.Vector.{int_max, get_coord, const_at}
use edmcoverlay_for_linux.Svg.Build.{build_svg_task}
use edmcoverlay_for_linux.Svg.Build.Corner.{HasX, HasY, IsRightBelow, placed, build_svg_task-corner}
use edmcoverlay_for_linux.Svg.Build.Faults.{Returns, IsReadable, build_svg_task_iff}
use edmcoverlay_for_linux.Tests.Toy.{toy, plain, vector}

abbrev line : Item ℕ
line = vector (codes "v") 6 1

line_is_vector : is_shape_vector line ≡ true
unfolding is_shape_vector mode_eq bytes_eq
line_is_vector = refl

line-IsReadable : All (IsReadable toy) (toy.items line.shape.vect)
unfolding get_coord const_at bytes_eq
line-IsReadable = (((negsuc 2, refl), (pos 5, refl)), (((pos 4, refl), (pos 8, refl)), tt))

-- The result for the line, whatever is drawn into it.
line_built : Returns (build_svg_task toy plain (pos 800) line)
line_built = (build_svg_task_iff toy plain (pos 800) line).1 (λ _. line-IsReadable)

build_svg_task-corner_example :
    (left : ℤ) × (top : ℤ) × All (IsRightBelow toy left top) (toy.items line.shape.vect)
    × ((left ≡ int_max) ⊎ Any (HasX toy left) (toy.items line.shape.vect))
    × ((top ≡ int_max) ⊎ Any (HasY toy top) (toy.items line.shape.vect))
    × (line_built.0.x ≡ placed toy plain line left)
    × (line_built.0.y ≡ placed toy plain line top)
build_svg_task-corner_example =
    build_svg_task-corner toy plain (pos 800) line line_built.0 line_is_vector line_built.1
