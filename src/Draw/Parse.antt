-- ===== src/Draw/Parse.antt =====
-- parseJsonString of cpp/drawables.h: from a JSON text to the map of drawables.
pub mod Fields
pub mod Stored
use edmcoverlay_for_linux.Base.{
  ℕ, ◌+◌, ◌%◌, ◌^◌, ◌≡◌, Bool, true, false, not, ◌&&◌, ◌||◌, Option, none, some, List, [], ◌∷◌,
  ◌++◌, if◌then◌else◌, is_empty, Result, ok, thrown, ◌>>=◌,
}
use edmcoverlay_for_linux.Base.Int.{ℤ, pos, is_negative}
use edmcoverlay_for_linux.Base.Text.{Bytes, codes, to_string}
use edmcoverlay_for_linux.Base.Map.{Map}
use edmcoverlay_for_linux.Base.Map
use edmcoverlay_for_linux.Json.{Json}
use edmcoverlay_for_linux.Draw.{Mode, Item, mode_eq, is_command, new_item}

module _ (J : Json) where
  open J use {Node}

  abbrev pub Processor : Type 0
  Processor = Node → Item Node → Result (Item Node)

  -- The processors that read an int, and those that read a string.
  abbrev pub int_field : (ℤ → Item Node → Item Node) → Processor
  int_field f node i = do v ← J.get_int node; ok (f v i)

  abbrev pub uint_field : (ℕ → Item Node → Item Node) → Processor
  uint_field f node i = do v ← J.get_uint32 node; ok (f v i)

  abbrev pub string_field : (Bytes → Item Node → Item Node) → Processor
  string_field f node i = do v ← J.get_string node; ok (f v i)

  abbrev pub in_text : Item Node → Item Node
  in_text i = record i { drawmode = Mode.text }

  abbrev pub in_shape : Item Node → Item Node
  in_shape i = record i { drawmode = Mode.shape }

  abbrev pub in_svg : Item Node → Item Node
  in_svg i = record i { drawmode = Mode.svg }

  -- The keys are distinct, so the order of the table does not matter to a lookup.
  unfoldable pub processors : Map Processor
  processors =
      (codes "x", int_field (λ v i. record i { x = v }))
      ∷ (codes "y", int_field (λ v i. record i { y = v }))
      ∷ (codes "w", int_field (λ v i. record (in_shape i) { shape = record (i.shape) { w = v } }))
      ∷ (codes "h", int_field (λ v i. record (in_shape i) { shape = record (i.shape) { h = v } }))
      ∷ (codes "color", string_field (λ v i. record i { color = v }))
      ∷ (
        codes "text",
        string_field (λ v i. record (in_text i) { text = record (i.text) { text = v } }),
      )
      ∷ (codes "svg", string_field (λ v i. record (in_svg i) { svg = record (i.svg) { svg = v } }))
      ∷ (codes "css", string_field (λ v i. record (in_svg i) { svg = record (i.svg) { css = v } }))
      ∷ (
        codes "size",
        string_field (λ v i. record (in_text i) { text = record (i.text) { size = v } }),
      )
      ∷ (
        codes "font_size",
        uint_field (λ v i. record (in_text i) { text = record (i.text) { font_size = some v } }),
      )
      ∷ (
        codes "font_file",
        string_field (λ v i. record (in_svg i) { svg = record (i.svg) { font_file = v } }),
      )
      ∷ (
        codes "vector_font_size",
        uint_field
            (λ v i. record (in_shape i) { shape = record (i.shape) { vector_font_size = v } }),
      )
      ∷ (
        codes "shape",
        string_field (λ v i. record (in_shape i) { shape = record (i.shape) { shape = v } }),
      )
      ∷ (
        codes "fill",
        string_field (λ v i. record (in_shape i) { shape = record (i.shape) { fill = v } }),
      )
      ∷ (
        codes "vector",
        λ node i. ok (record (in_shape i) { shape = record (i.shape) { vect = node } }),
      )
      ∷ (codes "ttl", int_field (λ v i. record i { ttl = record (i.ttl) { ttl = v } }))
      ∷ (codes "id", string_field (λ v i. record i { id = v }))
      ∷ (codes "msgid", string_field (λ v i. record i { id = v }))
      ∷ (codes "shapeid", string_field (λ v i. record i { id = v }))
      ∷ (codes "svgid", string_field (λ v i. record i { id = v }))
      ∷ (codes "command", string_field (λ v i. record i { command = v }))
      ∷ []

  unfoldable pub is_switched : Item Node → Item Node → Bool
  is_switched i i' = not (mode_eq i.drawmode Mode.idk) && not (mode_eq i'.drawmode i.drawmode)

  -- The loop over `aObject.items()`. A switch of the mode from one that was set ends it.
  unfoldable pub process_fields : List (Bytes × Node) → Item Node → Result (Item Node)
  process_fields [] i = ok i
  process_fields ((k, v) ∷ rest) i = elim (Map.find k processors) [
    | none ↦ process_fields rest i
    | some processor ↦ elim (processor v i) [
      | thrown e ↦ thrown e
      | ok i' ↦
          let next = process_fields rest i' in
          if is_switched i i' then ok (record i' { drawmode = Mode.idk }) else next
    ]
  ]

  -- An item without an id gets one, and a lifetime if it had none.
  unfoldable pub with_auto_id : ℕ → Item Node → Item Node
  with_auto_id next i = record i {
    id = codes "AUTOID:" ++ to_string next;
    ttl = if is_negative i.ttl.ttl then record (i.ttl) { ttl = pos 60 } else i.ttl;
  }

  -- `id++` on std::atomic<std::size_t>
  unfoldable pub next_auto_id : ℕ → ℕ
  next_auto_id next = (next + 1) % 2 ^ 64

  unfoldable pub store : Item Node → ℕ → Map (Item Node) → Map (Item Node) × ℕ
  unfolding with_auto_id next_auto_id
  store i next result =
      if not (mode_eq i.drawmode Mode.idk) || is_command i
      then (if is_empty i.id
          then (Map.set (with_auto_id next i).id (with_auto_id next i) result, next_auto_id next)
          else (Map.set i.id i result, next))
      else (result, next)

  -- parseSingleObject. The counter of ids outlives an exception.
  unfoldable pub parse_single_object : ℕ → ℕ → Node → Map (Item Node) → Result (Map (Item Node)) × ℕ
  parse_single_object now next object result =
      elim (process_fields (J.items object) (new_item J.null now)) [
        | thrown e ↦ (thrown e, next)
        | ok i ↦ (ok (store i next result).0, (store i next result).1)
      ]

  -- The loop over an array; `clock n` is the time at which the n-th drawable is made.
  unfoldable pub parse_elements :
      (ℕ → ℕ) → ℕ → ℕ → List Node → Map (Item Node) → Result (Map (Item Node)) × ℕ
  parse_elements clock n next [] result = (ok result, next)
  parse_elements clock n next (object ∷ rest) result =
      let (r, next') = parse_single_object (clock n) next object result in
      elim r [
        | thrown e ↦ (thrown e, next')
        | ok result' ↦ parse_elements clock (n + 1) next' rest result'
      ]

  unfoldable pub parse_json_string : (ℕ → ℕ) → ℕ → Bytes → Result (Map (Item Node)) × ℕ
  parse_json_string clock next src = if is_empty src then (ok [], next) else elim (J.parse src) [
    | thrown e ↦ (thrown e, next)
    | ok jsrc ↦
        if J.is_array jsrc
        then parse_elements clock 0 next (J.elements jsrc) []
        else parse_single_object (clock 0) next jsrc []
  ]
