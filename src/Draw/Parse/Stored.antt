-- ===== src/Draw/Parse/Stored.antt =====
-- What parseJsonString (cpp/drawables.h) leaves in its map, and what an item without an id gets.
use edmcoverlay_for_linux.Base.{
  ℕ, ◌+◌, ◌%◌, ◌^◌, ◌≡◌, refl, ◌≢◌, ◌⊎◌, inl, inr, true, false, not, ◌||◌, some, List, [], ◌∷◌,
  ◌++◌, is_empty, arith, Result, ok, thrown, All, Bool-cases, Result-cases,
}
use edmcoverlay_for_linux.Base.Int.{pos, is_negative}
use edmcoverlay_for_linux.Base.Text.{Bytes, codes, to_string, to_string-injective, bytes_eq_refl}
use edmcoverlay_for_linux.Base.Map.{Map}
use edmcoverlay_for_linux.Base.Map
use edmcoverlay_for_linux.Json.{Json}
use edmcoverlay_for_linux.Draw.{Mode, Item, mode_eq, is_command, new_item}
use edmcoverlay_for_linux.Draw.Equality.{mode_eq_iff}
use edmcoverlay_for_linux.Draw.Parse.{
  process_fields, with_auto_id, store, parse_single_object, parse_elements, parse_json_string,
}
use edmcoverlay_for_linux.Draw.Parse.Fields.{IsPure, process_fields-IsPure}

module _ (J : Json) where
  open J use {Node}

  -- Something is shown or commanded.
  abbrev pub IsTask : Item Node → Type 0
  IsTask i = (i.drawmode ≢ Mode.idk) ⊎ (i.command ≢ [])

  pub record IsStored (k : Bytes) (i : Item Node) : Type 0 where
    pub keyed : i.id ≡ k
    pub named : k ≢ []
    pub task : IsTask i
    pub owned : IsPure J i.drawmode i

  abbrev pub IsParsed : Map (Item Node) → Type 0
  IsParsed m = Map.IsSorted m × All (λ (e : Bytes × Item Node). IsStored e.0 e.1) m

  IsTask-of_test :
      (i : Item Node) → (not (mode_eq i.drawmode Mode.idk) || is_command i) ≡ true → IsTask i
  unfolding is_command
  IsTask-of_test i h = elim (Bool-cases (is_empty i.command)) [
    | inl e ↦ inl (λ d. ground (arith, mode_eq_iff i.drawmode Mode.idk))
    | inr e ↦ inr (λ d. ground arith)
  ]

  auto_id-ne : (next : ℕ) → codes "AUTOID:" ++ to_string next ≢ []
  auto_id-ne next e = cc

  with_auto_id-IsPure :
      (m : Mode) (next : ℕ) (i : Item Node) → IsPure J m i → IsPure J m (with_auto_id J next i)
  unfolding with_auto_id
  with_auto_id-IsPure Mode.idk next i h = tt
  with_auto_id-IsPure Mode.text next i h = h
  with_auto_id-IsPure Mode.shape next i h = h
  with_auto_id-IsPure Mode.svg next i h = h

  is_empty→eq {ℓ} : {A : Type ℓ} (xs : List A) → is_empty xs ≡ false → xs ≢ []
  is_empty→eq xs h e = ground arith

  set-IsParsed :
      (i : Item Node) (m : Map (Item Node))
      → IsStored i.id i
      → IsParsed m
      → IsParsed (Map.set i.id i m)
  set-IsParsed i m s (sorted, all) =
      (Map.set-IsSorted i.id i m sorted, Map.set-All IsStored i.id i m s all)

  store-IsParsed :
      (i : Item Node) (next : ℕ) (m : Map (Item Node))
      → IsPure J i.drawmode i
      → IsParsed m
      → IsParsed (store J i next m).0
  unfolding store
  store-IsParsed i next m o h =
      elim (Bool-cases (not (mode_eq i.drawmode Mode.idk) || is_command i)) [
        | inr skip ↦ rw skip h
        | inl keep ↦ rw keep (elim (Bool-cases (is_empty i.id)) [
          | inl unnamed ↦ rw unnamed (
              set-IsParsed (with_auto_id J next i) m
                (record {
                  keyed = refl;
                  named = unfold with_auto_id in auto_id-ne next;
                  task = unfold with_auto_id in IsTask-of_test i keep;
                  owned = with_auto_id-IsPure i.drawmode next i o;
                })
                h)
          | inr given ↦ rw given (
              set-IsParsed i m
                (record {
                  keyed = refl;
                  named = is_empty→eq i.id given;
                  task = IsTask-of_test i keep;
                  owned = o;
                })
                h)
        ])
      ]

  -- A result that is either an exception or a map as parsed.
  abbrev Good : Result (Map (Item Node)) → Type 0
  Good (ok m) = IsParsed m
  Good (thrown e) = Unit {0}

  single-Good :
      (now next : ℕ) (object : Node) (m : Map (Item Node))
      → IsParsed m
      → Good (parse_single_object J now next object m).0
  unfolding parse_single_object
  single-Good now next object m h =
      elim (Result-cases (process_fields J (J.items object) (new_item J.null now))) [
        | inl (e, t) ↦ rw (t, parse_single_object) tt
        | inr (i, t) ↦
            rw (t, parse_single_object)
              (store-IsParsed i next m
                (process_fields-IsPure J (J.items object) (new_item J.null now) (refl, refl, refl)
                  t)
                h)
      ]

  elements-Good :
      (clock : ℕ → ℕ) (n next : ℕ) (objects : List Node) (m : Map (Item Node))
      → IsParsed m
      → Good (parse_elements J clock n next objects m).0
  unfolding parse_elements
  elements-Good clock n next [] m h = h
  elements-Good clock n next (object ∷ rest) m h =
      elim (Result-cases (parse_single_object J (clock n) next object m).0) [
        | inl (e, t) ↦ rw (t, parse_elements) tt
        | inr (m', t) ↦
            rw (t, parse_elements)
              (elements-Good clock (n + 1) (parse_single_object J (clock n) next object m).1 rest m'
                (rw t at (single-Good (clock n) next object m h)))
      ]

  -- Whatever the text and the JSON library's answers, a parse that does not throw gives a map in
  -- the order of its keys, in which each item stands under its own, non-empty id, shows something
  -- or commands something, and, if it has a mode, has set the members of that mode only.
  pub parse_json_string-IsParsed :
      (clock : ℕ → ℕ) (next : ℕ) (src : Bytes) (m : Map (Item Node))
      → (parse_json_string J clock next src).0 ≡ ok m
      → IsParsed m
  unfolding parse_json_string
  parse_json_string-IsParsed clock next src m h = rw h at (good src)
    where
      good : (src : Bytes) → Good (parse_json_string J clock next src).0
      good [] = (tt, tt)
      good (c ∷ cs) = elim (Result-cases (J.parse (c ∷ cs))) [
        | inl (e, t) ↦ rw (t, parse_json_string) tt
        | inr (jsrc, t) ↦
            rw (t, parse_json_string)
              (elim (Bool-cases (J.is_array jsrc)) [
                | inl array ↦ rw array (elements-Good clock 0 next (J.elements jsrc) [] (tt, tt))
                | inr object ↦ rw object (single-Good (clock 0) next jsrc [] (tt, tt))
              ])
      ]

  -- An object without an id that parses, and shows or commands something, is stored under the id that
  -- the counter gives, and the counter moves on. It keeps its lifetime if that is not negative, and
  -- gets 60 seconds from its making otherwise.
  pub parse_single_object-auto_id :
      (now next : ℕ) (object : Node) (m : Map (Item Node)) (i : Item Node)
      → process_fields J (J.items object) (new_item J.null now) ≡ ok i
      → i.id ≡ []
      → (not (mode_eq i.drawmode Mode.idk) || is_command i) ≡ true
      → (m' : Map (Item Node)) × (i' : Item Node) × (parse_single_object J now next object m
          ≡ (ok m', (next + 1) % 2 ^ 64))
        × (Map.find (codes "AUTOID:" ++ to_string next) m' ≡ some i')
        × (is_negative i.ttl.ttl ≡ true
            → (i'.ttl.ttl ≡ pos 60) × (i'.ttl.created_at ≡ i.ttl.created_at))
        × (is_negative i.ttl.ttl ≡ false → i'.ttl ≡ i.ttl)
  unfolding parse_single_object store with_auto_id
  parse_single_object-auto_id now next object m i p unnamed task =
      let i' = with_auto_id J next i in
      (
        Map.set i'.id i' m,
        i',
        ground arith,
        ground (
          arith,
          Map.find-set i'.id i'.id i' m,
          bytes_eq_refl (codes "AUTOID:" ++ to_string next),
        ),
        λ h. (ground arith, ground arith),
        ground arith,
      )

  -- Generated ids of different counter values differ.
  pub auto_id-injective :
      (m n : ℕ) (i j : Item Node) → (with_auto_id J m i).id ≡ (with_auto_id J n j).id → m ≡ n
  unfolding with_auto_id
  auto_id-injective m n i j h = to_string-injective m n (cc)
