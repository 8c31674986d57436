-- ===== src/Draw/Parse/Fields.antt =====
-- Which members the processors of parseJsonString (cpp/drawables.h) may have set in each mode.
use edmcoverlay_for_linux.Base.{
  ◌≡◌, refl, ◌⊎◌, inl, inr, false, List, [], ◌∷◌, arith, Result, ok, ◌>>=◌, All, Bool-cases,
  Option-cases, Result-cases, >>=-ok,
}
use edmcoverlay_for_linux.Base.Text.{Bytes}
use edmcoverlay_for_linux.Base.Map.{Map}
use edmcoverlay_for_linux.Base.Map
use edmcoverlay_for_linux.Json.{Json}
use edmcoverlay_for_linux.Draw.{Mode, Item, DrawText, DrawShape, DrawSvg, no_text, no_svg, no_shape}
use edmcoverlay_for_linux.Draw.Equality.{mode_eq_iff}
use edmcoverlay_for_linux.Draw.Parse.{
  Processor, in_text, in_shape, in_svg, processors, is_switched, process_fields,
}

module _ (J : Json) where
  open J use {Node}

  -- In each mode the members of the other modes are as they were made.
  abbrev pub Owns : Mode → Item Node → Type 0
  Owns Mode.idk i = (i.text ≡ no_text) × (i.shape ≡ no_shape J.null) × (i.svg ≡ no_svg)
  Owns Mode.text i = (i.shape ≡ no_shape J.null) × (i.svg ≡ no_svg)
  Owns Mode.shape i = (i.text ≡ no_text) × (i.svg ≡ no_svg)
  Owns Mode.svg i = (i.text ≡ no_text) × (i.shape ≡ no_shape J.null)

  -- An item that ends with a mode has only the members of that mode; one without a mode is no
  -- drawable, whatever it holds.
  abbrev pub IsPure : Mode → Item Node → Type 0
  IsPure Mode.idk i = Unit {0}
  IsPure m i = Owns m i

  -- What the loop needs of a processor: as long as the mode was not set, or stays, the members
  -- of the other modes do.
  abbrev KeepsOwns : Processor J → Type 0
  KeepsOwns p =
      (node : Node) (i i' : Item Node)
      → p node i ≡ ok i'
      → (i.drawmode ≡ Mode.idk) ⊎ (i'.drawmode ≡ i.drawmode)
      → Owns i.drawmode i
      → Owns i'.drawmode i'

  Keeps_field :
      {A : Type 0} (get : Node → Result A) (f : A → Item Node → Item Node)
      → ((v : A) → KeepsOwns (λ node i. ok (f v i)))
      → KeepsOwns (λ node i. get node >>= λ v. ok (f v i))
  Keeps_field get f keep node i i' h m o =
      let (v, e) = >>=-ok (λ v. ok (f v i)) (get node) h in keep v node i i' e m o

  Keeps_common :
      (f : Item Node → Item Node)
      → ((i : Item Node) → (f i).drawmode ≡ i.drawmode)
      → ((i : Item Node) → ((f i).text ≡ i.text) × ((f i).shape ≡ i.shape) × ((f i).svg ≡ i.svg))
      → KeepsOwns (λ node i. ok (f i))
  Keeps_common f mode parts node i i' h m o = ground (arith, mode i, parts i)

  Keeps_text :
      (f : Item Node → DrawText) → KeepsOwns (λ node i. ok (record (in_text J i) { text = f i }))
  Keeps_text f node i i' h m o = ground arith

  Keeps_shape :
      (f : Node → Item Node → DrawShape Node)
      → KeepsOwns (λ node i. ok (record (in_shape J i) { shape = f node i }))
  Keeps_shape f node i i' h m o = ground arith

  Keeps_svg :
      (f : Item Node → DrawSvg) → KeepsOwns (λ node i. ok (record (in_svg J i) { svg = f i }))
  Keeps_svg f node i i' h m o = ground arith

  processors-KeepsOwns : All (λ (e : Bytes × Processor J). KeepsOwns e.1) (processors J)
  unfolding processors
  processors-KeepsOwns = (
    common _ _ (λ v i. refl) (λ v i. (refl, refl, refl)),
    (
      common _ _ (λ v i. refl) (λ v i. (refl, refl, refl)),
      (
        Keeps_field _ _ (λ v. Keeps_shape _),
        (
          Keeps_field _ _ (λ v. Keeps_shape _),
          (
            common _ _ (λ v i. refl) (λ v i. (refl, refl, refl)),
            (
              Keeps_field _ _ (λ v. Keeps_text _),
              (
                Keeps_field _ _ (λ v. Keeps_svg _),
                (
                  Keeps_field _ _ (λ v. Keeps_svg _),
                  (
                    Keeps_field _ _ (λ v. Keeps_text _),
                    (
                      Keeps_field _ _ (λ v. Keeps_text _),
                      (
                        Keeps_field _ _ (λ v. Keeps_svg _),
                        (
                          Keeps_field _ _ (λ v. Keeps_shape _),
                          (
                            Keeps_field _ _ (λ v. Keeps_shape _),
                            (
                              Keeps_field _ _ (λ v. Keeps_shape _),
                              (
                                Keeps_shape (λ node i. record (i.shape) { vect = node }),
                                (
                                  common _ _ (λ v i. refl) (λ v i. (refl, refl, refl)),
                                  (
                                    common _ _ (λ v i. refl) (λ v i. (refl, refl, refl)),
                                    (
                                      common _ _ (λ v i. refl) (λ v i. (refl, refl, refl)),
                                      (
                                        common _ _ (λ v i. refl) (λ v i. (refl, refl, refl)),
                                        (
                                          common _ _ (λ v i. refl) (λ v i. (refl, refl, refl)),
                                          (
                                            common _ _ (λ v i. refl) (λ v i. (refl, refl, refl)),
                                            tt,
                                          ),
                                        ),
                                      ),
                                    ),
                                  ),
                                ),
                              ),
                            ),
                          ),
                        ),
                      ),
                    ),
                  ),
                ),
              ),
            ),
          ),
        ),
      ),
    ),
  )
    where
      common :
          {A : Type 0} (get : Node → Result A) (f : A → Item Node → Item Node)
          → ((v : A) (i : Item Node) → (f v i).drawmode ≡ i.drawmode)
          → ((v : A) (i : Item Node)
              → ((f v i).text ≡ i.text) × ((f v i).shape ≡ i.shape) × ((f v i).svg ≡ i.svg))
          → KeepsOwns (λ node i. get node >>= λ v. ok (f v i))
      common get f mode parts = Keeps_field _ _ (λ v. Keeps_common (f v) (mode v) (parts v))

  Owns-IsPure : (m : Mode) (i : Item Node) → Owns m i → IsPure m i
  Owns-IsPure Mode.idk i o = tt
  Owns-IsPure _ i o = o

  not_switched :
      (i i' : Item Node)
      → is_switched J i i' ≡ false
      → (i.drawmode ≡ Mode.idk) ⊎ (i'.drawmode ≡ i.drawmode)
  unfolding is_switched
  not_switched i i' h =
      ground (arith, mode_eq_iff i.drawmode Mode.idk, mode_eq_iff i'.drawmode i.drawmode)

  pub process_fields-IsPure :
      (fields : List (Bytes × Node)) (i : Item Node) {i' : Item Node}
      → Owns i.drawmode i
      → process_fields J fields i ≡ ok i'
      → IsPure i'.drawmode i'
  unfolding process_fields
  process_fields-IsPure [] i {i'} o h = Owns-IsPure i'.drawmode i' (ground arith)
  process_fields-IsPure ((k, v) ∷ rest) i {i'} o h =
      elim (Option-cases (Map.find k (processors J))) [
        | inl e ↦ process_fields-IsPure rest i o (ground arith)
        | inr (p, e) ↦ elim (Result-cases (p v i)) [
          | inl (x, t) ↦ absurd (ground arith)
          | inr (i'', t) ↦ elim (Bool-cases (is_switched J i i'')) [
            | inl s ↦ let e' : i'.drawmode ≡ Mode.idk = ground arith in rw e' tt
            | inr s ↦
                process_fields-IsPure rest i''
                  (Map.find-All KeepsOwns k (processors J) processors-KeepsOwns e v i i'' t
                    (not_switched i i'' s) o)
                  (ground arith)
          ]
        ]
      ]
