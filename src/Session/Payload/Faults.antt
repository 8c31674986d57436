-- ===== src/Session/Payload/Faults.antt =====
-- Where process_payload (cpp/tcp_session.hpp) does not return.
use edmcoverlay_for_linux.Base.{
  ℕ, ◌≡◌, refl, inl, inr, ◌⊎◌, Bool, true, [], ◌∷◌, All, Any, ok, thrown, Exception, Result-cases,
  Outcome, undefined, terminated, uncaught, uncaught-cases,
}
use edmcoverlay_for_linux.Base.Int.{ℤ}
use edmcoverlay_for_linux.Base.Text.{Bytes}
use edmcoverlay_for_linux.Base.Map.{Map}
use edmcoverlay_for_linux.Json.{Json}
use edmcoverlay_for_linux.Draw.{Item, is_shape_vector}
use edmcoverlay_for_linux.Draw.Parse.{parse_json_string}
use edmcoverlay_for_linux.Svg.TextTags.{Renderer}
use edmcoverlay_for_linux.Svg.Build.{build_svg_task}
use edmcoverlay_for_linux.Svg.Build.Faults.{IsReadable, build_svg_task_iff}
use edmcoverlay_for_linux.Session.Payload.{
  convert_draws, incoming_draws, process_draws, process_payload,
}

-- The run does not return.
abbrev pub IsEnd : {A : Type 0} → Outcome A → Type 0
IsEnd o = (o ≡ undefined) ⊎ ((e : Exception) × (o ≡ terminated e))

module _ (J : Json) where
  open J use {Node}

  -- A vector with a point that lacks a coordinate, or has one that is no number.
  abbrev pub Breaks : Bytes × Item Node → Type 0
  Breaks e = (is_shape_vector e.1 ≡ true) × (All (IsReadable J) (J.items e.1.shape.vect) → ⊥)

  module _ (R : Renderer) (window_width : ℤ) where
    convert_draws-thrown :
        (m : Map (Item Node))
        → Any Breaks m
        → (e : Exception) × (convert_draws J R window_width m ≡ thrown e)
    unfolding convert_draws
    convert_draws-thrown [] h = absurd h
    convert_draws-thrown ((k, i) ∷ rest) (inl (vector, bad)) =
        elim (Result-cases (build_svg_task J R window_width i)) [
          | inl (e, t) ↦ (e, rw (t, convert_draws) refl)
          | inr (i', t) ↦ absurd (bad ((build_svg_task_iff J R window_width i).0 (i', t) vector))
        ]
    convert_draws-thrown ((k, i) ∷ rest) (inr later) =
        let (e', u) = convert_draws-thrown rest later in
        elim (Result-cases (build_svg_task J R window_width i)) [
          | inl (e, t) ↦ (e, rw (t, convert_draws) refl)
          | inr (i', t) ↦ (e', rw (t, u, convert_draws) refl)
        ]

    process_draws-terminated :
        (alive : ℕ → Bool) (m all_draws : Map (Item Node))
        → Any Breaks m
        → IsEnd (process_draws J R window_width alive m all_draws)
    unfolding process_draws uncaught
    process_draws-terminated alive [] all_draws h = absurd h
    process_draws-terminated alive (d ∷ draws) all_draws h =
        let (e, t) = convert_draws-thrown (d ∷ draws) h in
        elim (uncaught-cases (Map (Item Node)) e) [
          | inl undefined_run ↦ inl (rw (t, process_draws) undefined_run)
          | inr terminated_run ↦ inr (e, rw (t, process_draws) terminated_run)
        ]

    -- A message that parses and has a vector with a point that lacks a coordinate, or has one that is no
    -- number, does not let process_payload return: it ends the process by an exception that is not
    -- caught, or leaves what C++ defines.
    pub process_payload-terminated :
        (alive : ℕ → Bool) (clock : ℕ → ℕ) (next : ℕ) (json_str : Bytes)
        (m all_draws : Map (Item Node))
        → (parse_json_string J clock next json_str).0 ≡ ok m
        → Any Breaks m
        → IsEnd (process_payload J R window_width alive clock next json_str all_draws).0
    unfolding process_payload incoming_draws
    process_payload-terminated alive clock next json_str m all_draws h bad =
        rw (h, process_payload, incoming_draws) (process_draws-terminated alive m all_draws bad)
