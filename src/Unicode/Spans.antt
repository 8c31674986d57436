-- ===== src/Unicode/Spans.antt =====
-- The spans of makeSpans (cpp/common/unicode_splitter.hpp) tile the text, and each covers a
-- maximal run of symbols of one class.
use edmcoverlay_for_linux.Base.{
  ℕ, zero, suc, ◌+◌, ◌≤◌, ◌<◌, ◌≡◌, refl, sym, subst, ◌∙◌, ◌≢◌, inl, inr, true, some, List, [], ◌∷◌,
  ◌++◌, append_assoc, lt→ltb, length, All, arith, Bool-cases, Option-cases,
}
use edmcoverlay_for_linux.Base.Text.{Bytes}
use edmcoverlay_for_linux.Unicode.{
  class_eq, SpanPosition, first_span, inside_string_span, Span, set_end, is_valid, Cursor, at, next,
  classify, start_index, rewind_to, spans_loop, make_spans,
}
use edmcoverlay_for_linux.Unicode.Runs.{
  over, symbol, class_eq_iff, next-Advances, next-none, next-at, Run, Tiles, Extends,
}

module _ (text : Bytes) where
  -- What is known when `iter` stands on a symbol of `current`.
  record Inside (iter : Cursor) (current : Span) : Type 0 where
    begun : current.begin < iter.next_byte_index
    reads : start_index iter < iter.next_byte_index
    starts : start_index iter < length text
    within : current.begin < length text
    -- a run that goes on from here goes on from the start of the span
    grows :
        (e : ℕ) → Run text current.cls e iter.next_byte_index → Run text current.cls e current.begin

  last_span :
      (iter : Cursor) (current : Span) (spans : List Span)
      → Inside iter current
      → length text ≤ iter.next_byte_index
      → Extends text current spans (spans ++ (set_end (length text) current ∷ []))
  unfolding set_end
  last_span iter current spans i h = record {
    head = set_end (length text) current;
    rest = [];
    whole = refl;
    cls = refl;
    tiles = (refl, i.within, refl, i.grows (length text) (over h), tt, refl);
  }

  -- The next symbol starts a span.
  fresh-Inside :
      (iter : Cursor) (c : Cursor) (p : SpanPosition)
      → next text c ≡ some iter
      → Inside iter
          (record { begin = start_index iter; end = 0; cls = classify iter; position = p })
  fresh-Inside iter c p t =
      let a = next-Advances text c iter t in
      record {
        begun = omega (arith, a.starts, a.moves);
        reads = omega (arith, a.starts, a.moves);
        starts = omega (arith, a.starts, a.inside);
        within = omega (arith, a.starts, a.inside);
        grows = λ e r.
            subst (Run text (classify iter) e) (sym a.starts)
              (symbol iter (sym (next-at text c) ∙ t) refl r);
      }

  -- The next symbol stays in the span.
  same-Inside :
      (iter iter' : Cursor) (current : Span)
      → next text iter ≡ some iter'
      → classify iter' ≡ current.cls
      → Inside iter current
      → Inside iter' current
  same-Inside iter iter' current t same i =
      let a = next-Advances text iter iter' t in
      record {
        begun = omega (arith, a.moves, i.begun);
        reads = omega (arith, a.starts, a.moves);
        starts = omega (arith, a.starts, a.inside);
        within = i.within;
        grows = λ e r. i.grows e (symbol iter' (sym (next-at text iter) ∙ t) same r);
      }

  -- A span that ends where the next begins, in front of what the rest of the loop adds.
  change-Extends :
      (iter iter' : Cursor) (current : Span) (spans result : List Span)
      → next text iter ≡ some iter'
      → classify iter' ≢ current.cls
      → Inside iter current
      → Extends text
          (record {
            begin = start_index iter';
            end = 0;
            cls = classify iter';
            position = inside_string_span;
          })
          (spans ++ (set_end (start_index iter') current ∷ []))
          result
      → Extends text current spans result
  unfolding set_end
  change-Extends iter iter' current spans result t ne i x =
      let a = next-Advances text iter iter' t in
      record {
        head = set_end (start_index iter') current;
        rest = x.head ∷ x.rest;
        whole = x.whole ∙ append_assoc spans (set_end (start_index iter') current ∷ []) _;
        cls = refl;
        tiles = (
          refl,
          omega (arith, a.starts, i.begun),
          refl,
          i.grows (start_index iter') (over (omega (arith, a.starts))),
          (λ e. ne (sym x.cls ∙ e)),
          x.tiles,
        );
      }

  loop-Extends :
      (fuel : ℕ) (iter : Cursor) (current : Span) (spans : List Span)
      → Inside iter current
      → length text ≤ fuel + start_index iter
      → Extends text current spans (spans_loop fuel text iter current spans)
  unfolding spans_loop is_valid set_end
  loop-Extends zero iter current spans i f = absurd (omega (arith, i.starts))
  loop-Extends (suc fuel) iter current spans i f = elim (Option-cases (next text iter)) [
    | inl t ↦
        rw (t, spans_loop, lt→ltb current.begin (length text) i.within)
          (last_span iter current spans i (next-none text iter t))
    | inr (iter', t) ↦
        let a = next-Advances text iter iter' t in
        elim (Bool-cases (class_eq (classify iter') current.cls)) [
          | inl same ↦
              rw (t, spans_loop, same)
                (loop-Extends fuel iter' current spans
                  (same-Inside iter iter' current t
                    ((class_eq_iff (classify iter') current.cls).0 same) i)
                  (omega (arith, a.starts, i.reads)))
          | inr change ↦
              rw (t, spans_loop, change)
                (change-Extends iter iter' current spans _ t
                  (λ e. ground (arith, class_eq_iff (classify iter') current.cls)) i
                  (loop-Extends fuel iter' _ _ (fresh-Inside iter' iter inside_string_span t)
                    (omega (arith, a.starts, i.reads))))
        ]
  ]

  -- The spans of makeSpans follow one another from the start of the text to its end; each is not empty, covers
  -- symbols of its own class only, and differs in class from the next; the first one is marked as
  -- the first, the others as inside the text.
  pub make_spans-Tiles : Tiles text first_span 0 (make_spans text)
  unfolding make_spans
  make_spans-Tiles = elim (Option-cases (next text (at 0))) [
    | inl t ↦ rw (t, make_spans) (omega (arith, next-none text (at 0) t))
    | inr (iter, t) ↦
        let a = next-Advances text (at 0) iter t in
        let x =
          loop-Extends (length text) iter
            (record {
              begin = start_index iter;
              end = 0;
              cls = classify iter;
              position = first_span;
            })
            [] (fresh-Inside iter (at 0) first_span t) (omega arith) in
        rw (t, make_spans, x.whole)
          (subst (λ b. Tiles text first_span b (x.head ∷ x.rest)) a.starts x.tiles)
  ]

  rewind_to-Run :
      (s : Span)
      → s.begin < s.end
      → Run text s.cls s.end s.begin
      → ((rewind_to text s).1 ≡ true)
        × (next text (at s.begin) ≡ some (rewind_to text s).0)
        × (classify (rewind_to text s).0 ≡ s.cls)
  unfolding rewind_to
  rewind_to-Run s h (over o) = absurd (omega arith)
  rewind_to-Run s h (symbol c t k r) =
      rw (t, rewind_to) (ground (arith, class_eq_iff (classify c) s.cls))

  -- At every span of a division of the text, rewindTo reports success, stands on the symbol that
  -- the span starts with, and finds the span's class there.
  rewind_to-Tiles :
      (p : SpanPosition) (b : ℕ) (spans : List Span)
      → Tiles text p b spans
      → All
          (λ s.
            ((rewind_to text s).1 ≡ true)
            × (next text (at s.begin) ≡ some (rewind_to text s).0)
            × (classify (rewind_to text s).0 ≡ s.cls))
          spans
  rewind_to-Tiles p b [] h = tt
  rewind_to-Tiles p b (s ∷ rest) h =
      (rewind_to-Run s h.1 h.3, rewind_to-Tiles inside_string_span s.end rest h.5)
