-- ===== src/Session/Framing/Progress.antt =====
-- TcpSession (cpp/tcp_session.hpp) does not wait while it has a whole message, and does not run for
-- ever on a stream that ends.
use edmcoverlay_for_linux.Base.{
  ℕ, suc, ◌+◌, ◌*◌, ◌≤◌, ◌<◌, ◌≡◌, ◌≢◌, refl, sym, ap, ◌∙◌, subst, inl, inr, ◌⊎◌, Bool, true, false,
  none, some, List, [], ◌∷◌, ◌++◌, append-nil, length, length-append, length-drop, All, arith,
  Option-cases, Bool-cases, leb, leb→le, Result-cases, ◌==◌,
}
use edmcoverlay_for_linux.Base.Text.{Bytes, to_string, to_string-IsDigit}
use edmcoverlay_for_linux.Session.Framing.{
  Connection, Phase, Step, more_header, more_body, header_read, body_read, Steps, getline,
  on_header, on_body, after_body, receive, stoul,
}
use edmcoverlay_for_linux.Session.Framing.Cut.{getline-digits}
use edmcoverlay_for_linux.Session.Framing.Stream.{
  frames, Fits, Expects, opened, opened-OnTrack, Steps-OnTrack,
}

abbrev in_body : Phase → ℕ
in_body Phase.header = 0
in_body Phase.closed = 0
in_body Phase.ended = 0
in_body (Phase.body size) = 1

-- What there is left to do: a byte on the way, a byte in the buffer, a body to take out.
abbrev pub measure : Connection → ℕ
measure c = 3 * length c.pending + 2 * length c.buffer + in_body c.phase

getline-shorter :
    (buffer text rest : Bytes) → getline buffer ≡ some (text, rest) → length rest < length buffer
unfolding getline
getline-shorter [] text rest h = absurd (cc)
getline-shorter (c ∷ buffer) text rest h = elim (Bool-cases (c == b'#')) [
  | inl mark ↦
      let e : buffer ≡ rest = ground (arith) in
      subst (λ r. length r < suc (length buffer)) e (omega arith)
  | inr other ↦ elim (Option-cases (getline buffer)) [
    | inl gone ↦ absurd (ground arith)
    | inr ((t, r), there) ↦
        let e : r ≡ rest = ground (arith) in
        let shorter = getline-shorter buffer t r there in
        subst (λ r. length r < suc (length buffer)) e (omega arith)
  ]
]

non_empty : (chunk : Bytes) → chunk ≢ [] → 1 ≤ length chunk
non_empty [] ne = absurd (ne refl)
non_empty (c ∷ chunk) ne = omega arith

received :
    (c : Connection) (chunk rest : Bytes)
    → chunk ≢ []
    → c.pending ≡ chunk ++ rest
    → measure (receive chunk rest c) < measure c
received c chunk rest ne e =
    let n = non_empty chunk ne in
    let p : length c.pending ≡ length chunk + length rest =
      ap length e ∙ length-append chunk rest in
    let b = length-append c.buffer chunk in omega arith

on_header-measure :
    (text rest : Bytes) (c : Connection)
    → measure (on_header text rest c) ≤ 3 * length c.pending + 2 * length rest + 1
unfolding on_header
on_header-measure text rest c = elim (Result-cases (stoul text)) [
  | inl (e, t) ↦ rw (t, on_header) (omega arith)
  | inr (n, t) ↦ rw (t, on_header) (omega arith)
]

not_in_body : (returns : Bool) → in_body (after_body returns) ≡ 0
not_in_body true = refl
not_in_body false = refl

-- Every step leaves less to do, so that no run of a connection whose client has stopped sending is
-- infinite.
pub Step-measure : {c d : Connection} → Step c d → measure d < measure c
unfolding on_body
Step-measure {c} (more_header chunk rest p g ne e) = received c chunk rest ne e
Step-measure {c} (more_body size chunk rest p ne h e) = received c chunk rest ne e
Step-measure {c} (header_read text rest p g) =
    let shorter = getline-shorter c.buffer text rest g in
    let h = on_header-measure text rest c in omega arith
Step-measure {c} (body_read returns size p h) =
    let shorter = length-drop size c.buffer in
    let one = ap in_body p in let out = not_in_body returns in omega arith

abbrev pub Waits : Connection → Type 0
Waits c = (d : Connection) → Step c d → ⊥

-- The socket has nothing more, and there is no header in the buffer.
drained :
    (bodies left : List Bytes) (c : Connection)
    → getline c.buffer ≡ none
    → bodies ≡ c.delivered ++ left
    → c.buffer ≡ frames left
    → c.delivered ≡ bodies
unfolding frames
drained bodies [] c g w e = sym (append-nil c.delivered) ∙ sym w
drained bodies (b ∷ left) c g w e =
    let cut =
      getline-digits (to_string (length b)) (b ++ frames left) (to_string-IsDigit (length b)) in
    let bad : none ≡ some (to_string (length b), b ++ frames left) = sym g ∙ ap getline e ∙ cut in
    absurd (cc bad)

no_header :
    (bodies left : List Bytes) (c : Connection) (pending : Bytes)
    → c.pending ≡ pending
    → c.phase ≡ Phase.header
    → getline c.buffer ≡ none
    → bodies ≡ c.delivered ++ left
    → c.buffer ++ c.pending ≡ frames left
    → Waits c
    → c.delivered ≡ bodies
no_header bodies left c [] q p g w e waits =
    drained bodies left c g w (sym (append-nil c.buffer) ∙ ap (◌++◌ c.buffer) (sym q) ∙ e)
no_header bodies left c (x ∷ xs) q p g w e waits = absurd (
    waits (receive (x ∷ xs) [] c)
      (more_header (x ∷ xs) [] p g (λ e. cc e) (q ∙ sym (append-nil (x ∷ xs)))))

Waits-header :
    (bodies left : List Bytes) (c : Connection)
    → c.phase ≡ Phase.header
    → bodies ≡ c.delivered ++ left
    → c.buffer ++ c.pending ≡ frames left
    → Waits c
    → c.delivered ≡ bodies
Waits-header bodies left c p w e waits = elim (Option-cases (getline c.buffer)) [
  | inr ((text, rest), g) ↦ absurd (waits (on_header text rest c) (header_read text rest p g))
  | inl g ↦ no_header bodies left c c.pending refl p g w e waits
]

short_body :
    (left : List Bytes) (c : Connection) (size : ℕ) (pending : Bytes)
    → c.pending ≡ pending
    → c.phase ≡ Phase.body size
    → length c.buffer < size
    → Expects (Phase.body size) left (c.buffer ++ c.pending)
    → Waits c
    → ⊥
short_body [] c size pending q p h e waits = e
short_body (b ∷ left) c size [] q p h (n, e) waits =
    let all = length-append c.buffer c.pending in
    let none_left = ap length q in
    let long = ap length e in let parts = length-append b (frames left) in omega arith
short_body (b ∷ left) c size (x ∷ xs) q p h e waits =
    waits (receive (x ∷ []) xs c) (more_body size (x ∷ []) xs p (λ e. cc e) (omega arith) q)

Waits-body :
    (left : List Bytes) (c : Connection) (size : ℕ)
    → c.phase ≡ Phase.body size
    → Expects (Phase.body size) left (c.buffer ++ c.pending)
    → Waits c
    → ⊥
Waits-body left c size p e waits = elim (Bool-cases (leb size (length c.buffer))) [
  | inl long ↦ waits (on_body true size c) (body_read true size p (leb→le _ _ long))
  | inr short ↦ short_body left c size c.pending refl p (ground arith) e waits
]

Waits-at :
    (phase : Phase) (bodies left : List Bytes) (c : Connection)
    → c.phase ≡ phase
    → bodies ≡ c.delivered ++ left
    → Expects phase left (c.buffer ++ c.pending)
    → Waits c
    → (c.phase ≡ Phase.ended) ⊎ (c.delivered ≡ bodies)
Waits-at Phase.header bodies left c p w e waits = inr (Waits-header bodies left c p w e waits)
Waits-at Phase.ended bodies left c p w e waits = inl p
Waits-at Phase.closed bodies left c p w e waits = absurd e
Waits-at (Phase.body size) bodies left c p w e waits = absurd (Waits-body left c size p e waits)

-- A client sends bodies of at most 2 ^ 64 - 1 bytes, each behind its length in decimal and a '#'. A
-- connection that can do no more, however it got there, has delivered all of them, unless
-- process_payload has ended the process.
pub Steps-waits :
    (bodies : List Bytes) (c : Connection)
    → All Fits bodies
    → Steps (opened (frames bodies)) c
    → ((d : Connection) → Step c d → ⊥)
    → (c.phase ≡ Phase.ended) ⊎ (c.delivered ≡ bodies)
Steps-waits bodies c f steps waits =
    let t = Steps-OnTrack bodies steps (opened-OnTrack bodies f) in
    Waits-at c.phase bodies t.left c refl t.whole t.expects waits
