-- ===== src/Session/Framing/Stream.antt =====
-- A client that keeps to the protocol, `length#body` (cpp/tcp_session.hpp): however the network cuts
-- its bytes, TcpSession takes out its messages, in order.
use edmcoverlay_for_linux.Base.{
  ℕ, ◌^◌, ◌≤◌, Bool, true, false, ◌<◌, ◌≡◌, ◌≢◌, refl, sym, ap, ◌∙◌, subst, some, List, [], ◌∷◌,
  ◌++◌, append_assoc, length, take, drop, take-append, drop-append, All, ok,
}
use edmcoverlay_for_linux.Base.Text.{Bytes, to_string, to_string-IsDigit}
use edmcoverlay_for_linux.Session.Framing.{
  Connection, Phase, Step, more_header, more_body, header_read, body_read, Steps, here, then,
  getline, on_header, on_body, after_body, receive, stoul,
}
use edmcoverlay_for_linux.Session.Framing.Number.{stoul-to_string}
use edmcoverlay_for_linux.Session.Framing.Cut.{getline-digits, getline-append, take-long}

-- The stream of the messages.
unfoldable pub frames : List Bytes → Bytes
frames [] = []
frames (b ∷ bodies) = to_string (length b) ++ (b'#' ∷ (b ++ frames bodies))

abbrev pub Fits : Bytes → Type 0
Fits b = length b < 2 ^ 64

-- What the connection has still to read, for the bodies it has still to deliver.
abbrev pub Expects : Phase → List Bytes → Bytes → Type 0
Expects Phase.header left stream = stream ≡ frames left
Expects Phase.closed left stream = ⊥
Expects Phase.ended left stream = Unit
Expects (Phase.body size) [] stream = ⊥
Expects (Phase.body size) (b ∷ left) stream = (size ≡ length b) × (stream ≡ b ++ frames left)

-- The bodies delivered, then those to come.
pub record OnTrack (bodies : List Bytes) (c : Connection) : Type 0 where
  pub left : List Bytes
  pub whole : bodies ≡ c.delivered ++ left
  pub fits : All Fits left
  pub expects : Expects c.phase left (c.buffer ++ c.pending)

-- The connection before anything has arrived.
abbrev pub opened : Bytes → Connection
opened stream = record { buffer = []; phase = Phase.header; pending = stream; delivered = [] }

pub opened-OnTrack :
    (bodies : List Bytes) → All Fits bodies → OnTrack bodies (opened (frames bodies))
opened-OnTrack bodies f = record { left = bodies; whole = refl; fits = f; expects = refl }

receive-OnTrack :
    (bodies : List Bytes) (c : Connection) (chunk rest : Bytes)
    → c.pending ≡ chunk ++ rest
    → OnTrack bodies c
    → OnTrack bodies (receive chunk rest c)
receive-OnTrack bodies c chunk rest e t = record {
  left = t.left;
  whole = t.whole;
  fits = t.fits;
  expects =
      subst (Expects c.phase t.left) (ap (◌++◌ c.buffer) e ∙ sym (append_assoc c.buffer chunk rest))
        t.expects;
}

header_ok :
    (text rest : Bytes) (c : Connection) (n : ℕ)
    → stoul text ≡ ok n
    → on_header text rest c ≡ record c { buffer = rest; phase = Phase.body n }
unfolding on_header
header_ok text rest c n h = rw (h, on_header) refl

no_header :
    (buffer pending text rest : Bytes)
    → getline buffer ≡ some (text, rest)
    → buffer ++ pending ≡ []
    → ⊥
unfolding getline
no_header [] pending text rest g e = cc
no_header (c ∷ buffer) pending text rest g e = cc

on_header-OnTrack :
    (bodies left : List Bytes) (c : Connection) (text rest : Bytes)
    → getline c.buffer ≡ some (text, rest)
    → bodies ≡ c.delivered ++ left
    → All Fits left
    → c.buffer ++ c.pending ≡ frames left
    → OnTrack bodies (on_header text rest c)
unfolding frames
on_header-OnTrack bodies [] c text rest g w f e =
    absurd (no_header c.buffer c.pending text rest g e)
on_header-OnTrack bodies (b ∷ left) c text rest g w f e =
    let cut : some (text, rest ++ c.pending) ≡ some (to_string (length b), b ++ frames left) =
      sym (getline-append c.buffer c.pending text rest g)
      ∙ ap getline e
      ∙ getline-digits (to_string (length b)) (b ++ frames left) (to_string-IsDigit (length b)) in
    let read : stoul text ≡ ok (length b) = ap stoul (cc cut) ∙ stoul-to_string (length b) f.0 in
    subst (OnTrack bodies) (sym (header_ok text rest c (length b) read))
      record { left = b ∷ left; whole = w; fits = f; expects = (refl, cc cut) }

whichever :
    (returns : Bool) (left : List Bytes) (stream : Bytes)
    → stream ≡ frames left
    → Expects (after_body returns) left stream
whichever true left stream e = e
whichever false left stream e = tt

on_body-OnTrack :
    (bodies left : List Bytes) (c : Connection) (returns : Bool) (size : ℕ)
    → size ≤ length c.buffer
    → bodies ≡ c.delivered ++ left
    → All Fits left
    → Expects (Phase.body size) left (c.buffer ++ c.pending)
    → OnTrack bodies (on_body returns size c)
unfolding on_body
on_body-OnTrack bodies [] c returns size h w f e = absurd e
on_body-OnTrack bodies (b ∷ left) c returns size h w f (n, e) =
    let (t, d) = take-long size c.buffer c.pending h in
    let body : take size c.buffer ≡ b =
      sym t
      ∙ ap (take size) e
      ∙ ap (λ n. take n (b ++ frames left)) n
      ∙ take-append b (frames left) in
    let rest : drop size c.buffer ++ c.pending ≡ frames left =
      sym d
      ∙ ap (drop size) e
      ∙ ap (λ n. drop n (b ++ frames left)) n
      ∙ drop-append b (frames left) in
    record {
      left = left;
      whole =
          w
          ∙ ap (λ b. c.delivered ++ (b ∷ left)) (sym body)
          ∙ sym (append_assoc c.delivered (take size c.buffer ∷ []) left);
      fits = f.1;
      expects = whichever returns left (drop size c.buffer ++ c.pending) rest;
    }

Step-OnTrack :
    (bodies : List Bytes) {c d : Connection} → Step c d → OnTrack bodies c → OnTrack bodies d
Step-OnTrack bodies {c} (more_header chunk rest p g ne e) t =
    receive-OnTrack bodies c chunk rest e t
Step-OnTrack bodies {c} (more_body size chunk rest p ne h e) t =
    receive-OnTrack bodies c chunk rest e t
Step-OnTrack bodies {c} (header_read text rest p g) t =
    on_header-OnTrack bodies t.left c text rest g t.whole t.fits
      (subst (λ p. Expects p t.left (c.buffer ++ c.pending)) p t.expects)
Step-OnTrack bodies {c} (body_read returns size p h) t =
    on_body-OnTrack bodies t.left c returns size h t.whole t.fits
      (subst (λ p. Expects p t.left (c.buffer ++ c.pending)) p t.expects)

pub Steps-OnTrack :
    (bodies : List Bytes) {c d : Connection} → Steps c d → OnTrack bodies c → OnTrack bodies d
Steps-OnTrack bodies here t = t
Steps-OnTrack bodies (then steps step) t = Step-OnTrack bodies step (Steps-OnTrack bodies steps t)

-- A client sends bodies of at most 2 ^ 64 - 1 bytes, each behind its length in decimal and a '#'.
-- Whatever pieces the network makes of the stream, the connection never closes it as bad, and what
-- it has delivered at any time is a first part of the bodies, in order and unchanged.
pub Steps-delivered :
    (bodies : List Bytes) (c : Connection)
    → All Fits bodies
    → Steps (opened (frames bodies)) c
    → (c.phase ≢ Phase.closed) × ((left : List Bytes) × (bodies ≡ c.delivered ++ left))
Steps-delivered bodies c f steps =
    let t = Steps-OnTrack bodies steps (opened-OnTrack bodies f) in
    (
      λ closed. subst (λ p. Expects p t.left (c.buffer ++ c.pending)) closed t.expects,
      (t.left, t.whole),
    )
