-- ===== src/Tests/Sessions.antt =====
-- Connections and messages.
use edmcoverlay_for_linux.Base.{◌⊎◌, true, ◌<◌, ◌≡◌, ◌≢◌, refl, List, [], ◌∷◌, ◌++◌, All, arith}
use edmcoverlay_for_linux.Base.Text.{Bytes, codes, to_string, digits}
use edmcoverlay_for_linux.Session.Framing.{
  Connection, Phase, Step, more_header, more_body, header_read, body_read, Steps, here, then,
  getline, on_header, on_body, receive, stoul, skip_spaces, is_space, signed_digits,
  unsigned_digits, leading_value,
}
use edmcoverlay_for_linux.Session.Framing.Stream.{frames, Fits, opened, Steps-delivered}
use edmcoverlay_for_linux.Session.Framing.Progress.{measure, Step-measure, Steps-waits}

-- One message of two bytes. The socket gives out the header and a byte of the body, then the other.
abbrev bodies : List Bytes
bodies = codes "{}" ∷ []

abbrev start : Connection
start = record { buffer = []; phase = Phase.header; pending = codes "2#{}"; delivered = [] }

stream : frames bodies ≡ codes "2#{}"
unfolding frames to_string digits
stream = refl

abbrev done : Connection
done = record { buffer = []; phase = Phase.header; pending = []; delivered = codes "{}" ∷ [] }

run : Steps (opened (frames bodies)) done
unfolding frames to_string digits getline on_header on_body stoul skip_spaces is_space signed_digits
    unsigned_digits leading_value
run =
    then
      (then
        (then (then here (more_header (codes "2#{") (codes "}") refl refl (λ e. cc e) refl))
          (header_read (codes "2") (codes "{") refl refl))
        (more_body 2 (codes "}") [] refl (λ e. cc e) (omega arith) refl))
      (body_read true 2 refl (omega arith))

bodies_fit : All Fits bodies
bodies_fit = (omega arith, tt)

Steps-delivered_example :
    (done.phase ≢ Phase.closed) × ((left : List Bytes) × (bodies ≡ done.delivered ++ left))
Steps-delivered_example = Steps-delivered bodies done bodies_fit run

append-ne : (chunk rest : Bytes) → chunk ≢ [] → [] ≡ chunk ++ rest → ⊥
append-ne [] rest ne e = ne refl
append-ne (c ∷ chunk) rest ne e = cc e

waits : (d : Connection) → Step done d → ⊥
unfolding getline
waits d (more_header chunk rest p g ne e) = append-ne chunk rest ne e
waits d (more_body size chunk rest p ne h e) = append-ne chunk rest ne e
waits d (header_read text rest p g) = cc g
waits d (body_read returns size p h) = cc p

Steps-waits_example : (done.phase ≡ Phase.ended) ⊎ (done.delivered ≡ bodies)
Steps-waits_example = Steps-waits bodies done bodies_fit run waits

first-Step : Step start (receive (codes "2#") (codes "{}") start)
unfolding getline
first-Step = more_header (codes "2#") (codes "{}") refl refl (λ e. cc e) refl

Step-measure_example : measure (receive (codes "2#") (codes "{}") start) < measure start
Step-measure_example = Step-measure first-Step
