-- ===== src/Session/Framing.antt =====
-- readHeader and readBody of TcpSession (cpp/tcp_session.hpp): the messages `length#body` of a
-- connection.
pub mod Number
pub mod Cut
pub mod Stream
pub mod Progress
use edmcoverlay_for_linux.Base.{
  ℕ, zero, suc, ◌+◌, ◌-◌, ◌*◌, ◌%◌, ◌^◌, ◌≤◌, ◌≡◌, ◌≢◌, Bool, true, false, ◌&&◌, ◌||◌, Option, none,
  some, List, [], ◌∷◌, ◌++◌, if◌then◌else◌, leb, ltb, ◌==◌, length, take, drop, Result, ok, thrown,
  Exception,
}
use edmcoverlay_for_linux.Base.Text.{Bytes}

-- isspace in the "C" locale
unfoldable pub is_space : ℕ → Bool
is_space c = c == 32 || (leb 9 c && leb c 13)

abbrev pub is_digit : ℕ → Bool
is_digit c = leb 48 c && leb c 57

unfoldable pub skip_spaces : Bytes → Bytes
unfolding is_space
skip_spaces [] = []
skip_spaces (c ∷ cs) = let rest = skip_spaces cs in if is_space c then rest else c ∷ cs

-- The number that the digits in front stand for, behind those already read.
unfoldable pub leading_value : ℕ → Bytes → ℕ
leading_value v [] = v
leading_value v (c ∷ cs) =
    let more = leading_value (v * 10 + (c - 48)) cs in if is_digit c then more else v

-- What stands behind the sign: at least one digit.
unfoldable pub unsigned_digits : Bytes → Result ℕ
unfolding leading_value
unsigned_digits [] = thrown Exception.invalid_argument
unsigned_digits (c ∷ cs) =
    if is_digit c
    then (if ltb (leading_value 0 (c ∷ cs)) (2 ^ 64)
        then ok (leading_value 0 (c ∷ cs))
        else thrown Exception.out_of_range)
    else thrown Exception.invalid_argument

abbrev pub negated : Result ℕ → Result ℕ
negated (ok v) = ok ((2 ^ 64 - v) % 2 ^ 64)
negated (thrown e) = thrown e

unfoldable pub signed_digits : Bytes → Result ℕ
unfolding unsigned_digits
signed_digits [] = thrown Exception.invalid_argument
signed_digits (c ∷ cs) =
    if c == b'-'
    then negated (unsigned_digits cs)
    else if c == b'+'
    then unsigned_digits cs
    else unsigned_digits (c ∷ cs)

-- std::stoul(header), which leaves what follows the digits aside
unfoldable pub stoul : Bytes → Result ℕ
unfolding skip_spaces signed_digits
stoul header = signed_digits (skip_spaces header)

abbrev pub prepended : ℕ → Option (Bytes × Bytes) → Option (Bytes × Bytes)
prepended c none = none
prepended c (some (header, rest)) = some (c ∷ header, rest)

-- std::getline(is, header, '#'): the text before the first '#', and that behind it.
unfoldable pub getline : Bytes → Option (Bytes × Bytes)
getline [] = none
getline (c ∷ cs) = let more = prepended c (getline cs) in if c == b'#' then some ([], cs) else more

-- Which completion handler the connection waits for. It is `ended` once the process is: process_payload
-- has let an exception through, or left what C++ defines.
pub data Phase : Type 0 where
  header closed ended : Phase
  body : ℕ → Phase

-- The buffer, the phase, what the client has sent and the socket has not given out, and the bodies
-- passed to process_payload, in order.
pub record Connection : Type 0 where
  pub buffer : Bytes
  pub phase : Phase
  pub pending : Bytes
  pub delivered : List Bytes

-- The handler of readHeader, given the header: a bad length drops the buffer and closes the socket.
unfoldable pub on_header : Bytes → Bytes → Connection → Connection
unfolding stoul
on_header text rest c = elim (stoul text) [
  | ok size ↦ record c { buffer = rest; phase = Phase.body size }
  | thrown e ↦ record c { buffer = []; phase = Phase.closed }
]

-- Where the handler of readBody leaves the connection, given whether process_payload returns.
abbrev pub after_body : Bool → Phase
after_body true = Phase.header
after_body false = Phase.ended

-- The handler of readBody, given whether process_payload returns.
unfoldable pub on_body : Bool → ℕ → Connection → Connection
on_body returns size c = record c {
  buffer = drop size c.buffer;
  phase = after_body returns;
  delivered = c.delivered ++ (take size c.buffer ∷ []);
}

-- The bytes that the socket gives out go to the end of the buffer.
abbrev pub receive : Bytes → Bytes → Connection → Connection
receive chunk rest c = record c { buffer = c.buffer ++ chunk; pending = rest }

-- What can happen next. async_read_until takes what the socket gives while there is no '#' in the
-- buffer; async_read with transfer_exactly takes no more than what the body still lacks.
pub data Step (c : Connection) : Connection → Type 0 where
  more_header :
      (chunk rest : Bytes)
      → c.phase ≡ Phase.header
      → getline c.buffer ≡ none
      → chunk ≢ []
      → c.pending ≡ chunk ++ rest
      → Step c (receive chunk rest c)
  more_body :
      (size : ℕ) (chunk rest : Bytes)
      → c.phase ≡ Phase.body size
      → chunk ≢ []
      → length c.buffer + length chunk ≤ size
      → c.pending ≡ chunk ++ rest
      → Step c (receive chunk rest c)
  header_read :
      (text rest : Bytes)
      → c.phase ≡ Phase.header
      → getline c.buffer ≡ some (text, rest)
      → Step c (on_header text rest c)
  body_read :
      (returns : Bool) (size : ℕ)
      → c.phase ≡ Phase.body size
      → size ≤ length c.buffer
      → Step c (on_body returns size c)

pub data Steps : Connection → Connection → Type 0 where
  here : {c : Connection} → Steps c c
  then : {a b c : Connection} → Steps a b → Step b c → Steps a c
