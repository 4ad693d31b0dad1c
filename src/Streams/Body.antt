-- ===== src/Streams/Body.antt =====
-- `RequestBodyReader`. `request.stream()` of the web framework is the list of what it yields: a
-- chunk, or the exception of a client that has gone.
pub mod Reads
use hidden.Base.{
  ℤ, pos, negsuc, ℕ, zero, suc, ◌+◌, ◌-◌, ◌*◌, ◌≤◌, ◌<◌, ◌≡◌, refl, Bool, true, false, not, ◌&&◌,
  ◌||◌, Option, none, some, List, [], ◌∷◌, ◌++◌, Text, ◌==◌, nat_eq, list_eq, if◌then◌else◌, ltb,
  leb, is_some, length, take, drop, all, arith, append_assoc, append-nil,
}
use hidden.Errors.{
  Error, s3, object_too_large, client_disconnect, value_error, Result, ok, err, ◌>>=◌, ◌>>◌,
}

pub data Event : Type 0 where
  chunk : Text → Event
  disconnect : Event

pub record RequestBodyReader : Type 0 where
  pub stream : List Event
  pub buffer : Text
  pub exhausted : Bool
  pub received : ℕ
  pub max_bytes : ℕ
  pub resource : Option Text

-- The loop of `read` goes on: `size < 0 or len(buffer) < size`.
abbrev pub wants : ℤ → Text → Bool
wants (pos size) buffer = ltb (length buffer) size
wants (negsuc n) buffer = true

-- `_receive` in the loop of `read`, which ends at the latest where the stream does.
unfoldable pub fill : ℤ → List Event → RequestBodyReader → Result RequestBodyReader
fill size [] r =
    if r.exhausted || not (wants size r.buffer)
    then ok (record r { stream = [] })
    else ok (record r { stream = []; exhausted = true })
fill size (disconnect ∷ rest) r =
    if r.exhausted || not (wants size r.buffer)
    then ok (record r { stream = disconnect ∷ rest })
    else err client_disconnect
fill size (chunk c ∷ rest) r =
    let more =
      fill size rest (record r { received = r.received + length c; buffer = r.buffer ++ c }) in
    if r.exhausted || not (wants size r.buffer)
    then ok (record r { stream = chunk c ∷ rest })
    else if ltb r.max_bytes (r.received + length c)
    then err (s3 object_too_large r.resource)
    else more

-- `bytes(buffer[:size])` and `del buffer[:size]`, or all of it for a negative size.
abbrev pub deliver : ℤ → RequestBodyReader → Text × RequestBodyReader
deliver (pos size) r = (take size r.buffer, record r { buffer = drop size r.buffer })
deliver (negsuc n) r = (r.buffer, record r { buffer = [] })

unfoldable pub read : RequestBodyReader → ℤ → Result (Text × RequestBodyReader)
read r size = do r' ← fill size r.stream r; ok (deliver size r')

-- `s.isdigit()` of a header, whose characters are those of Latin-1: superscripts are digits too.
unfoldable pub isdigit : Text → Bool
isdigit s =
    not (s == []) && all (λ c. (leb b'0' c && leb c b'9') || c == 0xb2 || c == 0xb3 || c == 0xb9) s

-- `int(s)` of such a text; `none` is its ValueError, for a superscript and past 4300 digits.
decimal_from : ℕ → Text → Option ℕ
decimal_from n [] = some n
decimal_from n (c ∷ s) =
    let rest = decimal_from (n * 10 + (c - b'0')) s in
    if leb b'0' c && leb c b'9' then rest else none

unfoldable pub int_of_digits : Text → Option ℕ
unfolding decimal_from
int_of_digits s = if ltb 4300 (length s) then none else decimal_from 0 s

-- The two headers that the test reads, in its order.
unfoldable pub assert_declared_length :
    ℕ → Option Text → Option Text → Option Text → Result (Unit {0})
assert_declared_length max_bytes resource decoded_content_length content_length =
    elim (if is_some decoded_content_length then decoded_content_length else content_length) [
      | none ↦ ok tt
      | some header ↦ if not (isdigit header) then ok tt else elim (int_of_digits header) [
        | none ↦ err value_error
        | some n ↦ if ltb max_bytes n then err (s3 object_too_large resource) else ok tt
      ]
    ]

-- The constructor: the declared length is checked before anything is read.
unfoldable pub open_reader :
    List Event → ℕ → Option Text → Option Text → Option Text → Result RequestBodyReader
open_reader stream max_bytes resource decoded_content_length content_length = do
  assert_declared_length max_bytes resource decoded_content_length content_length
  ok (record {
    stream = stream;
    buffer = [];
    exhausted = false;
    received = 0;
    max_bytes = max_bytes;
    resource = resource;
  })
