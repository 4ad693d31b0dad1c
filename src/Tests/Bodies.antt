-- ===== src/Tests/Bodies.antt =====
-- app/streams.py at concrete bodies.
use hidden.Base.{
  ℕ, ◌+◌, ◌≤◌, ◌<◌, ◌≡◌, refl, Bool, true, false, Option, none, some, List, [], ◌∷◌, ◌++◌, Text,
  codes, map, take, drop, length, All, IsFree, ℤ, pos, negsuc, arith,
}
use hidden.Errors.{s3, object_too_large, ok, err}
use hidden.Streams.Body.{
  Event, chunk, disconnect, RequestBodyReader, isdigit, assert_declared_length,
}
use hidden.Streams.Body.Reads.{IsWithin, unread, read-take, read-too_large}
use hidden.Streams.Chunked.{Source, AwsChunkedReader, open_chunked, parse_frame_size, flat, pending}
use hidden.Streams.Chunked.Encoded.{Frame, IsLine, IsFrame, payloads}
use hidden.Streams.Chunked.RoundTrip.{read_frames}
use hidden.Streams.Build.{BodyHeaders, is_aws_chunked, BodyReader, build_body_reader, read_body}
use hidden.Tests.Requests.{lower_char}
use hidden.Streams.Build.Unwrapped.{build_body_reader-reads}

-- A body of two chunks and a limit of five bytes.
abbrev reader : RequestBodyReader
reader = record {
  stream = chunk (codes "ab") ∷ (chunk (codes "cde") ∷ []);
  buffer = [];
  exhausted = false;
  received = 0;
  max_bytes = 5;
  resource = none;
}

reader-IsWithin : IsWithin reader
reader-IsWithin = record {
  connected = tt;
  ended = λ over. absurd (ground (arith, over));
  fits = omega arith;
}

read-take_example :
    (r' : RequestBodyReader) × (hidden.Streams.Body.read reader (pos 3)
      ≡ ok (take 3 (unread reader), r'))
    × (unread r' ≡ drop 3 (unread reader))
    × IsWithin r'
read-take_example = read-take reader 3 reader-IsWithin

abbrev small : RequestBodyReader
small = record reader { max_bytes = 4 }

read-too_large_example : hidden.Streams.Body.read small (negsuc 0) ≡ err (s3 object_too_large none)
read-too_large_example = read-too_large small 0 tt refl (omega arith) (omega arith)

-- The frames "abc" and "de", cut into chunks inside the first size line and the second payload.
abbrev source : Source
source =
    ok (codes "3;x") ∷ (ok (codes "y\r\nabc\r\n2\r\nd") ∷ (ok (codes "e\r\n0\r\nt:1\r\n\r\n") ∷ []))

abbrev frames : List Frame
frames =
    record { line = codes "3;xy"; payload = codes "abc" }
    ∷ (record { line = codes "2"; payload = codes "de" } ∷ [])

signed-IsLine : IsLine (codes "3;xy")
signed-IsLine = record {
  free = (refl, (refl, (refl, (refl, tt))));
  short = omega arith;
  nonempty = refl;
}

two-IsLine : IsLine (codes "2")
two-IsLine = record { free = (refl, tt); short = omega arith; nonempty = refl }

zero-IsLine : IsLine (codes "0")
zero-IsLine = record { free = (refl, tt); short = omega arith; nonempty = refl }

trailer-IsLine : IsLine (codes "t:1")
trailer-IsLine = record { free = (refl, (refl, (refl, tt))); short = omega arith; nonempty = refl }

three : (resource : Option Text) → parse_frame_size resource (codes "3;xy") ≡ ok (pos 3)
unfolding parse_frame_size hidden.Streams.Hex.int_base_16 hidden.Streams.Hex.strip
    hidden.Base.split_first
three resource = refl

two : (resource : Option Text) → parse_frame_size resource (codes "2") ≡ ok (pos 2)
unfolding parse_frame_size hidden.Streams.Hex.int_base_16 hidden.Streams.Hex.strip
    hidden.Base.split_first
two resource = refl

nothing : parse_frame_size none (codes "0") ≡ ok (pos 0)
unfolding parse_frame_size hidden.Streams.Hex.int_base_16 hidden.Streams.Hex.strip
    hidden.Base.split_first
nothing = refl

frames-AreFrames : All IsFrame frames
frames-AreFrames = (
  record { is_line = signed-IsLine; size = three; nonempty = refl },
  (record { is_line = two-IsLine; size = two; nonempty = refl }, tt),
)

read_frames_example :
    (r' : AwsChunkedReader) × (hidden.Streams.Chunked.read (open_chunked source none) (negsuc 0)
      ≡ ok (payloads frames, r'))
    × (pending r' ≡ [])
    × (r'.finished ≡ true)
read_frames_example =
    read_frames source none frames (codes "0") (codes "t:1" ∷ []) [] tt frames-AreFrames zero-IsLine
      nothing (trailer-IsLine, tt) refl

-- The same body in two chunks, under the headers of a client that uploads it in frames.
abbrev chunks : List Event
chunks = chunk (codes "3;xy\r\nabc\r\n2\r\nd") ∷ (chunk (codes "e\r\n0\r\nt:1\r\n\r\n") ∷ [])

abbrev headers : BodyHeaders
headers = record {
  content_encoding = some (codes "AWS-Chunked,gzip");
  content_sha256 = none;
  decoded_content_length = some (codes "5");
  content_length = some (codes "27");
}

declared : assert_declared_length 100 none (some (codes "5")) (some (codes "27")) ≡ ok tt
unfolding assert_declared_length isdigit hidden.Streams.Body.int_of_digits
declared = refl

build_body_reader-reads_example :
    (r : BodyReader) × (r' : BodyReader) × (build_body_reader
        (map lower_char)
        headers
        chunks
        100
        none
      ≡ ok r)
    × (read_body r (negsuc 0) ≡ ok (codes "abcde", r'))
unfolding is_aws_chunked hidden.Base.has_infix hidden.Base.starts_with
build_body_reader-reads_example =
    build_body_reader-reads (map lower_char) headers chunks 100 none frames (codes "0")
      (codes "t:1" ∷ []) [] tt (omega arith) declared frames-AreFrames zero-IsLine nothing
      (trailer-IsLine, tt) refl
