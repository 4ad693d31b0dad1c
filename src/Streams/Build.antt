-- ===== src/Streams/Build.antt =====
-- `build_body_reader` of app/streams.py, which chooses the reader by the headers.
pub mod Unwrapped
use hidden.Base.{
  ℤ, pos, negsuc, ℕ, zero, suc, ◌*◌, Bool, true, false, not, Option, none, some, List, [], ◌∷◌,
  Text, codes, nat_eq, list_eq, starts_with, has_infix, if◌then◌else◌, length,
}
use hidden.Errors.{Result, ok, err, ◌>>=◌}
use hidden.Streams.Body.{Event, RequestBodyReader, open_reader}
use hidden.Streams.Body.Reads.{unread}
use hidden.Streams.Body
use hidden.Streams.Chunked.{Source, AwsChunkedReader, open_chunked}
use hidden.Streams.Chunked

-- The headers that the readers look at.
pub record BodyHeaders : Type 0 where
  pub content_encoding : Option Text
  pub content_sha256 : Option Text
  pub decoded_content_length : Option Text
  pub content_length : Option Text

abbrev or_empty : Option Text → Text
or_empty none = []
or_empty (some header) = header

-- `str.lower` is the argument `lower`.
unfoldable pub is_aws_chunked : (Text → Text) → BodyHeaders → Bool
is_aws_chunked lower headers =
    if has_infix (codes "aws-chunked") (lower (or_empty headers.content_encoding))
    then true
    else starts_with (codes "STREAMING-") (or_empty headers.content_sha256)

abbrev pub file_chunk_size_bytes : ℕ
file_chunk_size_bytes = 1024 * 64

-- What one call gave, and what the calls after it give.
abbrev pub then_reads : Result (Text × RequestBodyReader) → (RequestBodyReader → Source) → Source
then_reads (err e) later = err e ∷ []
then_reads (ok (c, r)) later = ok c ∷ later r

-- What the calls of `self._source.read(FILE_CHUNK_SIZE_BYTES)` give one after the other. A call that
-- gives something takes a byte at least, so one more than the bytes left is enough fuel to get to the
-- end or to the exception.
unfoldable pub reads : ℕ → RequestBodyReader → Source
reads zero r = []
reads (suc fuel) r = then_reads (Body.read r (pos file_chunk_size_bytes)) (reads fuel)

pub data BodyReader : Type 0 where
  plain : RequestBodyReader → BodyReader
  unwrapped : AwsChunkedReader → BodyReader

unfoldable pub build_body_reader :
    (Text → Text) → BodyHeaders → List Event → ℕ → Option Text → Result BodyReader
build_body_reader lower headers stream max_bytes resource =
    open_reader stream max_bytes resource headers.decoded_content_length headers.content_length
    >>= λ reader.
        if not (is_aws_chunked lower headers)
        then ok (plain reader)
        else ok (unwrapped (open_chunked (reads (suc (length (unread reader))) reader) resource))

-- `read` of either.
unfoldable pub read_body : BodyReader → ℤ → Result (Text × BodyReader)
read_body (plain r) size = Body.read r size >>= λ (data_, r'). ok (data_, plain r')
read_body (unwrapped r) size = Chunked.read r size >>= λ (data_, r'). ok (data_, unwrapped r')
