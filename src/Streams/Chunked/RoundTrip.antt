-- ===== src/Streams/Chunked/RoundTrip.antt =====
-- A body in aws-chunked framing is decoded to the bytes inside its frames.
use hidden.Base.{
  ℕ, zero, suc, ◌≤◌, ◌<◌, ◌≡◌, refl, sym, ap, ◌∙◌, true, false, Option, List, [], ◌∷◌, ◌++◌, Text,
  nat_eq, list_eq, All, length, length-append, arith, append_assoc, append-nil,
}
use hidden.Errors.{ok}
use hidden.Base.{ℤ, pos, negsuc}
use hidden.Streams.Chunked.{
  Source, AwsChunkedReader, parse_frame_size, decode_frame, decode_loop, read, open_chunked, flat,
  pending,
}
use hidden.Streams.Chunked.Frames.{IsSound}
use hidden.Streams.Chunked.Encoded.{
  Frame, IsLine, IsFrame, encode_frames, payloads, encode_trailer, decode_frame_lem, last_frame,
}

decode_loop-step :
    (fuel : ℕ) (r r' : AwsChunkedReader)
    → r.finished ≡ false
    → decode_frame r ≡ ok r'
    → decode_loop (suc fuel) (negsuc 0) r ≡ decode_loop fuel (negsuc 0) r'
unfolding decode_loop
decode_loop-step fuel r r' open_ got = ground (arith, open_, got)

decode_loop-finished :
    (fuel : ℕ) (size : ℤ) (r : AwsChunkedReader)
    → r.finished ≡ true
    → decode_loop fuel size r ≡ ok r
unfolding decode_loop
decode_loop-finished zero size r over = refl
decode_loop-finished (suc fuel) size r over = ground (arith, over)

-- The whole loop of `read`, if the fuel exceeds the number of the frames.
decode_loop_lem :
    (fuel : ℕ) (fs : List Frame) (line : Text) (lines : List Text) (r : AwsChunkedReader)
    (tail : Text)
    → length fs < fuel
    → All IsFrame fs
    → IsLine line
    → parse_frame_size r.resource line ≡ ok (pos 0)
    → All IsLine lines
    → IsSound r.source
    → r.finished ≡ false
    → pending r ≡ encode_frames fs (line ++ 13 ∷ 10 ∷ encode_trailer lines tail)
    → (r' : AwsChunkedReader) × (decode_loop fuel (negsuc 0) r ≡ ok r')
      × (pending r' ≡ tail)
      × (r'.payload ≡ r.payload ++ payloads fs)
      × (r'.finished ≡ true)
decode_loop_lem zero fs line lines r tail enough hf hl size ok_ sound open_ e =
    absurd (omega (arith, enough))
decode_loop_lem (suc fuel) [] line lines r tail enough hf hl size ok_ sound open_ e =
    let (r', got, left, kept, over) = last_frame line lines r tail hl size ok_ sound e in
    (
      r',
      decode_loop-step fuel r r' open_ got ∙ decode_loop-finished fuel (negsuc 0) r' over,
      left,
      kept ∙ sym (append-nil r.payload),
      over,
    )
decode_loop_lem (suc fuel) (f ∷ fs) line lines r tail enough hf hl size ok_ sound open_ e =
    let (r₁, got, left, sound₁, filled, same, kept) =
      decode_frame_lem f r (encode_frames fs (line ++ 13 ∷ 10 ∷ encode_trailer lines tail)) hf.0
        sound e in
    let (r₂, done, left₂, filled₂, over) =
      decode_loop_lem fuel fs line lines r₁ tail (omega (arith, enough)) hf.1 hl
        (ap (λ x. parse_frame_size x line) kept ∙ size) ok_ sound₁ (same ∙ open_) left in
    (
      r₂,
      decode_loop-step fuel r r₁ open_ got ∙ done,
      left₂,
      filled₂ ∙ ap (λ p. p ++ payloads fs) filled ∙ append_assoc r.payload f.payload (payloads fs),
      over,
    )

frames_bound : (fs : List Frame) (tail : Text) → length fs ≤ length (encode_frames fs tail)
frames_bound [] tail = omega arith
frames_bound (f ∷ fs) tail = omega (
  arith,
  frames_bound fs tail,
  length-append f.line (13 ∷ 10 ∷ (f.payload ++ 13 ∷ 10 ∷ encode_frames fs tail)),
  length-append f.payload (13 ∷ 10 ∷ encode_frames fs tail),
)

-- A source that gives a body in aws-chunked framing, cut into chunks in any way, is read to its end
-- by `read(-1)`: the result is the payloads of the frames in their order. The frames have size lines
-- that are not empty, hold no CR, are below the line limit and state the length of a payload that is
-- not empty; a frame whose size line states 0 ends the body, and behind it stand trailer lines of the
-- same form, an empty line and anything at all, of which nothing is read into the payload.
pub read_frames :
    (source : Source) (resource : Option Text) (fs : List Frame) (line : Text) (lines : List Text)
    (tail : Text)
    → IsSound source
    → All IsFrame fs
    → IsLine line
    → parse_frame_size resource line ≡ ok (pos 0)
    → All IsLine lines
    → flat source ≡ encode_frames fs (line ++ 13 ∷ 10 ∷ encode_trailer lines tail)
    → (r' : AwsChunkedReader) × (read (open_chunked source resource) (negsuc 0)
        ≡ ok (payloads fs, r'))
      × (pending r' ≡ tail)
      × (r'.finished ≡ true)
unfolding read
read_frames source resource fs line lines tail sound hf hl size ok_ e =
    let r : AwsChunkedReader = open_chunked source resource in
    let (r₁, done, left, filled, over) =
      decode_loop_lem (suc (length (flat source))) fs line lines r tail
        (omega (arith, frames_bound fs (line ++ 13 ∷ 10 ∷ encode_trailer lines tail), ap length e))
        hf hl size ok_ sound refl e in
    (record r₁ { payload = [] }, ground (arith, done, filled), left, over)
