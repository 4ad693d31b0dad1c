-- ===== src/Streams/Chunked/Encoded.antt =====
-- What a client writes in aws-chunked framing, and what the reader makes of each frame and of the last one
-- with its trailer.
use hidden.Base.{
  ℕ, zero, suc, ◌<◌, ◌≡◌, refl, ap, ◌∙◌, true, false, Option, some, List, [], ◌∷◌, ◌++◌, Text, ◌==◌,
  nat_eq, list_eq, IsFree, All, length, length-append, arith,
}
use hidden.Errors.{ok}
use hidden.Base.{pos}
use hidden.Streams.Chunked.{
  chunk_line_max_bytes, AwsChunkedReader, parse_frame_size, read_exact_loop, read_line_loop,
  skip_trailer, decode_sized, decode_frame, pending,
}
use hidden.Streams.Chunked.Frames.{IsSound, Advances, read_line_loop_lem, read_exact_loop_lem}

abbrev crlf : Text
crlf = 13 ∷ 10 ∷ []

-- A frame as a client writes it: its size line, which may carry a signature, and its bytes.
pub record Frame : Type 0 where
  pub line : Text
  pub payload : Text

pub record IsLine (line : Text) : Type 0 where
  pub free : IsFree 13 line
  pub short : length line < chunk_line_max_bytes
  pub nonempty : (line == []) ≡ false

-- The size line states the length of the payload, which is not empty.
pub record IsFrame (f : Frame) : Type 0 where
  pub is_line : IsLine f.line
  pub size :
      (resource : Option Text) → parse_frame_size resource f.line ≡ ok (pos (length f.payload))
  pub nonempty : (f.payload == []) ≡ false

abbrev pub encode_frame : Frame → Text
encode_frame f = f.line ++ 13 ∷ 10 ∷ (f.payload ++ 13 ∷ 10 ∷ [])

abbrev pub encode_frames : List Frame → Text → Text
encode_frames [] tail = tail
encode_frames (f ∷ fs) tail = f.line ++ 13 ∷ 10 ∷ (f.payload ++ 13 ∷ 10 ∷ encode_frames fs tail)

abbrev pub payloads : List Frame → Text
payloads [] = []
payloads (f ∷ fs) = f.payload ++ payloads fs

decode_sized-data :
    (line part last : Text) (r r₂ r₃ : AwsChunkedReader)
    → (part == []) ≡ false
    → parse_frame_size r.resource line ≡ ok (pos (length part))
    → read_exact_loop (pos (length part)) r.source r ≡ ok (part, r₂)
    → read_exact_loop (pos 2) r₂.source r₂ ≡ ok (last, r₃)
    → decode_sized line r ≡ ok (record r₃ { payload = r.payload ++ part })
unfolding decode_sized
decode_sized-data line [] last r r₂ r₃ filled size got end = absurd (ground (arith, filled))
decode_sized-data line (c ∷ cs) last r r₂ r₃ filled size got end = rw (size, got, end)

-- One frame is decoded into the payload buffer, and what follows it is left.
decode_sized_lem :
    (f : Frame) (r : AwsChunkedReader) (tail : Text)
    → IsFrame f
    → IsSound r.source
    → pending r ≡ f.payload ++ 13 ∷ 10 ∷ tail
    → (r' : AwsChunkedReader) × (decode_sized f.line r ≡ ok r')
      × (pending r' ≡ tail)
      × IsSound r'.source
      × (r'.payload ≡ r.payload ++ f.payload)
      × (r'.finished ≡ r.finished)
      × (r'.resource ≡ r.resource)
decode_sized_lem f r tail hf sound e =
    let (r₂, got, rest₂, adv₂) =
      read_exact_loop_lem r.source r f.payload (13 ∷ 10 ∷ tail) sound e in
    let (r₃, end, rest₃, adv₃) =
      read_exact_loop_lem r₂.source r₂ (13 ∷ 10 ∷ []) tail adv₂.sound rest₂ in
    (
      record r₃ { payload = r.payload ++ f.payload },
      decode_sized-data f.line f.payload (13 ∷ 10 ∷ []) r r₂ r₃ hf.nonempty (hf.size r.resource) got
          end,
      rest₃,
      adv₃.sound,
      refl,
      adv₃.finished ∙ adv₂.finished,
      adv₃.resource ∙ adv₂.resource,
    )

decode_frame-line :
    (line : Text) (r r₁ : AwsChunkedReader)
    → (line == []) ≡ false
    → read_line_loop r.source r ≡ ok (some line, r₁)
    → decode_frame r ≡ decode_sized line r₁
unfolding decode_frame
decode_frame-line [] r r₁ filled got = absurd (ground (arith, filled))
decode_frame-line (c ∷ cs) r r₁ filled got = rw got

pub decode_frame_lem :
    (f : Frame) (r : AwsChunkedReader) (tail : Text)
    → IsFrame f
    → IsSound r.source
    → pending r ≡ f.line ++ 13 ∷ 10 ∷ (f.payload ++ 13 ∷ 10 ∷ tail)
    → (r' : AwsChunkedReader) × (decode_frame r ≡ ok r')
      × (pending r' ≡ tail)
      × IsSound r'.source
      × (r'.payload ≡ r.payload ++ f.payload)
      × (r'.finished ≡ r.finished)
      × (r'.resource ≡ r.resource)
decode_frame_lem f r tail hf sound e =
    let (r₁, got, rest, adv) =
      read_line_loop_lem r.source r f.line (f.payload ++ 13 ∷ 10 ∷ tail) sound hf.is_line.free
        hf.is_line.short e in
    let (r₂, done, left, sound₂, filled, open_, kept) =
      decode_sized_lem f r₁ tail hf adv.sound rest in
    (
      r₂,
      decode_frame-line f.line r r₁ hf.is_line.nonempty got ∙ done,
      left,
      sound₂,
      filled ∙ ap (λ p. p ++ f.payload) adv.payload,
      open_ ∙ adv.finished,
      kept ∙ adv.resource,
    )

-- Trailer lines, the empty line behind them, and what the client sent behind the body.
abbrev pub encode_trailer : List Text → Text → Text
encode_trailer [] tail = 13 ∷ 10 ∷ tail
encode_trailer (l ∷ ls) tail = l ++ 13 ∷ 10 ∷ encode_trailer ls tail

skip_trailer-line :
    (fuel : ℕ) (line : Text) (r r₁ : AwsChunkedReader)
    → (line == []) ≡ false
    → read_line_loop r.source r ≡ ok (some line, r₁)
    → skip_trailer (suc fuel) r ≡ skip_trailer fuel r₁
unfolding skip_trailer
skip_trailer-line fuel [] r r₁ filled got = absurd (ground (arith, filled))
skip_trailer-line fuel (c ∷ cs) r r₁ filled got = ground (arith, got)

skip_trailer-end :
    (fuel : ℕ) (r r₁ : AwsChunkedReader)
    → read_line_loop r.source r ≡ ok (some [], r₁)
    → skip_trailer (suc fuel) r ≡ ok r₁
unfolding skip_trailer
skip_trailer-end fuel r r₁ got = rw (got, skip_trailer)

-- The trailer is passed over if the fuel exceeds the number of its lines.
skip_trailer_lem :
    (fuel : ℕ) (lines : List Text) (r : AwsChunkedReader) (tail : Text)
    → length lines < fuel
    → All IsLine lines
    → IsSound r.source
    → pending r ≡ encode_trailer lines tail
    → (r' : AwsChunkedReader) × (skip_trailer fuel r ≡ ok r') × (pending r' ≡ tail) × Advances r r'
skip_trailer_lem zero lines r tail enough ok_ sound e = absurd (omega (arith, enough))
skip_trailer_lem (suc fuel) [] r tail enough ok_ sound e =
    let (r₁, got, rest, adv) = read_line_loop_lem r.source r [] tail sound tt (omega arith) e in
    (r₁, skip_trailer-end fuel r r₁ got, rest, adv)
skip_trailer_lem (suc fuel) (l ∷ ls) r tail enough ok_ sound e =
    let (r₁, got, rest, adv) =
      read_line_loop_lem r.source r l (encode_trailer ls tail) sound ok_.0.free ok_.0.short e in
    let (r₂, done, left, adv₂) =
      skip_trailer_lem fuel ls r₁ tail (omega (arith, enough)) ok_.1 adv.sound rest in
    (
      r₂,
      skip_trailer-line fuel l r r₁ ok_.0.nonempty got ∙ done,
      left,
      record {
        sound = adv₂.sound;
        payload = adv₂.payload ∙ adv.payload;
        finished = adv₂.finished ∙ adv.finished;
        resource = adv₂.resource ∙ adv.resource;
      },
    )

decode_sized-end :
    (line : Text) (r r' : AwsChunkedReader)
    → parse_frame_size r.resource line ≡ ok (pos 0)
    → skip_trailer (suc (length (pending r))) r ≡ ok r'
    → decode_sized line r ≡ ok (record r' { finished = true })
unfolding decode_sized
decode_sized-end line r r' size done = rw (size, done)

-- A trailer is longer than the number of its lines.
trailer_bound :
    (lines : List Text) (tail : Text) → length lines < length (encode_trailer lines tail)
trailer_bound [] tail = omega arith
trailer_bound (l ∷ ls) tail =
    omega (arith, trailer_bound ls tail, length-append l (13 ∷ 10 ∷ encode_trailer ls tail))

-- A body whose last frame has the size 0 is finished, and its trailer is taken off.
pub last_frame :
    (line : Text) (lines : List Text) (r : AwsChunkedReader) (tail : Text)
    → IsLine line
    → parse_frame_size r.resource line ≡ ok (pos 0)
    → All IsLine lines
    → IsSound r.source
    → pending r ≡ line ++ 13 ∷ 10 ∷ encode_trailer lines tail
    → (r' : AwsChunkedReader) × (decode_frame r ≡ ok r')
      × (pending r' ≡ tail)
      × (r'.payload ≡ r.payload)
      × (r'.finished ≡ true)
last_frame line lines r tail hl size ok_ sound e =
    let (r₁, got, rest, adv) =
      read_line_loop_lem r.source r line (encode_trailer lines tail) sound hl.free hl.short e in
    let (r₂, done, left, adv₂) =
      skip_trailer_lem (suc (length (pending r₁))) lines r₁ tail
        (omega (arith, trailer_bound lines tail, ap length rest)) ok_ adv.sound rest in
    (
      record r₂ { finished = true },
      decode_frame-line line r r₁ hl.nonempty got
          ∙ decode_sized-end line r₁ r₂ (ap (λ x. parse_frame_size x line) adv.resource ∙ size)
              done,
      left,
      adv₂.payload ∙ adv.payload,
      refl,
    )
