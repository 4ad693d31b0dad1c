-- ===== src/Streams/Build/Unwrapped.antt =====
-- The reader that `build_body_reader` chooses, read to its end.
use hidden.Base.{
  pos, negsuc, ℕ, zero, suc, ◌≤◌, ◌<◌, ◌≡◌, refl, sym, ap, subst, inl, inr, Bool-cases, ◌∙◌, false,
  Option, List, [], ◌∷◌, ◌++◌, Text, nat_eq, list_eq, if◌then◌else◌, length, take, drop,
  take-append-drop, length-drop, All, arith,
}
use hidden.Errors.{ok}
use hidden.Streams.Body.{Event, RequestBodyReader, open_reader, assert_declared_length}
use hidden.Streams.Body.Reads.{unread, body, IsConnected, IsWithin, read-take, read-all}
use hidden.Streams.Chunked.{Source, open_chunked, parse_frame_size, flat}
use hidden.Streams.Chunked.Frames.{IsSound}
use hidden.Streams.Chunked.Encoded.{Frame, IsLine, IsFrame, encode_frames, payloads, encode_trailer}
use hidden.Streams.Chunked.RoundTrip.{read_frames}
use hidden.Streams.Build.{
  BodyHeaders, is_aws_chunked, file_chunk_size_bytes, then_reads, reads, BodyReader, plain,
  unwrapped, build_body_reader, read_body,
}

-- A text is given by what one read takes of it and by what the later ones give.
after_read :
    (n : ℕ) (u : Text) (later : Source)
    → 0 < n
    → (length (drop n u) < length u → IsSound later × (flat later ≡ drop n u))
    → IsSound (ok (take n u) ∷ later) × (flat (ok (take n u) ∷ later) ≡ u)
after_read zero [] later h rest = absurd (omega arith)
after_read (suc n) [] later h rest = (tt, refl)
after_read zero (c ∷ u) later h rest = absurd (omega arith)
after_read (suc n) (c ∷ u) later h rest =
    let (sound, given) = rest (omega (arith, length-drop n u)) in
    (sound, ap (λ t. c ∷ (take n u ++ t)) given ∙ ap (λ t. c ∷ t) (take-append-drop n u))

-- A body within the limit is given by the reads from end to end.
reads_lem :
    (fuel : ℕ) (r : RequestBodyReader)
    → IsWithin r
    → length (unread r) < fuel
    → IsSound (reads fuel r) × (flat (reads fuel r) ≡ unread r)
unfolding reads
reads_lem zero r w h = absurd (omega arith)
reads_lem (suc fuel) r w h =
    let (r', e, left, within) = read-take r file_chunk_size_bytes w in
    subst (λ m. IsSound (then_reads m (reads fuel)) × (flat (then_reads m (reads fuel)) ≡ unread r))
      (sym e)
      (after_read file_chunk_size_bytes (unread r) (reads fuel r') (omega arith) (λ fewer.
        let (sound, given) = reads_lem fuel r' within (omega (arith, h, ap length left, fewer)) in
        (sound, given ∙ left)))

-- A body in aws-chunked framing whose lines are below the line limit, from a client that stays, with at
-- most `max_bytes` bytes, framing included, and a declared length that is accepted: if the headers
-- announce the framing, the reader that `build_body_reader` makes for it is read to its end by `read(-1)`
-- as the payloads of the frames in their order; if they do not, it is read as it is.
pub build_body_reader-reads :
    (lower : Text → Text) (headers : BodyHeaders) (stream : List Event) (max_bytes : ℕ)
    (resource : Option Text) (fs : List Frame) (line : Text) (lines : List Text) (tail : Text)
    → IsConnected stream
    → length (body stream) ≤ max_bytes
    → assert_declared_length max_bytes resource headers.decoded_content_length
        headers.content_length
      ≡ ok tt
    → All IsFrame fs
    → IsLine line
    → parse_frame_size resource line ≡ ok (pos 0)
    → All IsLine lines
    → body stream ≡ encode_frames fs (line ++ 13 ∷ 10 ∷ encode_trailer lines tail)
    → (r : BodyReader) × (r' : BodyReader) × (build_body_reader lower headers stream max_bytes
          resource
        ≡ ok r)
      × (read_body r (negsuc 0)
          ≡ ok (if is_aws_chunked lower headers then payloads fs else body stream, r'))
unfolding build_body_reader open_reader read_body
build_body_reader-reads lower headers stream max_bytes resource fs line lines tail connected fits
      declared hf hl size ok_ e =
    elim (Bool-cases (is_aws_chunked lower headers)) [
      | inl framed ↦
          let (sound, given) =
            reads_lem (suc (length (unread reader))) reader within (omega arith) in
          let (r', done, _, _) =
            read_frames source resource fs line lines tail sound hf hl size ok_ (given ∙ e) in
          (
            unwrapped (open_chunked source resource),
            unwrapped r',
            rw (declared, framed),
            rw (framed, done),
          )
      | inr whole ↦
          let (r', done, _, _) = read-all reader 0 within in
          (plain reader, plain r', rw (declared, whole), rw (whole, done))
    ]
  where
    reader : RequestBodyReader
    reader = record {
      stream = stream;
      buffer = [];
      exhausted = false;
      received = 0;
      max_bytes = max_bytes;
      resource = resource;
    }

    within : IsWithin reader
    within = record {
      connected = connected;
      ended = λ over. absurd (ground arith);
      fits = omega (arith, fits);
    }

    source : Source
    source = reads (suc (length (unread reader))) reader
