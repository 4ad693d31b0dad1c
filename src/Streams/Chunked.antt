-- ===== src/Streams/Chunked.antt =====
-- `AwsChunkedReader`. Its source is the list of what the successive calls of `source.read` give: a
-- chunk, the empty one at the end, or an exception. After an exception the reader is not used again.
pub mod Frames
pub mod Encoded
pub mod RoundTrip
use hidden.Base.{
  ℕ, zero, suc, ◌+◌, ◌*◌, ◌-◌, ◌≡◌, refl, Bool, true, false, not, ◌&&◌, ◌||◌, Option, none, some,
  List, [], ◌∷◌, ◌++◌, Text, codes, ◌==◌, nat_eq, list_eq, starts_with, has_infix, map,
  if◌then◌else◌, ltb, leb, length, take, drop, split_first,
}
use hidden.Errors.{Error, s3, object_body_incomplete, Result, ok, err, ◌>>=◌}
use hidden.Base.{ℤ, pos, negsuc}
use hidden.Streams.Body.{wants}
use hidden.Streams.Hex.{strip, int_base_16}

abbrev pub Source : Type 0
Source = List (Result Text)

abbrev pub chunk_line_max_bytes : ℕ
chunk_line_max_bytes = 8 * 1024

pub record AwsChunkedReader : Type 0 where
  pub source : Source
  pub resource : Option Text
  pub framed : Text
  pub payload : Text
  pub drained : Bool
  pub finished : Bool

-- What stands before the first CRLF, and what behind it.
unfoldable pub find_crlf : Text → Option (Text × Text)
find_crlf [] = none
find_crlf (c ∷ []) = none
find_crlf (c ∷ d ∷ s) =
    let later : Option (Text × Text) = elim (find_crlf (d ∷ s)) [
      | none ↦ none
      | some (line, rest) ↦ some (c ∷ line, rest)
    ] in
    if c == 13 && d == 10 then some ([], s) else later

abbrev incomplete {ℓ} : {A : Type ℓ} → AwsChunkedReader → Result A
incomplete r = err (s3 object_body_incomplete r.resource)

-- `_read_line` where the source gives nothing more.
abbrev line_at_end : AwsChunkedReader → Result (Option Text × AwsChunkedReader)
line_at_end r = if r.framed == [] then ok (none, r) else incomplete r

-- One round of the loop of `_read_line`; `more` is what it does if `_receive` is to be called.
abbrev line_or :
    AwsChunkedReader
    → Result (Option Text × AwsChunkedReader)
    → Result (Option Text × AwsChunkedReader)
line_or r more = elim (find_crlf r.framed) [
  | some (line, rest) ↦ ok (some line, record r { framed = rest })
  | none ↦
      if ltb chunk_line_max_bytes (length r.framed)
      then incomplete r
      else if r.drained
      then line_at_end r
      else more
]

-- The loop of `_read_line`, with `_receive` written out for what the source gives next.
unfoldable pub read_line_loop : Source → AwsChunkedReader → Result (Option Text × AwsChunkedReader)
read_line_loop [] r =
    line_or (record r { source = [] }) (line_at_end (record r { source = []; drained = true }))
read_line_loop (err e ∷ s) r = line_or (record r { source = err e ∷ s }) (err e)
read_line_loop (ok [] ∷ s) r =
    line_or (record r { source = ok [] ∷ s })
      (line_at_end (record r { source = s; drained = true }))
read_line_loop (ok (c ∷ cs) ∷ s) r =
    let more = read_line_loop s (record r { framed = r.framed ++ (c ∷ cs) }) in
    line_or (record r { source = ok (c ∷ cs) ∷ s }) more

abbrev pub read_line : AwsChunkedReader → Result (Option Text × AwsChunkedReader)
read_line r = read_line_loop r.source r

-- `len(framed) < count`, `framed[:count]` and `framed[count:]`, where a negative count counts from
-- the end.
abbrev pub lacks : ℤ → Text → Bool
lacks (pos n) s = ltb (length s) n
lacks (negsuc k) s = false

abbrev pub until : ℤ → Text → Text
until (pos n) s = take n s
until (negsuc k) s = take (length s - suc k) s

abbrev pub since : ℤ → Text → Text
since (pos n) s = drop n s
since (negsuc k) s = drop (length s - suc k) s

abbrev exact_or :
    ℤ → AwsChunkedReader → Result (Text × AwsChunkedReader) → Result (Text × AwsChunkedReader)
exact_or count r more =
    if not (lacks count r.framed)
    then ok (until count r.framed, record r { framed = since count r.framed })
    else if r.drained
    then incomplete r
    else more

-- The loop of `_read_exact`.
unfoldable pub read_exact_loop : ℤ → Source → AwsChunkedReader → Result (Text × AwsChunkedReader)
read_exact_loop count [] r = exact_or count (record r { source = [] }) (incomplete r)
read_exact_loop count (err e ∷ s) r = exact_or count (record r { source = err e ∷ s }) (err e)
read_exact_loop count (ok [] ∷ s) r =
    exact_or count (record r { source = ok [] ∷ s }) (incomplete r)
read_exact_loop count (ok (c ∷ cs) ∷ s) r =
    let more = read_exact_loop count s (record r { framed = r.framed ++ (c ∷ cs) }) in
    exact_or count (record r { source = ok (c ∷ cs) ∷ s }) more

abbrev pub read_exact : AwsChunkedReader → ℤ → Result (Text × AwsChunkedReader)
read_exact r count = read_exact_loop count r.source r

unfoldable pub parse_frame_size : Option Text → Text → Result ℤ
parse_frame_size resource line = elim (int_base_16 (strip (split_first b';' line))) [
  | none ↦ err (s3 object_body_incomplete resource)
  | some size ↦ ok size
]

-- The loop of `_skip_trailer`, on fuel: it ends at an empty line or where the body does.
unfoldable pub skip_trailer : ℕ → AwsChunkedReader → Result AwsChunkedReader
skip_trailer zero r = ok r
skip_trailer (suc fuel) r = elim (read_line r) [
  | err e ↦ err e
  | ok (none, r') ↦ ok r'
  | ok (some [], r') ↦ ok r'
  | ok (some (c ∷ line), r') ↦ skip_trailer fuel r'
]

-- The bytes that the source can still give, with those already buffered.
abbrev pub flat : Source → Text
flat [] = []
flat (err e ∷ s) = []
flat (ok [] ∷ s) = []
flat (ok (c ∷ cs) ∷ s) = (c ∷ cs) ++ flat s

abbrev pub pending : AwsChunkedReader → Text
pending r = r.framed ++ (if r.drained then [] else flat r.source)

abbrev is_zero : ℤ → Bool
is_zero (pos zero) = true
is_zero (pos (suc n)) = false
is_zero (negsuc n) = false

-- The frame behind a size line. Each trailing line takes at least two bytes, so there are fewer of
-- them than bytes left, and the fuel of `skip_trailer` is enough.
unfoldable pub decode_sized : Text → AwsChunkedReader → Result AwsChunkedReader
decode_sized line r = do
  size ← parse_frame_size r.resource line
  if is_zero size
      then (do r' ← skip_trailer (suc (length (pending r))) r; ok (record r' { finished = true }))
      else (do
        (part, r₂) ← read_exact r size
        (terminator, r₃) ← read_exact r₂ (pos 2)
        ok (record r₃ { payload = r.payload ++ part }))

unfoldable pub decode_frame : AwsChunkedReader → Result AwsChunkedReader
decode_frame r = do
  (line, r₁) ← read_line r
  elim line [
    | none ↦ ok (record r₁ { finished = true })
    | some [] ↦ ok r₁
    | some (c ∷ cs) ↦ decode_sized (c ∷ cs) r₁
  ]

-- The loop of `read`, on fuel.
unfoldable pub decode_loop : ℕ → ℤ → AwsChunkedReader → Result AwsChunkedReader
decode_loop zero size r = ok r
decode_loop (suc fuel) size r =
    let more : Result AwsChunkedReader = (do r' ← decode_frame r; decode_loop fuel size r') in
    if r.finished || not (wants size r.payload) then ok r else more

abbrev deliver : ℤ → AwsChunkedReader → Text × AwsChunkedReader
deliver (pos size) r = (take size r.payload, record r { payload = drop size r.payload })
deliver (negsuc n) r = (r.payload, record r { payload = [] })

-- Each frame takes two bytes at least, or ends the body.
unfoldable pub read : AwsChunkedReader → ℤ → Result (Text × AwsChunkedReader)
read r size = do r' ← decode_loop (suc (length (pending r))) size r; ok (deliver size r')

abbrev pub open_chunked : Source → Option Text → AwsChunkedReader
open_chunked source resource = record {
  source = source;
  resource = resource;
  framed = [];
  payload = [];
  drained = false;
  finished = false;
}
