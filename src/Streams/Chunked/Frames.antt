-- ===== src/Streams/Chunked/Frames.antt =====
-- Reading lines and exact counts from a source, however it cuts the body into chunks.
use hidden.Base.{
  ℕ, suc, ◌≤◌, ◌<◌, ◌≡◌, ◌⊎◌, inl, inr, refl, ap, ◌∙◌, false, none, some, [], ◌∷◌, ◌++◌, Text,
  nat_eq, list_eq, IsFree, if◌then◌else◌, length, length-append, take, drop, arith, append_assoc,
  Bool-cases,
}
use hidden.Errors.{ok, err}
use hidden.Base.{pos}
use hidden.Streams.Chunked.{
  Source, chunk_line_max_bytes, AwsChunkedReader, find_crlf, read_line_loop, read_exact_loop, flat,
  pending,
}

-- Whether a text is cut before or behind the first CRLF of a line and what follows it.
crlf_cases :
    (line f g tail : Text)
    → IsFree 13 line
    → f ++ g ≡ line ++ 13 ∷ 10 ∷ tail
    → ((t : Text) × (find_crlf f ≡ some (line, t)) × (t ++ g ≡ tail))
      ⊎ ((find_crlf f ≡ none) × (length f ≤ suc (length line)))
unfolding find_crlf
crlf_cases line [] g tail free e = inr (refl, omega arith)
crlf_cases line (x ∷ []) g tail free e = inr (refl, omega arith)
crlf_cases [] (x ∷ y ∷ f) g tail free e = inl (f, ground arith, ground arith)
crlf_cases (c ∷ line) (x ∷ y ∷ f) g tail free e =
    elim (crlf_cases line (y ∷ f) g tail free.1 (ground arith)) [
      | inl (t, found, rest) ↦ inl (t, ground (arith, found, free.0), rest)
      | inr (gone, short) ↦ inr (ground (arith, gone, free.0), omega arith)
    ]

-- The source ends without an exception.
abbrev pub IsSound : Source → Type 0
IsSound [] = Unit
IsSound (err e ∷ s) = ⊥
IsSound (ok [] ∷ s) = Unit
IsSound (ok (c ∷ cs) ∷ s) = IsSound s

-- What reading leaves alone.
pub record Advances (r r' : AwsChunkedReader) : Type 0 where
  pub sound : IsSound r'.source
  pub payload : r'.payload ≡ r.payload
  pub finished : r'.finished ≡ r.finished
  pub resource : r'.resource ≡ r.resource

-- What a reader has left if its source is `source`.
abbrev left : Source → AwsChunkedReader → Text
left source r = r.framed ++ (if r.drained then [] else flat source)

read_line_loop-found :
    (source : Source) (r : AwsChunkedReader) (line t : Text)
    → find_crlf r.framed ≡ some (line, t)
    → read_line_loop source r ≡ ok (some line, record r { source = source; framed = t })
unfolding read_line_loop
read_line_loop-found [] r line t found = ground (arith, found)
read_line_loop-found (err e ∷ s) r line t found = ground (arith, found)
read_line_loop-found (ok [] ∷ s) r line t found = ground (arith, found)
read_line_loop-found (ok (c ∷ cs) ∷ s) r line t found = ground (arith, found)

-- A text that is not whole yet is followed by more.
more_to_come : (f g whole : Text) → f ++ g ≡ whole → length f < length whole → 0 < length g
more_to_come f g whole e h = omega (arith, ap length e, length-append f g)

not_drained :
    (source : Source) (r : AwsChunkedReader) (whole : Text)
    → left source r ≡ whole
    → length r.framed < length whole
    → (r.drained ≡ false) × (0 < length (flat source))
not_drained source r whole e h = elim (Bool-cases r.drained) [
  | inl over ↦ absurd (omega (arith, more_to_come r.framed [] whole (rw over at e) h))
  | inr open_ ↦ (open_, more_to_come r.framed (flat source) whole (rw open_ at e) h)
]

-- What is left does not change when a chunk moves from the source to the buffer.
left-receive :
    (r : AwsChunkedReader) (c : ℕ) (cs : Text) (s : Source) (whole : Text)
    → r.drained ≡ false
    → left (ok (c ∷ cs) ∷ s) r ≡ whole
    → left s (record r { framed = r.framed ++ (c ∷ cs) }) ≡ whole
left-receive r c cs s whole open_ e =
    rw open_ (append_assoc r.framed (c ∷ cs) (flat s)) ∙ (rw open_ at e)

-- The whole line is in the buffer, or more has to be received.
LineRead : Source → AwsChunkedReader → Text → Text → Type 0
LineRead source r line tail =
    (r' : AwsChunkedReader) × (read_line_loop source r ≡ ok (some line, r'))
    × (pending r' ≡ tail)
    × Advances r r'

line_buffered :
    (source : Source) (r : AwsChunkedReader) (line tail t : Text)
    → IsSound source
    → find_crlf r.framed ≡ some (line, t)
    → t ++ (if r.drained then [] else flat source) ≡ tail
    → LineRead source r line tail
unfolding LineRead
line_buffered source r line tail t sound found rest = (
  record r { source = source; framed = t },
  read_line_loop-found source r line t found,
  rest,
  record { sound = sound; payload = refl; finished = refl; resource = refl },
)

line_or_more :
    (source : Source) (r : AwsChunkedReader) (line tail : Text)
    → IsSound source
    → IsFree 13 line
    → left source r ≡ line ++ 13 ∷ 10 ∷ tail
    → LineRead source r line tail
      ⊎ ((find_crlf r.framed ≡ none)
          × (length r.framed ≤ suc (length line))
          × (r.drained ≡ false)
          × (0 < length (flat source)))
line_or_more source r line tail sound free e = elim (crlf_cases line r.framed _ tail free e) [
  | inl (t, found, rest) ↦ inl (line_buffered source r line tail t sound found rest)
  | inr (gone, partial) ↦
      let (open_, more) =
        not_drained source r (line ++ 13 ∷ 10 ∷ tail) e
          (omega (arith, partial, length-append line (13 ∷ 10 ∷ tail))) in
      inr (gone, partial, open_, more)
]

-- A line that is free of CR is read whole, and what follows its CRLF is left.
pub read_line_loop_lem :
    (source : Source) (r : AwsChunkedReader) (line tail : Text)
    → IsSound source
    → IsFree 13 line
    → length line < chunk_line_max_bytes
    → left source r ≡ line ++ 13 ∷ 10 ∷ tail
    → (r' : AwsChunkedReader) × (read_line_loop source r ≡ ok (some line, r'))
      × (pending r' ≡ tail)
      × Advances r r'
unfolding LineRead read_line_loop
read_line_loop_lem [] r line tail sound free short e =
    elim (line_or_more [] r line tail sound free e) [
      | inl done ↦ done
      | inr w ↦ absurd (omega (arith, w.3))
    ]
read_line_loop_lem (err x ∷ s) r line tail sound free short e = absurd sound
read_line_loop_lem (ok [] ∷ s) r line tail sound free short e =
    elim (line_or_more (ok [] ∷ s) r line tail sound free e) [
      | inl done ↦ done
      | inr w ↦ absurd (omega (arith, w.3))
    ]
read_line_loop_lem (ok (c ∷ cs) ∷ s) r line tail sound free short e =
    elim (line_or_more (ok (c ∷ cs) ∷ s) r line tail sound free e) [
      | inl done ↦ done
      | inr w ↦
          let (r', found, rest, adv) =
            read_line_loop_lem s (record r { framed = r.framed ++ (c ∷ cs) }) line tail sound free
              short (left-receive r c cs s _ w.2 e) in
          (
            r',
            ground (arith, found, w.0, w.1, w.2),
            rest,
            record {
              sound = adv.sound;
              payload = adv.payload;
              finished = adv.finished;
              resource = adv.resource;
            },
          )
    ]

cut_cases :
    (whole f g tail : Text)
    → f ++ g ≡ whole ++ tail
    → ((take (length whole) f ≡ whole)
        × (drop (length whole) f ++ g ≡ tail)
        × (length whole ≤ length f))
      ⊎ (length f < length whole)
cut_cases [] f g tail e = inl (refl, e, omega arith)
cut_cases (c ∷ whole) [] g tail e = inr (omega arith)
cut_cases (c ∷ whole) (x ∷ f) g tail e = elim (cut_cases whole f g tail (ground arith)) [
  | inl (taken, dropped, fits) ↦ inl (ground (arith, taken), dropped, omega arith)
  | inr short ↦ inr (omega arith)
]

ExactRead : Source → AwsChunkedReader → Text → Text → Type 0
ExactRead source r whole tail =
    (r' : AwsChunkedReader) × (read_exact_loop (pos (length whole)) source r ≡ ok (whole, r'))
    × (pending r' ≡ tail)
    × Advances r r'

read_exact_loop-buffered :
    (source : Source) (r : AwsChunkedReader) (n : ℕ)
    → n ≤ length r.framed
    → read_exact_loop (pos n) source r
      ≡ ok (take n r.framed, record r { source = source; framed = drop n r.framed })
unfolding read_exact_loop
read_exact_loop-buffered [] r n h = ground arith
read_exact_loop-buffered (err e ∷ s) r n h = ground arith
read_exact_loop-buffered (ok [] ∷ s) r n h = ground arith
read_exact_loop-buffered (ok (c ∷ cs) ∷ s) r n h = ground arith

exact_or_more :
    (source : Source) (r : AwsChunkedReader) (whole tail : Text)
    → IsSound source
    → left source r ≡ whole ++ tail
    → ExactRead source r whole tail
      ⊎ ((length r.framed < length whole) × (r.drained ≡ false) × (0 < length (flat source)))
unfolding ExactRead
exact_or_more source r whole tail sound e = elim (cut_cases whole r.framed _ tail e) [
  | inl (taken, dropped, fits) ↦ inl (
    record r { source = source; framed = drop (length whole) r.framed },
    ground (arith, read_exact_loop-buffered source r (length whole) fits, taken),
    dropped,
    record { sound = sound; payload = refl; finished = refl; resource = refl },
  )
  | inr short ↦
      let (open_, more) =
        not_drained source r (whole ++ tail) e (omega (arith, short, length-append whole tail)) in
      inr (short, open_, more)
]

-- An exact count of bytes is read if there are that many, and what follows them is left.
pub read_exact_loop_lem :
    (source : Source) (r : AwsChunkedReader) (whole tail : Text)
    → IsSound source
    → left source r ≡ whole ++ tail
    → (r' : AwsChunkedReader) × (read_exact_loop (pos (length whole)) source r ≡ ok (whole, r'))
      × (pending r' ≡ tail)
      × Advances r r'
unfolding ExactRead read_exact_loop
read_exact_loop_lem [] r whole tail sound e = elim (exact_or_more [] r whole tail sound e) [
  | inl done ↦ done
  | inr w ↦ absurd (omega (arith, w.2))
]
read_exact_loop_lem (err x ∷ s) r whole tail sound e = absurd sound
read_exact_loop_lem (ok [] ∷ s) r whole tail sound e =
    elim (exact_or_more (ok [] ∷ s) r whole tail sound e) [
      | inl done ↦ done
      | inr w ↦ absurd (omega (arith, w.2))
    ]
read_exact_loop_lem (ok (c ∷ cs) ∷ s) r whole tail sound e =
    elim (exact_or_more (ok (c ∷ cs) ∷ s) r whole tail sound e) [
      | inl done ↦ done
      | inr w ↦
          let (r', found, rest, adv) =
            read_exact_loop_lem s (record r { framed = r.framed ++ (c ∷ cs) }) whole tail sound
              (left-receive r c cs s _ w.1 e) in
          (
            r',
            ground (arith, found, w.0, w.1),
            rest,
            record {
              sound = adv.sound;
              payload = adv.payload;
              finished = adv.finished;
              resource = adv.resource;
            },
          )
    ]
