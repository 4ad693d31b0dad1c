-- ===== src/Streams/Body/Reads.antt =====
-- What reading from a request body returns while the client stays.
use hidden.Base.{
  ℤ, pos, negsuc, ℕ, zero, suc, ◌+◌, ◌≤◌, ◌<◌, ◌≡◌, ◌⊎◌, inl, inr, refl, sym, ap, ◌∙◌, true, false,
  not, ◌||◌, Option, none, some, List, [], ◌∷◌, ◌++◌, Text, nat_eq, list_eq, length, length-append,
  take, drop, arith, append_assoc, append-nil, Bool-cases,
}
use hidden.Errors.{s3, object_too_large, value_error, ok, err}
use hidden.Streams.Body.{
  Event, chunk, disconnect, RequestBodyReader, wants, fill, read, isdigit, int_of_digits,
  assert_declared_length,
}

-- The bytes that a stream will yield.
abbrev pub body : List Event → Text
body [] = []
body (chunk c ∷ rest) = c ++ body rest
body (disconnect ∷ rest) = []

abbrev pub IsConnected : List Event → Type 0
IsConnected [] = Unit
IsConnected (chunk c ∷ rest) = IsConnected rest
IsConnected (disconnect ∷ rest) = ⊥

-- What has not been read yet.
abbrev pub unread : RequestBodyReader → Text
unread r = r.buffer ++ body r.stream

-- The client stays, and the body is within the limit.
pub record IsWithin (r : RequestBodyReader) : Type 0 where
  pub connected : IsConnected r.stream
  pub ended : r.exhausted ≡ true → r.stream ≡ []
  pub fits : r.received + length (body r.stream) ≤ r.max_bytes

-- The reader after the loop of `read`.
record Filled (size : ℤ) (r r' : RequestBodyReader) : Type 0 where
  within : IsWithin r'
  same : unread r' ≡ unread r
  enough : (wants size r'.buffer ≡ false) ⊎ (r'.stream ≡ [])

fill-Filled :
    (size : ℤ) (stream : List Event) (r : RequestBodyReader)
    → IsWithin (record r { stream = stream })
    → (r' : RequestBodyReader) × (fill size stream r ≡ ok r')
      × Filled size (record r { stream = stream }) r'
unfolding fill
fill-Filled size [] r w = elim (Bool-cases (r.exhausted || not (wants size r.buffer))) [
  | inl stop ↦
      (record r { stream = [] }, rw stop, record { within = w; same = refl; enough = inr refl })
  | inr go ↦ (
    record r { stream = []; exhausted = true },
    rw go,
    record {
      within = record { connected = tt; ended = λ _. refl; fits = w.fits };
      same = refl;
      enough = inr refl;
    },
  )
]
fill-Filled size (disconnect ∷ rest) r w = absurd w.connected
fill-Filled size (chunk c ∷ rest) r w =
    elim (Bool-cases (r.exhausted || not (wants size r.buffer))) [
      | inl stop ↦ (
        record r { stream = chunk c ∷ rest },
        rw stop,
        record {
          within = w;
          same = refl;
          enough = elim (Bool-cases r.exhausted) [
            | inl over ↦ inr (w.ended over)
            | inr open_ ↦ inl (ground (arith, stop, open_))
          ];
        },
      )
      | inr go ↦
          let s = record r { received = r.received + length c; buffer = r.buffer ++ c } in
          let (r', e, f) = fill-Filled size rest s (record {
            connected = w.connected;
            ended = λ over. absurd (ground (arith, go, over));
            fits = omega (arith, w.fits, length-append c (body rest));
          }) in
          (
            r',
            ground (arith, e, go, w.fits, length-append c (body rest)),
            record {
              within = f.within;
              same = f.same ∙ append_assoc r.buffer c (body rest);
              enough = f.enough;
            },
          )
    ]

take_enough : (n : ℕ) (b t : Text) → n ≤ length b → take n (b ++ t) ≡ take n b
take_enough zero b t h = refl
take_enough (suc n) [] t h = elim h [ ]
take_enough (suc n) (c ∷ b) t h = ap (λ r. c ∷ r) (take_enough n b t (omega arith))

drop_enough : (n : ℕ) (b t : Text) → n ≤ length b → drop n (b ++ t) ≡ drop n b ++ t
drop_enough zero b t h = refl
drop_enough (suc n) [] t h = elim h [ ]
drop_enough (suc n) (c ∷ b) t h = drop_enough n b t (omega arith)

-- Once the loop stops, the first bytes in the buffer are the first bytes unread.
settled :
    (n : ℕ) (b : Text) (rest : List Event)
    → (wants (pos n) b ≡ false) ⊎ (rest ≡ [])
    → (take n b ≡ take n (b ++ body rest)) × (drop n b ++ body rest ≡ drop n (b ++ body rest))
settled n b rest (inl full) = (
  sym (take_enough n b (body rest) (ground arith)),
  sym (drop_enough n b (body rest) (ground arith)),
)
settled n b rest (inr over) =
    rw over
      (ap (take n) (sym (append-nil b)), append-nil (drop n b) ∙ ap (drop n) (sym (append-nil b)))

drained :
    (n : ℕ) (b : Text) (rest : List Event) → (wants (negsuc n) b ≡ false) ⊎ (rest ≡ []) → rest ≡ []
drained n b rest (inl full) = cc
drained n b rest (inr over) = over

-- While the client stays and the body is within the limit, a read of `n` bytes succeeds: it returns
-- the first `n` bytes that have not been read, or all if there are fewer, and leaves the others.
pub read-take :
    (r : RequestBodyReader) (n : ℕ)
    → IsWithin r
    → (r' : RequestBodyReader) × (read r (pos n) ≡ ok (take n (unread r), r'))
      × (unread r' ≡ drop n (unread r))
      × IsWithin r'
unfolding read
read-take r n w =
    let (r', e, f) = fill-Filled (pos n) r.stream r w in
    let taken = settled n r'.buffer r'.stream f.enough in
    (
      record r' { buffer = drop n r'.buffer },
      ground (arith, e, taken.0 ∙ ap (take n) f.same),
      taken.1 ∙ ap (drop n) f.same,
      record { connected = f.within.connected; ended = f.within.ended; fits = f.within.fits },
    )

-- A read with a negative size returns all the bytes that have not been read, and leaves none.
pub read-all :
    (r : RequestBodyReader) (n : ℕ)
    → IsWithin r
    → (r' : RequestBodyReader) × (read r (negsuc n) ≡ ok (unread r, r'))
      × (unread r' ≡ [])
      × IsWithin r'
unfolding read
read-all r n w =
    let (r', e, f) = fill-Filled (negsuc n) r.stream r w in
    let over : r'.stream ≡ [] = drained n r'.buffer r'.stream f.enough in
    (
      record r' { buffer = [] },
      ground (
        arith,
        e,
        sym (append-nil r'.buffer) ∙ ap (λ t. r'.buffer ++ body t) (sym over) ∙ f.same,
      ),
      ap body over,
      record { connected = f.within.connected; ended = f.within.ended; fits = f.within.fits },
    )

fill-too_large :
    (n : ℕ) (stream : List Event) (r : RequestBodyReader)
    → IsConnected stream
    → r.exhausted ≡ false
    → r.received ≤ r.max_bytes
    → r.max_bytes < r.received + length (body stream)
    → fill (negsuc n) stream r ≡ err (s3 object_too_large r.resource)
unfolding fill
fill-too_large n [] r w open_ ok_ big = absurd (omega arith)
fill-too_large n (disconnect ∷ rest) r w open_ ok_ big = absurd w
fill-too_large n (chunk c ∷ rest) r w open_ ok_ big = ground (
  arith,
  length-append c (body rest),
  fill-too_large n rest (record r { received = r.received + length c; buffer = r.buffer ++ c }) w
      open_,
)

-- While the client stays, reading the rest of a body that is larger than allowed fails with EntityTooLarge.
pub read-too_large :
    (r : RequestBodyReader) (n : ℕ)
    → IsConnected r.stream
    → r.exhausted ≡ false
    → r.received ≤ r.max_bytes
    → r.max_bytes < r.received + length (body r.stream)
    → read r (negsuc n) ≡ err (s3 object_too_large r.resource)
unfolding read
read-too_large r n w open_ ok_ big = ground (arith, fill-too_large n r.stream r w open_ ok_ big)

int_of_digits_superscript : (s : Text) → int_of_digits (0xb2 ∷ s) ≡ none
unfolding int_of_digits
int_of_digits_superscript s = ground arith

-- A declared length that begins with a superscript digit is not ignored: the check passes it to
-- `int`, whose ValueError is not caught.
assert_declared_length_superscript :
    (max_bytes : ℕ) (resource content_length : Option Text) (s : Text)
    → isdigit (0xb2 ∷ s) ≡ true
    → assert_declared_length max_bytes resource (some (0xb2 ∷ s)) content_length ≡ err value_error
unfolding assert_declared_length
assert_declared_length_superscript max_bytes resource content_length s h =
    ground (arith, h, int_of_digits_superscript s)
