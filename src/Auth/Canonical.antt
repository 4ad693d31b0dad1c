-- ===== src/Auth/Canonical.antt =====
-- `_canonical_request` of app/security/sigv4.py with its parts, and the sort of Python on texts.
use hidden.Base.{
  Bool, true, false, ◌&&◌, ◌||◌, none, some, List, [], ◌∷◌, ◌++◌, map, Text, codes, ◌==◌, nat_eq,
  list_eq, if◌then◌else◌, ltb, join,
}
use hidden.Errors.{access_denied, Result, ok, raise, ◌>>=◌}
use hidden.Xml.Literals.{is_space, strip}
use hidden.Auth.{Library, Request, Source, header, query, SigV4Auth}
use hidden.Auth.Uri.{uri_encode}

-- `s <= t` on texts.
unfoldable pub text_le : Text → Text → Bool
text_le [] t = true
text_le (c ∷ s) [] = false
text_le (c ∷ s) (d ∷ t) = ltb c d || c == d && text_le s t

-- The same on pairs of texts.
unfoldable pub pair_le : Text × Text → Text × Text → Bool
unfolding text_le
pair_le (k, v) (l, w) = if k == l then text_le v w else text_le k l

-- `sorted`, which keeps the order of equal elements.
unfoldable pub insert {ℓ} : {A : Type ℓ} → (A → A → Bool) → A → List A → List A
insert le x [] = x ∷ []
insert le x (y ∷ ys) = let later = insert le x ys in if le x y then x ∷ y ∷ ys else y ∷ later

unfoldable pub sorted {ℓ} : {A : Type ℓ} → (A → A → Bool) → List A → List A
unfolding insert
sorted le [] = []
sorted le (x ∷ xs) = insert le x (sorted le xs)

-- `_canonical_uri`
unfoldable pub canonical_uri : Text → Text
canonical_uri [] = codes "/"
canonical_uri (c ∷ path) = uri_encode false (c ∷ path)

abbrev pub is_query : Source → Bool
is_query header = false
is_query query = true

-- The loop over the pairs: the signature itself is left out.
unfoldable pub encode_pairs : Source → List (Text × Text) → List (Text × Text)
encode_pairs source [] = []
encode_pairs source ((key, value) ∷ pairs) =
    let rest = encode_pairs source pairs in
    if is_query source && key == codes "X-Amz-Signature"
    then rest
    else (uri_encode true key, uri_encode true value) ∷ rest

abbrev pub query_item : Text × Text → Text
query_item (key, value) = key ++ b'=' ∷ value

-- `_canonical_query_string`
unfoldable pub canonical_query_string : Library → Request → SigV4Auth → Text
unfolding pair_le sorted encode_pairs
canonical_query_string lib request auth =
    join (codes "&")
      (map query_item (sorted pair_le (encode_pairs auth.source (lib.parse_qsl request.query))))

-- `s.split()`: what stands between runs of whitespace.
unfoldable pub word_first : Text → Text
word_first [] = []
word_first (c ∷ s) = let rest = word_first s in if is_space c then [] else c ∷ rest

unfoldable pub word_rest : Text → List Text
unfolding word_first
word_rest [] = []
word_rest (c ∷ s) = let rest = word_rest s in if is_space c then word_first s ∷ rest else rest

unfoldable pub nonempty : List Text → List Text
nonempty [] = []
nonempty (s ∷ ss) = let rest = nonempty ss in if s == [] then rest else s ∷ rest

abbrev pub words : Text → List Text
words s = nonempty (word_first s ∷ word_rest s)

unfoldable pub canonicalize_header_value : Text → Text
unfolding word_first word_rest nonempty
canonicalize_header_value value = join (codes " ") (words (strip value))

abbrev pub header_line : Text → Text → Text
header_line name value = name ++ b':' ∷ canonicalize_header_value value

-- The loop of `_canonical_headers`.
unfoldable pub header_lines : Request → List Text → Result (List Text)
header_lines request [] = ok []
header_lines request (name ∷ names) = request.header name >>= λ found. elim found [
  | none ↦ raise access_denied request.path
  | some value ↦ header_lines request names >>= λ lines. ok (header_line name value ∷ lines)
]

unfoldable pub canonical_headers : Request → List Text → Result Text
unfolding header_lines
canonical_headers request signed_headers =
    header_lines request signed_headers >>= λ lines. ok (join (codes "\n") lines ++ codes "\n")

unfoldable pub canonical_request : Library → Request → SigV4Auth → Text → Result Text
canonical_request lib request auth payload_hash =
    canonical_headers request auth.signed_headers >>= λ headers. ok (
      join (codes "\n") (
        lib.upper request.method
        ∷ canonical_uri request.path
        ∷ canonical_query_string lib request auth
        ∷ headers
        ∷ join (codes ";") auth.signed_headers
        ∷ payload_hash
        ∷ []))
