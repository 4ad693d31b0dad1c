-- ===== src/Auth/Covered.antt =====
-- What the canonical request of app/security/sigv4.py tells of the request: nothing that it covers can
-- change without a change of the text that is signed.
use hidden.Base.{
  ◌<◌, ◌≡◌, ◌≢◌, refl, sym, ap, ◌∙◌, false, List, [], ◌∷◌, ◌++◌, map, Text, codes, nat_eq, list_eq,
  All, All-append, All-imp, IsFree, join, subst,
}
use hidden.Errors.{ok, ok-injective, bind-ok}
use hidden.Auth.{Library, Request, SigV4Auth}
use hidden.Auth.Uri.{is_unreserved, uri_encode-IsFree, uri_decode, uri_decode-uri_encode}
use hidden.Auth.Canonical.{
  pair_le, sorted, canonical_uri, encode_pairs, query_item, canonical_query_string, header_lines,
  canonical_headers, canonical_request,
}
use hidden.Auth.Joined.{join-block, join-injective, append-three, join-IsFree, sorted-All}
use hidden.Auth.Lines.{
  newline, IsHttp, HasSame, HasLines, header_lines-HasLines, header_lines-IsFree, names-IsFree,
  equal_headers,
}
use hidden.Auth.Queries.{IsItem, encode_pairs-IsItem, items-All, query-injective, List-injective}

-- The pairs of the query as they are signed.
abbrev pub signed_pairs : Library → Request → SigV4Auth → List (Text × Text)
signed_pairs lib r a = sorted pair_le (encode_pairs a.source (lib.parse_qsl r.query))

abbrev fields : Library → Request → SigV4Auth → Text → List Text → List Text
fields lib r a p lines =
    lib.upper r.method
    ∷ canonical_uri r.path
    ∷ canonical_query_string lib r a
    ∷ (lines ++ [] ∷ join (codes ";") a.signed_headers ∷ p ∷ [])

join-header_block :
    (r : Request) (m u v s p : Text) (names lines : List Text)
    → names ≢ []
    → HasLines r names lines
    → join (codes "\n") (m ∷ u ∷ v ∷ (join (codes "\n") lines ++ codes "\n") ∷ s ∷ p ∷ [])
      ≡ join (codes "\n") (m ∷ u ∷ v ∷ (lines ++ [] ∷ s ∷ p ∷ []))
join-header_block r m u v s p [] lines h found = absurd (h refl)
join-header_block r m u v s p (n ∷ names) [] h found = absurd found
join-header_block r m u v s p (n ∷ names) (l ∷ lines) h found =
    let nl = codes "\n" in
    ap (λ x. m ++ (nl ++ (u ++ (nl ++ (v ++ (nl ++ x)))))) (join-block nl l lines s p)

-- The canonical request, cut at its newlines.
canonical_request-fields :
    (lib : Library) (r : Request) (a : SigV4Auth) (p t : Text)
    → a.signed_headers ≢ []
    → canonical_request lib r a p ≡ ok t
    → (lines : List Text) × HasLines r a.signed_headers lines
      × (t ≡ join (codes "\n") (fields lib r a p lines))
unfolding canonical_request canonical_headers
canonical_request-fields lib r a p t some_name e =
    let (block, headers, e') = bind-ok (canonical_headers r a.signed_headers) _ e in
    let (lines, found, e'') = bind-ok (header_lines r a.signed_headers) _ headers in
    let shown = header_lines-HasLines r a.signed_headers lines found in
    let m = lib.upper r.method in
    let u = canonical_uri r.path in
    let v = canonical_query_string lib r a in
    let s = join (codes ";") a.signed_headers in
    (
      lines,
      shown,
      sym (ok-injective e')
          ∙ ap (λ b. join (codes "\n") (m ∷ u ∷ v ∷ b ∷ s ∷ p ∷ [])) (sym (ok-injective e''))
          ∙ join-header_block r m u v s p a.signed_headers lines some_name shown,
    )

canonical_uri-IsFree : (path : Text) → IsFree newline (canonical_uri path)
unfolding canonical_uri is_unreserved
canonical_uri-IsFree [] = (refl, tt)
canonical_uri-IsFree (c ∷ path) = uri_encode-IsFree false (c ∷ path) newline refl

signed_pairs-IsItem :
    (lib : Library) (r : Request) (a : SigV4Auth) → All IsItem (signed_pairs lib r a)
signed_pairs-IsItem lib r a =
    sorted-All IsItem pair_le _ (encode_pairs-IsItem a.source (lib.parse_qsl r.query))

canonical_query_string-IsFree :
    (lib : Library) (r : Request) (a : SigV4Auth) → IsFree newline (canonical_query_string lib r a)
unfolding canonical_query_string
canonical_query_string-IsFree lib r a =
    join-IsFree newline (codes "&") (map query_item (signed_pairs lib r a)) (refl, tt)
      (items-All newline refl (signed_pairs lib r a)
        (All-imp _ _ (λ x hx. hx.0) (signed_pairs lib r a) (signed_pairs-IsItem lib r a)))

canonical_uri-injective :
    (path path' : Text)
    → path ≢ []
    → path' ≢ []
    → All (λ c. c < 256) path
    → All (λ c. c < 256) path'
    → canonical_uri path ≡ canonical_uri path'
    → path ≡ path'
unfolding canonical_uri
canonical_uri-injective [] path' h h' s s' e = absurd (h refl)
canonical_uri-injective (c ∷ path) [] h h' s s' e = absurd (h' refl)
canonical_uri-injective (c ∷ path) (d ∷ path') h h' s s' e =
    sym (uri_decode-uri_encode false (c ∷ path) s)
    ∙ ap uri_decode e
    ∙ uri_decode-uri_encode false (d ∷ path') s'

fields-IsFree :
    (lib : Library) (r : Request) (a : SigV4Auth) (p : Text) (lines : List Text)
    → IsHttp lib r
    → IsFree newline p
    → HasLines r a.signed_headers lines
    → All (IsFree newline) (fields lib r a p lines)
fields-IsFree lib r a p lines http hp h = (
  http.0,
  (
    canonical_uri-IsFree r.path,
    (
      canonical_query_string-IsFree lib r a,
      All-append (IsFree newline) lines ([] ∷ join (codes ";") a.signed_headers ∷ p ∷ [])
          (header_lines-IsFree lib r http a.signed_headers lines h)
          (
            tt,
            (
              join-IsFree newline (codes ";") a.signed_headers (refl, tt)
                  (names-IsFree lib r http a.signed_headers lines h),
              (hp, tt),
            ),
          ),
    ),
  ),
)

-- Of two requests over HTTP whose paths are bytes and not empty, whose signed headers are named, and
-- whose payload hashes are on one line: with the same canonical request they have the same method in
-- upper case, path, encoded pairs of the query but the signature, names of signed headers, values of
-- these up to runs of whitespace, and payload hash.
pub canonical_request-injective :
    (lib : Library) (r q : Request) (a b : SigV4Auth) (p p' t : Text)
    → IsHttp lib r
    → IsHttp lib q
    → r.path ≢ []
    → q.path ≢ []
    → All (λ c. c < 256) r.path
    → All (λ c. c < 256) q.path
    → a.signed_headers ≢ []
    → b.signed_headers ≢ []
    → IsFree newline p
    → IsFree newline p'
    → canonical_request lib r a p ≡ ok t
    → canonical_request lib q b p' ≡ ok t
    → (lib.upper r.method ≡ lib.upper q.method)
      × (r.path ≡ q.path)
      × (signed_pairs lib r a ≡ signed_pairs lib q b)
      × (a.signed_headers ≡ b.signed_headers)
      × All (HasSame r q) a.signed_headers
      × (p ≡ p')
unfolding canonical_query_string
canonical_request-injective lib r q a b p p' t http http' some_path some_path' bytes bytes'
      some_name some_name' line line' e e' =
    let (lines, found, text) = canonical_request-fields lib r a p t some_name e in
    let (lines', found', text') = canonical_request-fields lib q b p' t some_name' e' in
    let same =
      join-injective newline _ _ _ _ (fields-IsFree lib r a p lines http line found)
        (fields-IsFree lib q b p' lines' http' line' found') (sym text ∙ text') in
    let (methods, rest) = List-injective same in
    let (uris, rest) = List-injective rest in
    let (queries, rest) = List-injective rest in
    let (ls, _, payloads) = append-three lines lines' [] _ p [] _ p' rest in
    let (names, values) =
      equal_headers lib r q http http' a.signed_headers b.signed_headers lines found
        (subst (HasLines q b.signed_headers) (sym ls) found') in
    (
      methods,
      canonical_uri-injective r.path q.path some_path some_path' bytes bytes' uris,
      query-injective (signed_pairs lib r a) (signed_pairs lib q b) (signed_pairs-IsItem lib r a)
          (signed_pairs-IsItem lib q b) queries,
      names,
      values,
      payloads,
    )
