-- ===== src/Tests/Authentication.antt =====
-- Signed requests, at concrete inputs.
use hidden.Base.{
  ℕ, ◌≡◌, ◌↔◌, refl, Bool, true, false, none, List, [], ◌∷◌, Text, codes, All, arith, all, not,
  ◌==◌, nat_eq, list_eq, ◌∙◌, ap, sym, ◌++◌, ◌<◌, ltb, pos, ends_with,
}
use hidden.Errors.{ok}
use hidden.Auth.{Request}
use hidden.Auth.Uri.{is_unreserved, hex_digit, places, hex_number, uri_char, uri_encode, uri_decode}
use hidden.Auth.Canonical.{
  text_le, pair_le, insert, sorted, canonical_uri, encode_pairs, canonical_query_string, word_first,
  word_rest, nonempty, canonicalize_header_value, header_lines, canonical_headers,
  canonical_request,
}
use hidden.Auth.Texts.{utf8, encode, hexdigest}
use hidden.Auth.Signature.{expected_signature-IsSignature}
use hidden.Auth.Verify.{
  string_to_sign, hmac_sha256, derive_signing_key, expected_signature, resolve_payload_hash,
  select_key, select_user, require_auth,
}
use hidden.Auth.Credentials.{extract_sigv4_auth}
use hidden.Auth.Times.{strptime, is_amz_date}
use hidden.Auth.Patterns.{ends_field}
use hidden.Auth.Uri.{uri_decode-uri_encode}
use hidden.Auth.Lines.{IsHttp, HasSame}
use hidden.Auth.Covered.{signed_pairs, canonical_request-injective}
use hidden.Auth.Ordered.{canonical_query_string-Perm}
use hidden.Auth.Payload.{IsDigestOf, resolve_payload_hash-IsDigestOf}
use hidden.Auth.Accepted.{IsTimely, IsSigned}
use hidden.Auth.Granted.{IsAuthenticated, require_auth-IsAuthenticated}
use hidden.Auth.Printed.{is_token, IsToken, IsCredential}
use hidden.Auth.Signed.{
  IsName, IsNames, IsDigest, IsClient, extract_sigv4_auth-authorization, require_auth-signed,
}
use hidden.Xml.Literals.{is_space, strip, decimal}
use mathlib.Core.List.{Permᴰ, cons-ne-nil}
use hidden.Tests.Transactions.{owner}
use hidden.Tests.Requests.{lib, auth, request, context, key, mac-bytes, headers-names}

abbrev plain : Request
plain = request (codes "h") (codes "a")

-- The same with spaces about the value of `host`, and with the parameters in the other order.
abbrev other : Request
other = request (codes " h ") (codes "b")

abbrev text : Text
text =
    codes
      "GET\n/photos/a%20b\na=1&b=%2F\nhost:h\nx-amz-date:20240229T000000Z\n\nhost;x-amz-date\nUNSIGNED-PAYLOAD"

canonical-plain : canonical_request lib plain auth (codes "UNSIGNED-PAYLOAD") ≡ ok text
unfolding canonical_request canonical_headers header_lines canonicalize_header_value
    canonical_query_string canonical_uri uri_encode uri_char is_unreserved hex_number hex_digit
    places word_first word_rest nonempty sorted insert pair_le text_le encode_pairs strip is_space
canonical-plain = refl

canonical-other : canonical_request lib other auth (codes "UNSIGNED-PAYLOAD") ≡ ok text
unfolding canonical_request canonical_headers header_lines canonicalize_header_value
    canonical_query_string canonical_uri uri_encode uri_char is_unreserved hex_number hex_digit
    places word_first word_rest nonempty sorted insert pair_le text_le encode_pairs strip is_space
canonical-other = refl

abbrev empty_hash : Text
empty_hash = codes "e3b0c44298fc1c149afbf4c8996fb92427ae41e4649b934ca495991b7852b855"

signed-plain : expected_signature lib plain auth (codes "secret") empty_hash ≡ ok auth.signature
unfolding expected_signature string_to_sign hmac_sha256 derive_signing_key encode utf8 hexdigest
    canonical_request canonical_headers header_lines canonicalize_header_value
    canonical_query_string canonical_uri uri_encode uri_char is_unreserved hex_number hex_digit
    places word_first word_rest nonempty sorted insert pair_le text_le encode_pairs strip is_space
signed-plain = refl

resolved-plain : resolve_payload_hash lib plain ≡ ok empty_hash
unfolding resolve_payload_hash
resolved-plain = refl

all-All : {A : Type 0} (p : A → Bool) (xs : List A) → all p xs ≡ true → All (λ x. p x ≡ true) xs
all-All p [] h = tt
all-All p (x ∷ xs) h = (ground arith, all-All p xs (ground arith))

all-none :
    {A : Type 0} (p : A → Bool) (xs : List A)
    → all (λ x. not (p x)) xs ≡ true
    → All (λ x. p x ≡ false) xs
all-none p [] h = tt
all-none p (x ∷ xs) h = (ground arith, all-none p xs (ground arith))

token : (c : ℕ) (s : Text) → all is_token (c ∷ s) ≡ true → IsToken (c ∷ s)
token c s h = (cons-ne-nil c s, all-All is_token (c ∷ s) h)

auth-IsCredential : IsCredential auth
unfolding decimal
auth-IsCredential = (token _ _ refl, token _ _ refl, refl, token _ _ refl, token _ _ refl)

host-IsName : IsName lib (codes "host")
unfolding strip is_space
host-IsName = (
  cons-ne-nil _ _,
  refl,
  all-none ends_field (codes "host") refl,
  all-none (λ c. c == b';') (codes "host") refl,
)

date-IsName : IsName lib (codes "x-amz-date")
unfolding strip is_space
date-IsName = (
  cons-ne-nil _ _,
  refl,
  all-none ends_field (codes "x-amz-date") refl,
  all-none (λ c. c == b';') (codes "x-amz-date") refl,
)

auth-IsNames : IsNames lib auth.signed_headers
unfolding sorted insert text_le
auth-IsNames = (cons-ne-nil _ _, (host-IsName, (date-IsName, tt)), refl)

signature-IsDigest : IsDigest lib auth.signature
unfolding hexdigest
signature-IsDigest = (refl, refl, refl)

auth-IsClient : IsClient lib auth
unfolding is_amz_date strptime ends_with decimal
auth-IsClient = (auth-IsCredential, auth-IsNames, signature-IsDigest, refl, refl, refl)

http : (host query : Text) → IsHttp lib (request host query)
http host query = (all-none (λ c. c == b'\n') (codes "GET") refl, headers-names host)

auth-IsTimely : IsTimely (context owner).now auth (pos 900)
unfolding is_amz_date strptime ends_with decimal
auth-IsTimely = (63844761600, refl, refl, omega arith, tt)

signed :
    IsSigned lib (context owner).now plain auth (codes "secret") (context owner).expected empty_hash
unfolding hexdigest
signed = (
  refl,
  refl,
  refl,
  refl,
  auth-IsTimely,
  (expected_signature-IsSignature lib plain auth (codes "secret") empty_hash _).0
      (signed-plain ∙ ap ok (sym signature-IsDigest.2)),
)

uri_decode-uri_encode_example :
    uri_decode (uri_encode false (codes "/a b%" ++ 0xe9 ∷ [])) ≡ codes "/a b%" ++ 0xe9 ∷ []
uri_decode-uri_encode_example =
    uri_decode-uri_encode false (codes "/a b%" ++ 0xe9 ∷ [])
      (omega arith, (omega arith, (omega arith, (omega arith, (omega arith, (omega arith, tt))))))

bytes-path : (s : Text) → all (λ c. ltb c 256) s ≡ true → All (λ c. c < 256) s
bytes-path [] h = tt
bytes-path (c ∷ s) h = (ground arith, bytes-path s (ground arith))

canonical_request-injective_example :
    (plain.method ≡ other.method)
    × (plain.path ≡ other.path)
    × (signed_pairs lib plain auth ≡ signed_pairs lib other auth)
    × (auth.signed_headers ≡ auth.signed_headers)
    × All (HasSame plain other) auth.signed_headers
    × (codes "UNSIGNED-PAYLOAD" ≡ codes "UNSIGNED-PAYLOAD")
canonical_request-injective_example =
    canonical_request-injective lib plain other auth auth (codes "UNSIGNED-PAYLOAD")
      (codes "UNSIGNED-PAYLOAD") text (http (codes "h") (codes "a"))
      (http (codes " h ") (codes "b")) (cons-ne-nil _ _) (cons-ne-nil _ _)
      (bytes-path plain.path refl) (bytes-path other.path refl) (cons-ne-nil _ _) (cons-ne-nil _ _)
      (all-none (λ c. c == b'\n') (codes "UNSIGNED-PAYLOAD") refl)
      (all-none (λ c. c == b'\n') (codes "UNSIGNED-PAYLOAD") refl) canonical-plain canonical-other

canonical_query_string-Perm_example :
    canonical_query_string lib plain auth ≡ canonical_query_string lib other auth
canonical_query_string-Perm_example =
    canonical_query_string-Perm lib plain other auth (Permᴰ.swap refl refl)

resolve_payload_hash-IsDigestOf_example : IsDigestOf lib plain empty_hash
unfolding hexdigest
resolve_payload_hash-IsDigestOf_example =
    resolve_payload_hash-IsDigestOf lib plain none empty_hash refl refl refl resolved-plain

extract_sigv4_auth-authorization_example : extract_sigv4_auth lib plain ≡ ok auth
extract_sigv4_auth-authorization_example =
    extract_sigv4_auth-authorization lib plain auth auth-IsClient refl refl

require_auth-IsAuthenticated_example :
    (require_auth (context owner) plain ≡ ok owner) ↔ IsAuthenticated (context owner) plain owner
require_auth-IsAuthenticated_example =
    require_auth-IsAuthenticated (context owner) plain owner mac-bytes

require_auth-signed_example : require_auth (context owner) plain ≡ ok owner
unfolding select_key select_user
require_auth-signed_example =
    require_auth-signed (context owner) plain auth empty_hash key owner (codes "secret") mac-bytes
      auth-IsClient refl refl resolved-plain refl refl refl refl refl signed
