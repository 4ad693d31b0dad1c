-- ===== src/Auth/Signature.antt =====
-- The signature that a secret gives, written out: a chain of MACs over the day and the scope, and one over
-- the text that is signed.
use hidden.Base.{◌≡◌, refl, sym, ap, ◌∙◌, ◌↔◌, [], ◌∷◌, ◌++◌, Text, codes, join}
use hidden.Errors.{ok, ok-injective, bind-ok}
use hidden.Auth.{Library, Request, SigV4Auth, aws4_request}
use hidden.Auth.Texts.{utf8, encode, hexdigest}
use hidden.Auth.Canonical.{canonical_request}
use hidden.Auth.Verify.{hmac_sha256, derive_signing_key, string_to_sign, expected_signature}

-- The key of the day, the region and the service.
abbrev pub signing_key : Library → Text → Text → Text → Text → Text
signing_key lib secret date region service =
    lib.hmac_sha256 (lib.hmac_sha256 (lib.hmac_sha256 (lib.hmac_sha256 secret date) region) service)
      (codes "aws4_request")

-- The text that is signed, for the bytes of the canonical request.
abbrev pub signed_text : Library → SigV4Auth → Text → Text
signed_text lib auth c = join (codes "\n") (
    codes "AWS4-HMAC-SHA256"
    ∷ auth.amz_date
    ∷ join (codes "/") (auth.datestamp ∷ auth.region ∷ auth.service ∷ codes "aws4_request" ∷ [])
    ∷ hexdigest (lib.sha256 c)
    ∷ [])

-- The bytes of the secret, of the scope and of the text that is signed give the signature.
abbrev pub IsSignature : Library → Request → SigV4Auth → Text → Text → Text → Type 0
IsSignature lib request auth secret payload_hash signature =
    (canonical : Text) × (c : Text) × (key : Text) × (date : Text) × (region : Text)
    × (service : Text) × (text : Text) × (canonical_request lib request auth payload_hash
        ≡ ok canonical)
    × (encode canonical ≡ ok c)
    × (encode (codes "AWS4" ++ secret) ≡ ok key)
    × (encode auth.datestamp ≡ ok date)
    × (encode auth.region ≡ ok region)
    × (encode auth.service ≡ ok service)
    × (encode (signed_text lib auth c) ≡ ok text)
    × (hexdigest (lib.hmac_sha256 (signing_key lib key date region service) text) ≡ signature)

terminator : encode aws4_request ≡ ok (codes "aws4_request")
unfolding encode utf8
terminator = refl

mac_lem :
    (lib : Library) (key message k : Text)
    → hmac_sha256 lib key message ≡ ok k
    → (bytes : Text) × (encode message ≡ ok bytes) × (lib.hmac_sha256 key bytes ≡ k)
unfolding hmac_sha256
mac_lem lib key message k e =
    let (bytes, bytes_are, e) = bind-ok (encode message) _ e in (bytes, bytes_are, ok-injective e)

derive_signing_key_lem :
    (lib : Library) (secret datestamp region service k : Text)
    → derive_signing_key lib secret datestamp region service ≡ ok k
    → (key : Text) × (d : Text) × (r : Text) × (s : Text) × (encode (codes "AWS4" ++ secret)
        ≡ ok key)
      × (encode datestamp ≡ ok d)
      × (encode region ≡ ok r)
      × (encode service ≡ ok s)
      × (signing_key lib key d r s ≡ k)
unfolding derive_signing_key
derive_signing_key_lem lib secret datestamp region service k e =
    let (key, key_is, e) = bind-ok (encode (codes "AWS4" ++ secret)) _ e in
    let (k₁, first, e) = bind-ok (hmac_sha256 lib key datestamp) _ e in
    let (k₂, second, e) = bind-ok (hmac_sha256 lib k₁ region) _ e in
    let (k₃, third, fourth) = bind-ok (hmac_sha256 lib k₂ service) _ e in
    let (d, d_is, same₁) = mac_lem lib key datestamp k₁ first in
    let (r, r_is, same₂) = mac_lem lib k₁ region k₂ second in
    let (s, s_is, same₃) = mac_lem lib k₂ service k₃ third in
    let (t, t_is, same₄) = mac_lem lib k₃ aws4_request k fourth in
    (
      key,
      d,
      r,
      s,
      key_is,
      d_is,
      r_is,
      s_is,
      ap (λ h. lib.hmac_sha256 (lib.hmac_sha256 (lib.hmac_sha256 h r) s) (codes "aws4_request"))
            same₁
          ∙ ap (λ h. lib.hmac_sha256 (lib.hmac_sha256 h s) (codes "aws4_request")) same₂
          ∙ ap (λ h. lib.hmac_sha256 h (codes "aws4_request")) same₃
          ∙ ap (lib.hmac_sha256 k₃) (ok-injective (sym terminator ∙ t_is))
          ∙ same₄,
    )

string_to_sign_lem :
    (lib : Library) (auth : SigV4Auth) (canonical text : Text)
    → string_to_sign lib auth canonical ≡ ok text
    → (c : Text) × (encode canonical ≡ ok c) × (signed_text lib auth c ≡ text)
unfolding string_to_sign
string_to_sign_lem lib auth canonical text e =
    let (c, c_is, e) = bind-ok (encode canonical) _ e in (c, c_is, ok-injective e)

pub expected_signature-IsSignature :
    (lib : Library) (request : Request) (auth : SigV4Auth) (secret payload_hash signature : Text)
    → (expected_signature lib request auth secret payload_hash ≡ ok signature)
      ↔ IsSignature lib request auth secret payload_hash signature
unfolding expected_signature string_to_sign derive_signing_key hmac_sha256
expected_signature-IsSignature lib request auth secret payload_hash signature = (to, from)
  where
    to :
        expected_signature lib request auth secret payload_hash ≡ ok signature
        → IsSignature lib request auth secret payload_hash signature
    to e =
        let (canonical, canonical_is, e) =
          bind-ok (canonical_request lib request auth payload_hash) _ e in
        let (text, text_is, e) = bind-ok (string_to_sign lib auth canonical) _ e in
        let (k, derived, e) =
          bind-ok (derive_signing_key lib secret auth.datestamp auth.region auth.service) _ e in
        let (bytes, bytes_are, e) = bind-ok (encode text) _ e in
        let (c, c_is, text_same) = string_to_sign_lem lib auth canonical text text_is in
        let (key, d, r, s, key_is, d_is, r_is, s_is, key_same) =
          derive_signing_key_lem lib secret auth.datestamp auth.region auth.service k derived in
        (
          canonical,
          c,
          key,
          d,
          r,
          s,
          bytes,
          canonical_is,
          c_is,
          key_is,
          d_is,
          r_is,
          s_is,
          ap encode text_same ∙ bytes_are,
          ap (λ k'. hexdigest (lib.hmac_sha256 k' bytes)) key_same ∙ ok-injective e,
        )

    from :
        IsSignature lib request auth secret payload_hash signature
        → expected_signature lib request auth secret payload_hash ≡ ok signature
    from
          (
            canonical, c, key, date, region, service, text, canonical_is, c_is, key_is, date_is,
            region_is, service_is, text_is, same,
          ) =
        rw (canonical_is, c_is, key_is, date_is, region_is, service_is, terminator, text_is)
          (ap ok same)
