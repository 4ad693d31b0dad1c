-- ===== src/Auth/Printed.antt =====
-- The Authorization header that a client writes, which `_AUTHORIZATION_RE` and `_CREDENTIAL_RE` of
-- app/security/sigv4.py read back.
use hidden.Base.{
  ℕ, ◌≡◌, ◌≢◌, refl, Bool, true, false, not, ◌||◌, some, List, [], ◌∷◌, ◌++◌, append_assoc, Text,
  codes, Eq, ◌==◌, ==_refl, nat_eq, list_eq, length, all, All, All-imp, join, split-join, IsFree,
  arith,
}
use mathlib.Core.List.{cons-ne-nil}
use hidden.Auth.Joined.{join-All}
use hidden.Xml.Literals.{is_space, strip, strip_lem}
use hidden.Auth.{SigV4Auth, aws4_request}
use hidden.Auth.Texts.{is_lower_hex}
use hidden.Auth.Patterns.{
  literal, spaces, some_spaces, ends_field, field_chars, field, is_hex_digit, chop_newline, hex_64,
  signature_group, headers_group, credential_group, authorization_re, is_eight_digits,
  credential_re,
}

-- `Credential=`: the key and its scope.
abbrev pub credential : SigV4Auth → Text
credential a =
    join (codes "/") (a.access_key_id ∷ a.datestamp ∷ a.region ∷ a.service ∷ aws4_request ∷ [])

-- The header.
abbrev pub authorization : SigV4Auth → Text
authorization a =
    codes "AWS4-HMAC-SHA256 Credential="
    ++ credential a
    ++ codes ", SignedHeaders="
    ++ join (codes ";") a.signed_headers
    ++ codes ", Signature="
    ++ a.signature

-- A character of a field of the credential.
abbrev pub is_token : ℕ → Bool
is_token c = not (c == b' ' || c == b',' || c == b'/')

abbrev pub IsToken : Text → Type 0
IsToken s = (s ≢ []) × All (λ c. is_token c ≡ true) s

literal-append : (p s : Text) → literal p (p ++ s) ≡ some s
unfolding literal
literal-append [] s = refl
literal-append (c ∷ p) s = rw (==_refl c) (literal-append p s)

abbrev pub IsField : Text → Type 0
IsField f = All (λ c. ends_field c ≡ false) f

field_chars-append : (f s : Text) → IsField f → field_chars (f ++ b',' ∷ s) ≡ (f, b',' ∷ s)
unfolding field_chars
field_chars-append [] s h = refl
field_chars-append (c ∷ f) s h = rw (h.0, field_chars-append f s h.1) refl

pub nonempty-false {ℓ} : {A : Type ℓ} ⦃e : Eq A⦄ (xs : List A) → xs ≢ [] → (xs == []) ≡ false
nonempty-false [] h = absurd (h refl)
nonempty-false (x ∷ xs) h = refl

field-append : (f s : Text) → f ≢ [] → IsField f → field (f ++ b',' ∷ s) ≡ some (f, s)
unfolding field
field-append f s some_char h =
    rw (field_chars-append f s h, nonempty-false f some_char)
      (rw (literal-append (codes ",") s) refl)

lower_hex-kept : (s : Text) → all is_lower_hex s ≡ true → chop_newline s ≡ s
lower_hex-kept [] h = refl
lower_hex-kept (c ∷ []) h = ground arith
lower_hex-kept (c ∷ d ∷ s) h = ground (arith, lower_hex-kept (d ∷ s))

lower_hex-hex : (s : Text) → all is_lower_hex s ≡ true → all is_hex_digit s ≡ true
lower_hex-hex [] h = refl
lower_hex-hex (c ∷ s) h = ground (arith, lower_hex-hex s)

hex_64_lem : (s : Text) → length s ≡ 64 → all is_lower_hex s ≡ true → hex_64 s ≡ some s
unfolding hex_64
hex_64_lem s len h = rw (lower_hex-kept s h, len, lower_hex-hex s h) refl

some_spaces-one :
    (c : ℕ) (s : Text) → is_space c ≡ false → some_spaces (b' ' ∷ c ∷ s) ≡ some (c ∷ s)
unfolding some_spaces spaces is_space
some_spaces-one c s h = rw h refl

spaces-one : (c : ℕ) (s : Text) → is_space c ≡ false → spaces (b' ' ∷ c ∷ s) ≡ c ∷ s
unfolding spaces is_space
spaces-one c s h = rw h refl

-- The header's text, from the right.
module _ (c h s : Text) (len : length s ≡ 64) (hex : all is_lower_hex s ≡ true) where
  signature_group-printed : signature_group c h (b' ' ∷ (codes "Signature=" ++ s)) ≡ some (c, h, s)
  unfolding signature_group is_space
  signature_group-printed =
      rw (spaces-one b'S' (codes "ignature=" ++ s) refl)
        (rw (literal-append (codes "Signature=") s) (rw (hex_64_lem s len hex) refl))

  module _ (some_h : h ≢ []) (fh : IsField h) where
    abbrev after_headers : Text
    after_headers = h ++ b',' ∷ (b' ' ∷ (codes "Signature=" ++ s))

    headers_group-printed :
        headers_group c (b' ' ∷ (codes "SignedHeaders=" ++ after_headers)) ≡ some (c, h, s)
    unfolding headers_group is_space
    headers_group-printed = rw (spaces-one b'S' (codes "ignedHeaders=" ++ after_headers) refl) (
        rw (literal-append (codes "SignedHeaders=") after_headers) (
          rw (field-append h (b' ' ∷ (codes "Signature=" ++ s)) some_h fh) signature_group-printed))

    module _ (some_c : c ≢ []) (fc : IsField c) where
      abbrev after_credential : Text
      after_credential = c ++ b',' ∷ (b' ' ∷ (codes "SignedHeaders=" ++ after_headers))

      credential_group-printed :
          credential_group (b' ' ∷ (codes "Credential=" ++ after_credential)) ≡ some (c, h, s)
      unfolding credential_group is_space
      credential_group-printed =
          rw (some_spaces-one b'C' (codes "redential=" ++ after_credential) refl) (
            rw (literal-append (codes "Credential=") after_credential) (
              rw (field-append c (b' ' ∷ (codes "SignedHeaders=" ++ after_headers)) some_c fc)
                headers_group-printed))

      pub authorization_re-printed :
          authorization_re (
            codes "AWS4-HMAC-SHA256 Credential="
            ++ c
            ++ codes ", SignedHeaders="
            ++ h
            ++ codes ", Signature="
            ++ s)
          ≡ some (c, h, s)
      unfolding authorization_re
      authorization_re-printed = simp (append_assoc) (
          rw
            (literal-append (codes "AWS4-HMAC-SHA256")
              (b' ' ∷ (codes "Credential=" ++ after_credential)))
            credential_group-printed)

-- A token has none of the three characters.
token-IsField : (s : Text) → All (λ c. is_token c ≡ true) s → IsField s
token-IsField s h = All-imp _ _ (λ c t. ground arith) s h

token-IsFree : (s : Text) → All (λ c. is_token c ≡ true) s → IsFree b'/' s
token-IsFree s h = All-imp _ _ (λ c t. ground arith) s h

-- The parts of a credential are tokens, and its date has eight digits.
abbrev pub IsCredential : SigV4Auth → Type 0
IsCredential a =
    IsToken a.access_key_id
    × IsToken a.datestamp
    × (is_eight_digits a.datestamp ≡ true)
    × IsToken a.region
    × IsToken a.service

aws4_request-tokens : All (λ c. is_token c ≡ true) aws4_request
aws4_request-tokens = (
  refl,
  (refl, (refl, (refl, (refl, (refl, (refl, (refl, (refl, (refl, (refl, (refl, tt))))))))))),
)

pub credential_re-credential :
    (a : SigV4Auth)
    → IsCredential a
    → credential_re (credential a) ≡ some (a.access_key_id, a.datestamp, a.region, a.service)
unfolding credential_re
credential_re-credential a (id, date, digits, region, service) =
    rw
      (split-join b'/' a.access_key_id (a.datestamp ∷ a.region ∷ a.service ∷ aws4_request ∷ [])
        (token-IsFree _ id.1)
        (
          token-IsFree _ date.1,
          (
            token-IsFree _ region.1,
            (token-IsFree _ service.1, (token-IsFree aws4_request aws4_request-tokens, tt)),
          ),
        ))
      (rw (nonempty-false _ id.0, digits, nonempty-false _ region.0, nonempty-false _ service.0)
        refl)

pub credential-IsField : (a : SigV4Auth) → IsCredential a → IsField (credential a)
credential-IsField a (id, date, digits, region, service) =
    join-All (λ c. ends_field c ≡ false) (codes "/")
      (a.access_key_id ∷ a.datestamp ∷ a.region ∷ a.service ∷ aws4_request ∷ []) (refl, tt)
      (
        token-IsField _ id.1,
        (
          token-IsField _ date.1,
          (
            token-IsField _ region.1,
            (token-IsField _ service.1, (token-IsField aws4_request aws4_request-tokens, tt)),
          ),
        ),
      )

pub append-nonempty : (s t : Text) → s ≢ [] → s ++ t ≢ []
append-nonempty [] t h e = h refl
append-nonempty (c ∷ s) t h e = cons-ne-nil _ _ e

pub credential-nonempty : (a : SigV4Auth) → IsCredential a → credential a ≢ []
credential-nonempty a h = append-nonempty a.access_key_id _ h.0.0

lower_hex-black : (s : Text) → all is_lower_hex s ≡ true → All (λ c. is_space c ≡ false) s
unfolding is_space
lower_hex-black [] h = tt
lower_hex-black (c ∷ s) h = (ground arith, lower_hex-black s (ground arith))

-- No whitespace stands at either end of the header.
pub strip-authorization :
    (a : SigV4Auth)
    → a.signature ≢ []
    → all is_lower_hex a.signature ≡ true
    → strip (authorization a) ≡ authorization a
unfolding is_space
strip-authorization a h hex =
    strip_lem b'A'
      (codes "WS4-HMAC-SHA256 Credential="
        ++ credential a
        ++ codes ", SignedHeaders="
        ++ join (codes ";") a.signed_headers
        ++ codes ", Signature=")
      a.signature refl h (lower_hex-black a.signature hex)
