-- ===== src/Auth/Payload.antt =====
-- What `resolve_payload_hash` of app/security/sigv4.py tells of the body.
use hidden.Base.{
  ◌≡◌, refl, sym, ap, ◌∙◌, Bool, true, false, not, ◌&&◌, ◌||◌, Option, none, some, [], ◌∷◌, Text,
  codes, ◌==◌, nat_eq, list_eq, if◌then◌else◌, starts_with, length, arith,
}
use hidden.Errors.{
  access_denied, signature_does_not_match, Result, ok, raise, ok-injective, bind-ok, ◌>>=◌,
}
use hidden.Auth.{Library, Request, unsigned_payload, empty_payload_hash, streaming_payload_prefix}
use hidden.Auth.Texts.{hexdigest, is_hex, compare_digest, compare_digest-ok}
use hidden.Auth.Verify.{check_payload, payload_hash_of, resolve_payload_hash}
use hidden.Auth.Accepted.{guard-ok, not-false}

-- The digest is that of the request's body, which could be read.
abbrev pub IsDigestOf : Library → Request → Text → Type 0
IsDigestOf lib request hash =
    (body : Text) × (request.body ≡ ok body) × (hash ≡ hexdigest (lib.sha256 body))

-- The header claims no digest of the whole body: it says UNSIGNED-PAYLOAD, or starts with STREAMING-.
abbrev pub is_opaque : Option Text → Bool
is_opaque none = false
is_opaque (some value) = value == unsigned_payload || starts_with streaming_payload_prefix value

module _ (lib : Library) (request : Request) where
  check_payload-IsDigestOf :
      (value hash : Text) → check_payload lib request value ≡ ok hash → IsDigestOf lib request hash
  unfolding check_payload
  check_payload-IsDigestOf value hash e =
      let (body, read, e) = bind-ok request.body _ e in
      let (equal, compared, e) =
        bind-ok (compare_digest (hexdigest (lib.sha256 body)) (lib.lower value)) _ e in
      let (same, e) = guard-ok (not equal) signature_does_not_match request.path _ e in
      (
        body,
        read,
        sym (ok-injective e) ∙ sym (compare_digest-ok _ _ (compared ∙ ap ok (not-false same))),
      )

  payload_hash_of-IsDigestOf :
      (found : Option Text) (hash : Text)
      → hexdigest (lib.sha256 []) ≡ empty_payload_hash
      → is_opaque found ≡ false
      → payload_hash_of lib request found ≡ ok hash
      → IsDigestOf lib request hash
  payload_hash_of-IsDigestOf none hash empty h e =
      let (body, read, e) = bind-ok request.body _ e in
      (body, read, sym (ok-injective e) ∙ empty_or_digest body)
    where
      empty_or_digest :
          (body : Text)
          → (if body == [] then empty_payload_hash else hexdigest (lib.sha256 body))
            ≡ hexdigest (lib.sha256 body)
      empty_or_digest [] = sym empty
      empty_or_digest (c ∷ body) = refl
  payload_hash_of-IsDigestOf (some value) hash empty h e = check_payload-IsDigestOf value hash (
      digest_branch (value == unsigned_payload) (starts_with streaming_payload_prefix value)
        (length value == 64 && is_hex value) h e)
    where
      digest_branch :
          (unsigned streaming digest : Bool) {c : Result Text}
          → (unsigned || streaming) ≡ false
          → (if unsigned
              then ok unsigned_payload
              else if streaming
              then ok value
              else if digest
              then c
              else raise access_denied request.path)
            ≡ ok hash
          → c ≡ ok hash
      digest_branch true streaming digest h e = absurd (ground arith)
      digest_branch false true digest h e = absurd (ground arith)
      digest_branch false false true h e = e
      digest_branch false false false h e = absurd (ground arith)

-- If the header claims no opaque value, and the constant is the digest of the empty text: the payload
-- hash that is resolved is the digest of the request's body.
pub resolve_payload_hash-IsDigestOf :
    (lib : Library) (request : Request) (found : Option Text) (hash : Text)
    → hexdigest (lib.sha256 []) ≡ empty_payload_hash
    → request.header (codes "x-amz-content-sha256") ≡ ok found
    → is_opaque found ≡ false
    → resolve_payload_hash lib request ≡ ok hash
    → IsDigestOf lib request hash
unfolding resolve_payload_hash
resolve_payload_hash-IsDigestOf lib request found hash empty there h e =
    payload_hash_of-IsDigestOf lib request found hash empty h
      (sym (ap (λ r. r >>= payload_hash_of lib request) there) ∙ e)
