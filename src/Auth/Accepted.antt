-- ===== src/Auth/Accepted.antt =====
-- Which requests `verify_sigv4` and `require_auth` let through.
use hidden.Base.{
  ℕ, ◌-◌, ◌*◌, ◌≤◌, ◌<◌, ◌≡◌, ◌↔◌, refl, ap, ◌∙◌, subst, Bool, true, false, not, Option, none, some,
  Text, codes, ◌==◌, ==_iff, nat_eq, list_eq, if◌then◌else◌, take, any, all, All, ℤ, pos, negsuc,
  arith,
}
use hidden.Errors.{
  S3ErrorKind, access_denied, request_time_too_skewed, signature_does_not_match, Result, ok, raise,
  ok-injective, bind-ok,
}
use hidden.Auth.{Library, Request, SigV4Auth}
use hidden.Auth.Texts.{
  encode, is_lower_hex, hexdigest-all_lower_hex, compare_digest, compare_digest_refl,
  compare_digest-ok,
}
use hidden.Auth.Times.{strptime, is_amz_date}
use hidden.Auth.Canonical.{canonical_request}
use hidden.Auth.Signature.{IsSignature, expected_signature-IsSignature}
use hidden.Auth.Verify.{
  Scope, longer, difference, expired, check_signed_at, check_digest, assert_time_valid,
  string_to_sign, derive_signing_key, expected_signature, verify_sigv4,
}

-- A difference in microseconds is at most so many seconds.
abbrev pub Within : ℕ → ℤ → Type 0
Within delta (pos n) = delta ≤ n * 1000000
Within delta (negsuc n) = ⊥

-- A presigned request is used from its time on, for so many seconds.
abbrev pub IsFresh : Option ℤ → ℕ → ℕ → Type 0
IsFresh none now signed_at = Unit
IsFresh (some expires) now signed_at = (signed_at ≤ now) × Within (now - signed_at) expires

-- The time that was signed exists, and is near enough to the clock's.
abbrev pub IsTimely : ℕ → SigV4Auth → ℤ → Type 0
IsTimely now auth skew =
    (seconds : ℕ) × (is_amz_date auth.amz_date ≡ true)
    × (strptime auth.amz_date ≡ some seconds)
    × Within (difference now (seconds * 1000000)) skew
    × IsFresh auth.expires now (seconds * 1000000)

-- The credentials name the server's scope and the day of the signed time, `host` is signed, the time
-- is near enough, and the signature is the one that the bytes of the secret give.
abbrev pub IsSigned : Library → ℕ → Request → SigV4Auth → Text → Scope → Text → Type 0
IsSigned lib now request auth secret expected payload_hash =
    (auth.region ≡ expected.region)
    × (auth.service ≡ expected.service)
    × (auth.datestamp ≡ take 8 auth.amz_date)
    × (any (λ name. name == codes "host") auth.signed_headers ≡ true)
    × IsTimely now auth expected.max_skew_seconds
    × IsSignature lib request auth secret payload_hash (lib.lower auth.signature)

-- A guard that raises was passed.
pub guard-ok :
    {A : Type 0} (b : Bool) (kind : S3ErrorKind) (resource : Text) (r : Result A) {x : A}
    → (if b then raise kind resource else r) ≡ ok x
    → (b ≡ false) × (r ≡ ok x)
guard-ok true kind resource r e = absurd (ground arith)
guard-ok false kind resource r e = (refl, e)

longer-Within : (d : ℕ) (n : ℤ) → (longer d n ≡ false) ↔ Within d n
longer-Within d (pos n) = ground arith
longer-Within d (negsuc n) = ground arith

expired-IsFresh : (e : Option ℤ) (now at : ℕ) → (expired e now at ≡ false) ↔ IsFresh e now at
expired-IsFresh none now at = ground arith
expired-IsFresh (some n) now at = ground (arith, longer-Within (now - at) n)

pub not-false : {b : Bool} → not b ≡ false → b ≡ true
not-false h = ground arith

module _ (now : ℕ) (auth : SigV4Auth) (skew : ℤ) (resource : Text) where
  signed_at-IsTimely :
      (o : Option ℕ)
      → is_amz_date auth.amz_date ≡ true
      → strptime auth.amz_date ≡ o
      → check_signed_at now auth skew resource o ≡ ok tt
      → IsTimely now auth skew
  signed_at-IsTimely none stamp at e = absurd (ground arith)
  signed_at-IsTimely (some seconds) stamp at e =
      let (near, e') = guard-ok _ request_time_too_skewed resource _ e in
      let (fresh, _) = guard-ok _ access_denied resource _ e' in
      (
        seconds,
        stamp,
        at,
        (longer-Within _ skew).0 near,
        (expired-IsFresh auth.expires now _).0 fresh,
      )

  assert_time_valid-IsTimely :
      assert_time_valid now auth skew resource ≡ ok tt → IsTimely now auth skew
  unfolding assert_time_valid
  assert_time_valid-IsTimely e =
      let (stamp, e') = guard-ok _ access_denied resource _ e in
      signed_at-IsTimely (strptime auth.amz_date) (not-false stamp) refl e'

  assert_time_valid-ok : IsTimely now auth skew → assert_time_valid now auth skew resource ≡ ok tt
  unfolding assert_time_valid
  assert_time_valid-ok (seconds, stamp, at, near, fresh) =
      rw (stamp, at, (longer-Within _ skew).1 near, (expired-IsFresh auth.expires now _).1 fresh)
        refl

module _ (lib : Library) (request : Request) (auth : SigV4Auth) where
  check_digest-equal :
      (digest : Text) (resource : Text)
      → check_digest resource (compare_digest digest (lib.lower auth.signature)) ≡ ok tt
      → digest ≡ lib.lower auth.signature
  check_digest-equal digest resource e =
      let (b, equal, e') = bind-ok (compare_digest digest (lib.lower auth.signature)) _ e in
      let (same, _) = guard-ok (not b) signature_does_not_match resource _ e' in
      compare_digest-ok digest _ (equal ∙ ap ok (not-false same))

  -- A digest in hexadecimal digits is what `hexdigest` gives.
  expected_signature-all_lower_hex :
      (secret payload_hash digest : Text)
      → ((key message : Text) → All (λ b. b < 256) (lib.hmac_sha256 key message))
      → expected_signature lib request auth secret payload_hash ≡ ok digest
      → all is_lower_hex digest ≡ true
  unfolding expected_signature
  expected_signature-all_lower_hex secret payload_hash digest bytes e =
      let (canonical, _, e) = bind-ok (canonical_request lib request auth payload_hash) _ e in
      let (text, _, e) = bind-ok (string_to_sign lib auth canonical) _ e in
      let (key, _, e) =
        bind-ok (derive_signing_key lib secret auth.datestamp auth.region auth.service) _ e in
      let (message, _, e) = bind-ok (encode text) _ e in
      subst (λ d. all is_lower_hex d ≡ true) (ok-injective e)
        (hexdigest-all_lower_hex _ (bytes key message))

-- With a MAC that returns bytes: `verify_sigv4` passes exactly the requests that name the server's
-- region and service and the day of their time, that sign the header `host`, whose time is within the
-- skew of the clock and, if presigned, not expired and not in the future, and whose signature in lower
-- case is the one that the secret gives.
pub verify_sigv4-IsSigned :
    (lib : Library) (now : ℕ) (request : Request) (auth : SigV4Auth) (secret : Text)
    (expected : Scope) (payload_hash : Text)
    → ((key message : Text) → All (λ b. b < 256) (lib.hmac_sha256 key message))
    → (verify_sigv4 lib now request auth secret expected payload_hash ≡ ok tt)
      ↔ IsSigned lib now request auth secret expected payload_hash
unfolding verify_sigv4
verify_sigv4-IsSigned lib now request auth secret expected payload_hash bytes = (to, from)
  where
    to :
        verify_sigv4 lib now request auth secret expected payload_hash ≡ ok tt
        → IsSigned lib now request auth secret expected payload_hash
    to e =
        let (region, e) = guard-ok _ access_denied request.path _ e in
        let (service, e) = guard-ok _ access_denied request.path _ e in
        let (date, e) = guard-ok _ access_denied request.path _ e in
        let (host, e) = guard-ok _ access_denied request.path _ e in
        let (_, auth-IsTimely, e) =
          bind-ok (assert_time_valid now auth expected.max_skew_seconds request.path) _ e in
        let (digest, signed, e) =
          bind-ok (expected_signature lib request auth secret payload_hash) _ e in
        (
          (==_iff auth.region expected.region).0 (not-false region),
          (==_iff auth.service expected.service).0 (not-false service),
          (==_iff auth.datestamp (take 8 auth.amz_date)).0 (not-false date),
          not-false host,
          assert_time_valid-IsTimely now auth expected.max_skew_seconds request.path auth-IsTimely,
          (expected_signature-IsSignature lib request auth secret payload_hash _).0
              (signed ∙ ap ok (check_digest-equal lib request auth digest request.path e)),
        )

    from :
        IsSigned lib now request auth secret expected payload_hash
        → verify_sigv4 lib now request auth secret expected payload_hash ≡ ok tt
    from (region, service, date, host, auth-IsTimely, signature) =
        let signed =
          (expected_signature-IsSignature lib request auth secret payload_hash _).1 signature in
        rw
          (
            (==_iff auth.region expected.region).1 region,
            (==_iff auth.service expected.service).1 service,
            (==_iff auth.datestamp (take 8 auth.amz_date)).1 date,
            host,
            assert_time_valid-ok now auth expected.max_skew_seconds request.path auth-IsTimely,
            signed,
            compare_digest_refl (lib.lower auth.signature) (
                expected_signature-all_lower_hex lib request auth secret payload_hash _ bytes
                  signed),
          )
          refl
