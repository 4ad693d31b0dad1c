-- ===== src/Auth/Granted.antt =====
-- Whom `require_auth` of app/dependencies/require_auth.py authenticates.
use hidden.Base.{
  ◌<◌, ◌≡◌, ◌↔◌, refl, true, not, Option, none, some, Text, nat_eq, list_eq, All, arith, ap, subst,
  ◌∙◌,
}
use hidden.Errors.{access_denied, ok, ok-injective, bind-ok}
use hidden.Bucket.{User}
use hidden.Auth.{Request, SigV4Auth}
use hidden.Auth.Credentials.{extract_sigv4_auth}
use hidden.Auth.Verify.{
  UserKey, select_key, select_user, Context, check_user, check_key, resolve_payload_hash,
  verify_sigv4, require_auth,
}
use hidden.Auth.Accepted.{IsSigned, guard-ok, not-false, verify_sigv4-IsSigned}

-- The request carries credentials of an enabled key of an enabled user, and is signed with its secret.
abbrev pub IsAuthenticated : Context → Request → User → Type 0
IsAuthenticated ctx request user =
    (auth : SigV4Auth) × (payload_hash : Text) × (key : UserKey) × (secret : Text)
    × (extract_sigv4_auth ctx.lib request ≡ ok auth)
    × (resolve_payload_hash ctx.lib request ≡ ok payload_hash)
    × (select_key auth.access_key_id ctx.keys ≡ some key)
    × (key.is_enabled ≡ true)
    × (select_user key.user_id ctx.users ≡ some user)
    × (user.is_enabled ≡ true)
    × (ctx.decrypt_string key.secret_access_key_encrypted ≡ ok secret)
    × IsSigned ctx.lib ctx.now request auth secret ctx.expected payload_hash

check_key-ok :
    (resource : Text) (o : Option UserKey) (key : UserKey)
    → check_key resource o ≡ ok key
    → (o ≡ some key) × (key.is_enabled ≡ true)
check_key-ok resource none key e = absurd (ground arith)
check_key-ok resource (some k) key e =
    let (enabled, e) = guard-ok (not k.is_enabled) access_denied resource (ok k) e in
    (
      ap some (ok-injective e),
      subst (λ x. x.is_enabled ≡ true) (ok-injective e) (not-false enabled),
    )

check_user-ok :
    (resource : Text) (o : Option User) (user : User)
    → check_user resource o ≡ ok user
    → (o ≡ some user) × (user.is_enabled ≡ true)
check_user-ok resource none user e = absurd (ground arith)
check_user-ok resource (some u) user e =
    let (enabled, e) = guard-ok (not u.is_enabled) access_denied resource (ok u) e in
    (
      ap some (ok-injective e),
      subst (λ x. x.is_enabled ≡ true) (ok-injective e) (not-false enabled),
    )

-- With a MAC that returns bytes: `require_auth` returns a user exactly when the request carries the
-- credentials of a key that is stored and enabled, whose user is stored and enabled, whose secret can
-- be decrypted, and the request is signed with this secret in time.
pub require_auth-IsAuthenticated :
    (ctx : Context) (request : Request) (user : User)
    → ((key message : Text) → All (λ b. b < 256) (ctx.lib.hmac_sha256 key message))
    → (require_auth ctx request ≡ ok user) ↔ IsAuthenticated ctx request user
unfolding require_auth
require_auth-IsAuthenticated ctx request user bytes = (to, from)
  where
    to : require_auth ctx request ≡ ok user → IsAuthenticated ctx request user
    to e =
        let (auth, extracted, e) = bind-ok (extract_sigv4_auth ctx.lib request) _ e in
        let (hash, resolved, e) = bind-ok (resolve_payload_hash ctx.lib request) _ e in
        let (key, keyed, e) =
          bind-ok (check_key request.path (select_key auth.access_key_id ctx.keys)) _ e in
        let (u, owned, e) =
          bind-ok (check_user request.path (select_user key.user_id ctx.users)) _ e in
        let (secret, decrypted, e) =
          bind-ok (ctx.decrypt_string key.secret_access_key_encrypted) _ e in
        let (_, verified, e) =
          bind-ok (verify_sigv4 ctx.lib ctx.now request auth secret ctx.expected hash) _ e in
        let (stored_key, enabled_key) = check_key-ok request.path _ key keyed in
        let (stored, enabled) =
          check_user-ok request.path _ user (owned ∙ ap ok (ok-injective e)) in
        (
          auth,
          hash,
          key,
          secret,
          extracted,
          resolved,
          stored_key,
          enabled_key,
          stored,
          enabled,
          decrypted,
          (verify_sigv4-IsSigned ctx.lib ctx.now request auth secret ctx.expected hash bytes).0
              verified,
        )

    from : IsAuthenticated ctx request user → require_auth ctx request ≡ ok user
    from
          (
            auth, hash, key, secret, extracted, resolved, stored_key, enabled_key, stored, enabled,
            decrypted, signed,
          ) =
        rw
          (
            extracted,
            resolved,
            stored_key,
            enabled_key,
            stored,
            enabled,
            decrypted,
            (verify_sigv4-IsSigned ctx.lib ctx.now request auth secret ctx.expected hash bytes).1
                signed,
          )
          refl
