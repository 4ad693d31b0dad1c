-- ===== src/Secrets/Blob.antt =====
-- Which blobs `decrypt_passphrase` opens, and that it opens those of `encrypt_passphrase`.
use hidden.Base.{
  ℕ, zero, suc, ◌+◌, ◌≤◌, ◌<◌, ◌≡◌, ◌≢◌, ◌↔◌, refl, sym, ap, ap₂, subst, ◌∙◌, Bool, true, false,
  not, Option, none, some, List, [], ◌∷◌, ◌++◌, Text, ◌==◌, ==_iff, nat_eq, list_eq, if◌then◌else◌,
  ltb, leb, length, take, drop, take-append-drop, length-take, length-drop, length-append,
  take-append_length, drop-append_length, arith,
}
use mathlib.Core.List.{cons-ne-nil}
use hidden.Errors.{Error, value_error, Result, ok, err, ok-injective}
use hidden.Secrets.{Ciphers, magic, version, encrypt_passphrase, or_value_error, decrypt_passphrase}

-- The parts of a blob: the ciphertext stands behind the magic, the version, the salt and the nonce.
abbrev pub IsBlob : Ciphers → Text → Text → Text → Type 0
IsBlob ciphers password plaintext blob =
    (salt : Text) × (nonce : Text) × (body : Text) × (blob
      ≡ magic ++ (version ∷ (salt ++ (nonce ++ body))))
    × (length salt ≡ 16)
    × (length nonce ≡ 12)
    × (body ≢ [])
    × (ciphers.decrypt (ciphers.derive_key password salt) nonce body ≡ some plaintext)

drop-nil : {A : Type 0} (n : ℕ) → drop {A = A} n [] ≡ []
drop-nil zero = refl
drop-nil (suc n) = refl

drop-drop : {A : Type 0} (m n : ℕ) (xs : List A) → drop m (drop n xs) ≡ drop (n + m) xs
drop-drop m zero xs = ap (λ k. drop k xs) (omega arith)
drop-drop m (suc n) [] = drop-nil m ∙ sym (drop-nil (suc n + m))
drop-drop m (suc n) (x ∷ xs) =
    drop-drop m n xs ∙ ap (λ k. drop k (x ∷ xs)) (shift (suc (n + m)) (suc n + m) (omega arith))
  where
    shift : (i j : ℕ) → i ≡ j → i ≡ j
    shift i j e = e

guard-passed :
    {A : Type 0} (b : Bool) (e : Error) (r : Result A) {x : A}
    → (if b then err e else r) ≡ ok x
    → (b ≡ false) × (r ≡ ok x)
guard-passed true e r h = absurd (ground arith)
guard-passed false e r h = (refl, h)

or_value_error-ok : (o : Option Text) (p : Text) → or_value_error o ≡ ok p → o ≡ some p
or_value_error-ok none p h = absurd (ground arith)
or_value_error-ok (some q) p h = ap some (ok-injective h)

not-false : {b : Bool} → not b ≡ false → b ≡ true
not-false h = ground arith

not-empty : (xs : Text) → 0 < length xs → xs ≢ []
not-empty [] h e = absurd (omega arith)
not-empty (x ∷ xs) h e = cons-ne-nil _ _ e

-- The slices of a blob that is long enough, put together again.
slices :
    (c : Text)
    → take 4 c ≡ magic
    → take 1 (drop 4 c) ≡ version ∷ []
    → c ≡ magic ++ (version ∷ (take 16 (drop 5 c) ++ (take 12 (drop 21 c) ++ drop 33 c)))
slices c starts at_version =
    sym (take-append-drop 4 c)
    ∙ ap₂ (λ x y. x ++ y) starts
        (sym (take-append-drop 1 (drop 4 c))
          ∙ ap₂ (λ x y. x ++ y) at_version
              (drop-drop 1 4 c
                ∙ sym (take-append-drop 16 (drop 5 c))
                ∙ ap (λ y. take 16 (drop 5 c) ++ y)
                    (drop-drop 16 5 c
                      ∙ sym (take-append-drop 12 (drop 21 c))
                      ∙ ap (λ y. take 12 (drop 21 c) ++ y) (drop-drop 12 21 c))))

at_least : (c : Text) → ltb (length c) 34 ≡ false → 34 ≤ length c
at_least c h = ground arith

length-slice :
    (n m : ℕ) (c : Text) → 34 ≤ length c → leb (n + m) 34 ≡ true → length (take n (drop m c)) ≡ n
length-slice n m c h h' = within (ground arith)
  where
    within : n + m ≤ 34 → length (take n (drop m c)) ≡ n
    within h' = omega (arith, length-take n (drop m c), length-drop m c)

some_left : (c : Text) → 34 ≤ length c → 0 < length (drop 33 c)
some_left c h = omega (arith, length-drop 33 c)

opened :
    (ciphers : Ciphers) (c password plaintext : Text)
    → decrypt_passphrase ciphers c password ≡ ok plaintext
    → IsBlob ciphers password plaintext c
unfolding decrypt_passphrase
opened ciphers c password plaintext e =
    let (_, e) = guard-passed _ value_error _ e in
    let (_, e) = guard-passed _ value_error _ e in
    let (long, e) = guard-passed _ value_error _ e in
    let (starts, e) = guard-passed _ value_error _ e in
    let (at_version, e) = guard-passed _ value_error _ e in
    (
      take 16 (drop 5 c),
      take 12 (drop 21 c),
      drop 33 c,
      slices c ((==_iff (take 4 c) magic).0 (not-false starts))
          ((==_iff (take 1 (drop 4 c)) (version ∷ [])).0 (not-false at_version)),
      length-slice 16 5 c (at_least c long) refl,
      length-slice 12 21 c (at_least c long) refl,
      not-empty (drop 33 c) (some_left c (at_least c long)),
      or_value_error-ok _ plaintext e,
    )

take-append : {A : Type 0} (n : ℕ) (xs ys : List A) → length xs ≡ n → take n (xs ++ ys) ≡ xs
take-append n xs ys e = subst (λ m. take m (xs ++ ys) ≡ xs) e (take-append_length xs ys)

drop-append : {A : Type 0} (n : ℕ) (xs ys : List A) → length xs ≡ n → drop n (xs ++ ys) ≡ ys
drop-append n xs ys e = subst (λ m. drop m (xs ++ ys) ≡ ys) e (drop-append_length xs ys)

empty-false : (xs : Text) → xs ≢ [] → (xs == []) ≡ false
empty-false [] h = absurd (h refl)
empty-false (x ∷ xs) h = refl

long_enough :
    (salt nonce body : Text)
    → length salt ≡ 16
    → length nonce ≡ 12
    → body ≢ []
    → ltb (length (magic ++ (version ∷ (salt ++ (nonce ++ body))))) 34 ≡ false
long_enough salt nonce [] hs hn hb = absurd (hb refl)
long_enough salt nonce (c ∷ body) hs hn hb =
    short (omega (arith, length-append salt (nonce ++ c ∷ body), length-append nonce (c ∷ body)))
  where
    short :
        34 ≤ length (magic ++ (version ∷ (salt ++ (nonce ++ c ∷ body))))
        → ltb (length (magic ++ (version ∷ (salt ++ (nonce ++ c ∷ body))))) 34 ≡ false
    short h = ground arith

blob-opened :
    (ciphers : Ciphers) (password plaintext salt nonce body : Text)
    → password ≢ []
    → length salt ≡ 16
    → length nonce ≡ 12
    → body ≢ []
    → ciphers.decrypt (ciphers.derive_key password salt) nonce body ≡ some plaintext
    → decrypt_passphrase ciphers (magic ++ (version ∷ (salt ++ (nonce ++ body)))) password
      ≡ ok plaintext
unfolding decrypt_passphrase
blob-opened ciphers password plaintext salt nonce body hp hs hn hb e =
    rw (empty-false password hp, long_enough salt nonce body hs hn hb)
      (rw
        (
          take-append 16 salt (nonce ++ body) hs,
          drop-append 16 salt (nonce ++ body) hs,
          take-append 12 nonce body hn,
          rest,
          e,
        )
        refl)
  where
    rest : drop 28 (salt ++ (nonce ++ body)) ≡ body
    rest =
        sym (drop-drop 12 16 (salt ++ (nonce ++ body)))
        ∙ ap (drop 12) (drop-append 16 salt (nonce ++ body) hs)
        ∙ drop-append 12 nonce body hn

-- With a password, `decrypt_passphrase` opens exactly the blobs that have the magic, the version, a salt
-- of 16 bytes, a nonce of 12 and some ciphertext that the cipher decrypts under the derived key; what it
-- returns is this plaintext.
pub decrypt_passphrase-IsBlob :
    (ciphers : Ciphers) (blob password plaintext : Text)
    → password ≢ []
    → (decrypt_passphrase ciphers blob password ≡ ok plaintext)
      ↔ IsBlob ciphers password plaintext blob
decrypt_passphrase-IsBlob ciphers blob password plaintext hp = (
  opened ciphers blob password plaintext,
  λ (salt, nonce, body, same, hs, hn, hb, e).
      subst (λ c. decrypt_passphrase ciphers c password ≡ ok plaintext) (sym same)
        (blob-opened ciphers password plaintext salt nonce body hp hs hn hb e),
)

-- With a cipher that decrypts what it encrypts, to something that is not empty: what is encrypted with a
-- salt of 16 bytes and a nonce of 12 is decrypted with the same password to itself.
pub decrypt_passphrase-encrypt_passphrase :
    (ciphers : Ciphers) (salt nonce plaintext password blob : Text)
    → ((key nonce plaintext : Text)
        → ciphers.decrypt key nonce (ciphers.encrypt key nonce plaintext) ≡ some plaintext)
    → ((key nonce plaintext : Text) → ciphers.encrypt key nonce plaintext ≢ [])
    → length salt ≡ 16
    → length nonce ≡ 12
    → encrypt_passphrase ciphers salt nonce plaintext password ≡ ok blob
    → decrypt_passphrase ciphers blob password ≡ ok plaintext
unfolding encrypt_passphrase
decrypt_passphrase-encrypt_passphrase ciphers salt nonce plaintext password blob back some_body hs
      hn e =
    let (_, e) = guard-passed _ value_error _ e in
    let (some_password, e) = guard-passed _ value_error _ e in
    subst (λ c. decrypt_passphrase ciphers c password ≡ ok plaintext) (ok-injective e)
      (blob-opened ciphers password plaintext salt nonce
        (ciphers.encrypt (ciphers.derive_key password salt) nonce plaintext)
        (not-nil password some_password) hs hn (some_body _ _ _) (back _ _ _))
  where
    not-nil : (xs : Text) → (xs == []) ≡ false → xs ≢ []
    not-nil [] h = absurd (ground arith)
    not-nil (x ∷ xs) h = cons-ne-nil _ _
