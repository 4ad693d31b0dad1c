-- ===== src/Tests/Blobs.antt =====
-- Encrypted passphrases, with a cipher that stands for the real one.
use hidden.Base.{
  ◌≡◌, ◌↔◌, refl, Option, none, some, [], ◌∷◌, ◌++◌, Text, codes, ◌==◌, ==_refl, nat_eq,
  if◌then◌else◌, length,
}
use mathlib.Core.List.{cons-ne-nil}
use hidden.Errors.{ok}
use hidden.Secrets.{Ciphers, encrypt_passphrase, decrypt_passphrase}
use hidden.Secrets.Blob.{IsBlob, decrypt_passphrase-IsBlob, decrypt_passphrase-encrypt_passphrase}

abbrev open_body : Text → Text → Option Text
open_body key [] = none
open_body key (c ∷ s) = if c == length key then some s else none

abbrev ciphers : Ciphers
ciphers = record {
  derive_key = λ password salt. password ++ salt;
  encrypt = λ key nonce s. length key ∷ s;
  decrypt = λ key nonce s. open_body key s;
}

abbrev salt : Text
salt = codes "0123456789abcdef"

abbrev nonce : Text
nonce = codes "0123456789ab"

abbrev blob : Text
blob = codes "HENC" ++ (1 ∷ (salt ++ (nonce ++ (18 ∷ codes "secret"))))

decrypts : (key nonce s : Text) → ciphers.decrypt key nonce (ciphers.encrypt key nonce s) ≡ some s
decrypts key nonce s = rw (==_refl (length key)) refl

encrypted-blob : encrypt_passphrase ciphers salt nonce (codes "secret") (codes "pw") ≡ ok blob
unfolding encrypt_passphrase
encrypted-blob = refl

decrypt_passphrase-encrypt_passphrase_example :
    decrypt_passphrase ciphers blob (codes "pw") ≡ ok (codes "secret")
decrypt_passphrase-encrypt_passphrase_example =
    decrypt_passphrase-encrypt_passphrase ciphers salt nonce (codes "secret") (codes "pw") blob
      decrypts (λ key nonce s. cons-ne-nil _ _) refl refl encrypted-blob

decrypt_passphrase-IsBlob_example :
    (decrypt_passphrase ciphers blob (codes "pw") ≡ ok (codes "secret"))
    ↔ IsBlob ciphers (codes "pw") (codes "secret") blob
decrypt_passphrase-IsBlob_example =
    decrypt_passphrase-IsBlob ciphers blob (codes "pw") (codes "secret") (cons-ne-nil _ _)
