-- ===== src/Secrets.antt =====
-- app/security/encryption.py: the blob that holds a passphrase. The key derivation and the cipher are
-- the fields of `Ciphers`.
pub mod Blob
use hidden.Base.{
  ℕ, Bool, true, false, not, Option, none, some, List, [], ◌∷◌, ◌++◌, Text, codes, ◌==◌, nat_eq,
  list_eq, if◌then◌else◌, ltb, length, take, drop,
}
use hidden.Errors.{value_error, Result, ok, err}

-- Scrypt with the parameters of the program, the password first; and AES-GCM under a key and a nonce,
-- whose decryption fails on what was not encrypted so.
pub record Ciphers : Type 0 where
  pub derive_key : Text → Text → Text
  pub encrypt : Text → Text → Text → Text
  pub decrypt : Text → Text → Text → Option Text

abbrev pub magic : Text
magic = codes "HENC"

abbrev pub version : ℕ
version = 1

-- The salt and the nonce are what `os.urandom` gives.
unfoldable pub encrypt_passphrase : Ciphers → Text → Text → Text → Text → Result Text
encrypt_passphrase ciphers salt nonce plaintext password =
    if plaintext == []
    then err value_error
    else if password == []
    then err value_error
    else ok (
        magic
        ++ (version
            ∷ (salt
                ++ (nonce ++ ciphers.encrypt (ciphers.derive_key password salt) nonce plaintext))))

-- `except Exception` around the decryption.
abbrev pub or_value_error : Option Text → Result Text
or_value_error none = err value_error
or_value_error (some plaintext) = ok plaintext

unfoldable pub decrypt_passphrase : Ciphers → Text → Text → Result Text
decrypt_passphrase ciphers ciphertext password =
    if ciphertext == []
    then err value_error
    else if password == []
    then err value_error
    else if ltb (length ciphertext) 34
    then err value_error
    else if not (take 4 ciphertext == magic)
    then err value_error
    else if not (take 1 (drop 4 ciphertext) == version ∷ [])
    then err value_error
    else (let salt = take 16 (drop 5 ciphertext) in
        let nonce = take 12 (drop 21 ciphertext) in
        or_value_error
          (ciphers.decrypt (ciphers.derive_key password salt) nonce (drop 33 ciphertext)))
