-- ===== src/Auth/Crypto.antt =====
-- internal/auth/crypto.go: secrets that are stored encrypted. PBKDF2, AES-GCM and base64 are
-- parameters: the key is what aes.NewCipher and cipher.NewGCM make of the derived bytes.
pub mod RoundTrip
use simpledeploy.Prelude.{
  ℕ, Bool, true, false, Option, none, some, List, ◌++◌, ltb, if◌then◌else◌, length, take, drop,
  ◌>>=◌,
}
use simpledeploy.Prelude.Text.{Text, codes}

-- Package crypto: `seal` gives the ciphertext with its tag, and `unseal` is gcm.Open.
pub record Ciphers : Type 0 where
  pub derive_key : Text → Text → ℕ → Text
  pub seal : Text → Text → Text → Text
  pub unseal : Text → Text → Text → Option Text
  pub nonce_size : ℕ
  pub encode64 : Text → Text
  pub decode64 : Text → Option Text

abbrev pub salt_size : ℕ
salt_size = 16

abbrev pub pbkdf2_iter_modern : ℕ
pbkdf2_iter_modern = 600000

abbrev pub pbkdf2_iter_legacy : ℕ
pbkdf2_iter_legacy = 100000

abbrev pub or_else : Option Text → Option Text → Option Text
or_else (some text) other = some text
or_else none other = other

module _ (c : Ciphers) where
  -- The random bytes are arguments, none where they cannot be read.
  unfoldable pub encrypt : Option Text → Option Text → Text → Text → Option Text
  encrypt salts nonces plaintext key = do
    salt ← salts
    nonce ← nonces
    some (
        c.encode64
          (salt ++ (nonce ++ c.seal (c.derive_key key salt pbkdf2_iter_modern) nonce plaintext)))

  unfoldable pub decrypt_with_salt : Text → Text → Text → ℕ → Option Text
  decrypt_with_salt salt ct key iter =
      if ltb (length ct) c.nonce_size
      then none
      else c.unseal (c.derive_key key salt iter) (take c.nonce_size ct) (drop c.nonce_size ct)

  abbrev pub decrypt_legacy : Text → Text → Option Text
  decrypt_legacy bytes key =
      decrypt_with_salt (codes "simpledeploy-v1") bytes key pbkdf2_iter_legacy

  abbrev pub decrypt_salted : Text → Text → Option Text
  decrypt_salted bytes key =
      or_else
        (decrypt_with_salt (take salt_size bytes) (drop salt_size bytes) key pbkdf2_iter_modern)
        (decrypt_with_salt (take salt_size bytes) (drop salt_size bytes) key pbkdf2_iter_legacy)

  -- The newest format first.
  abbrev pub decrypt_bytes : Text → Text → Option Text
  decrypt_bytes bytes key =
      if ltb salt_size (length bytes)
      then or_else (decrypt_salted bytes key) (decrypt_legacy bytes key)
      else decrypt_legacy bytes key

  unfoldable pub decrypt : Text → Text → Option Text
  decrypt encoded key = do bytes ← c.decode64 encoded; decrypt_bytes bytes key
