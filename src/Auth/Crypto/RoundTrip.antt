-- ===== src/Auth/Crypto/RoundTrip.antt =====
-- What was encrypted is decrypted, in the present format and in the two older ones.
use simpledeploy.Prelude.{
  ℕ, ◌<◌, true, false, none, some, [], ◌∷◌, ◌++◌, ◌≡◌, refl, sym, ap, ◌∙◌, arith, ltb, length, take,
  drop, length-append, ◌>>=◌,
}
use simpledeploy.Prelude.Text.{Text}
use simpledeploy.Auth.Crypto.{
  Ciphers, salt_size, pbkdf2_iter_modern, pbkdf2_iter_legacy, or_else, encrypt, decrypt_with_salt,
  decrypt_legacy, decrypt,
}

take_front : (n : ℕ) (s t : Text) → length s ≡ n → take n (s ++ t) ≡ s
take_front n s t h = ap (λ m. take m (s ++ t)) (sym h) ∙ take_all s
  where
    take_all : (p : Text) → take (length p) (p ++ t) ≡ p
    take_all [] = refl
    take_all (c ∷ p) = ap (λ l. c ∷ l) (take_all p)

drop_front : (n : ℕ) (s t : Text) → length s ≡ n → drop n (s ++ t) ≡ t
drop_front n s t h = ap (λ m. drop m (s ++ t)) (sym h) ∙ drop_all s
  where
    drop_all : (p : Text) → drop (length p) (p ++ t) ≡ t
    drop_all [] = refl
    drop_all (c ∷ p) = drop_all p

-- What the packages promise: base64 is undone, and a text that was sealed opens with its key.
pub record IsUndone (c : Ciphers) : Type 0 where
  pub decoded : (s : Text) → c.decode64 (c.encode64 s) ≡ some s
  pub opened : (k nonce text : Text) → c.unseal k nonce (c.seal k nonce text) ≡ some text

module _ (c : Ciphers) (u : IsUndone c) where
  with_salt-sealed :
      (salt nonce text key : Text) (iter : ℕ)
      → length nonce ≡ c.nonce_size
      → decrypt_with_salt c salt (nonce ++ c.seal (c.derive_key key salt iter) nonce text) key iter
        ≡ some text
  unfolding decrypt_with_salt
  with_salt-sealed salt nonce text key iter sized =
      let body = c.seal (c.derive_key key salt iter) nonce text in
      let long : ltb (length (nonce ++ body)) c.nonce_size ≡ false =
        ground (arith, length-append nonce body) in
      rw (long, take_front c.nonce_size nonce body sized, drop_front c.nonce_size nonce body sized)
        (u.opened (c.derive_key key salt iter) nonce text)

  -- With a salt in front, the two formats with a salt are tried first.
  decrypt-encode64 :
      (salt body key : Text)
      → length salt ≡ salt_size
      → 0 < length body
      → decrypt c (c.encode64 (salt ++ body)) key
        ≡ or_else
            (or_else
              (decrypt_with_salt c salt body key pbkdf2_iter_modern)
              (decrypt_with_salt c salt body key pbkdf2_iter_legacy))
            (decrypt_legacy c (salt ++ body) key)
  unfolding decrypt
  decrypt-encode64 salt body key salted some_body =
      let long : ltb salt_size (length (salt ++ body)) ≡ true =
        ground (arith, length-append salt body) in
      rw (
        u.decoded (salt ++ body),
        long,
        take_front salt_size salt body salted,
        drop_front salt_size salt body salted,
      )

  -- A secret that was encrypted is decrypted by the same key, whatever random salt and nonce were drawn.
  pub decrypt-encrypt :
      (salt nonce text key : Text)
      → length salt ≡ salt_size
      → length nonce ≡ c.nonce_size
      → 0 < c.nonce_size
      → (encrypt c (some salt) (some nonce) text key >>= λ encoded. decrypt c encoded key)
        ≡ some text
  unfolding encrypt
  decrypt-encrypt salt nonce text key salted sized some_nonce =
      let modern = c.seal (c.derive_key key salt pbkdf2_iter_modern) nonce text in
      decrypt-encode64 salt (nonce ++ modern) key salted (omega (arith, length-append nonce modern))
      ∙ rw (with_salt-sealed salt nonce text key pbkdf2_iter_modern sized)

  -- A secret of the older format with a salt is decrypted, if its bytes do not open with the newer key.
  pub decrypt-legacy_iterations :
      (salt nonce text key : Text)
      → length salt ≡ salt_size
      → length nonce ≡ c.nonce_size
      → 0 < c.nonce_size
      → decrypt_with_salt c salt
          (nonce ++ c.seal (c.derive_key key salt pbkdf2_iter_legacy) nonce text)
          key
          pbkdf2_iter_modern
        ≡ none
      → decrypt c
          (c.encode64
            (salt ++ (nonce ++ c.seal (c.derive_key key salt pbkdf2_iter_legacy) nonce text)))
          key
        ≡ some text
  decrypt-legacy_iterations salt nonce text key salted sized some_nonce rejected =
      let legacy = c.seal (c.derive_key key salt pbkdf2_iter_legacy) nonce text in
      decrypt-encode64 salt (nonce ++ legacy) key salted (omega (arith, length-append nonce legacy))
      ∙ rw (rejected, with_salt-sealed salt nonce text key pbkdf2_iter_legacy sized)
