-- ===== src/Auth/CryptoTests.antt =====
-- internal/auth/crypto.go with packages that do nothing.
use simpledeploy.Prelude.{some, none, [], ◌∷◌, ◌≡◌, refl, arith, ◌>>=◌, replicate}
use simpledeploy.Prelude.Text.{Text, codes}
use simpledeploy.Auth.Crypto.{Ciphers, encrypt, decrypt}
use simpledeploy.Auth.Crypto.RoundTrip.{IsUndone, decrypt-encrypt}

abbrev open_text : Ciphers
open_text = record {
  derive_key = λ key salt iter. key;
  seal = λ k nonce text. text;
  unseal = λ k nonce bytes. some bytes;
  nonce_size = 2;
  encode64 = λ s. s;
  decode64 = λ s. some s;
}

open_text-IsUndone : IsUndone open_text
open_text-IsUndone = record { decoded = λ s. refl; opened = λ k nonce text. refl }

abbrev salt16 : Text
salt16 = replicate 16 7

decrypt-encrypt_example :
    (encrypt open_text (some salt16) (some (1 ∷ 2 ∷ [])) (codes "token") (codes "master")
      >>= λ encoded. decrypt open_text encoded (codes "master"))
    ≡ some (codes "token")
decrypt-encrypt_example =
    decrypt-encrypt open_text open_text-IsUndone salt16 (1 ∷ 2 ∷ []) (codes "token")
      (codes "master") refl refl (omega arith)

no_randomness : encrypt open_text none (some (1 ∷ [])) (codes "token") (codes "master") ≡ none
unfolding encrypt
no_randomness = refl
