-- ===== src/Security/Keyring/Samples.antt =====
-- A cipher that only marks its data, and a keyring that is rotated.
use durable_integrations.Prelude.{◌≡◌, refl, some, List, [], ◌∷◌, arith, drop}
use durable_integrations.Prelude.Bytes.{Text, bytes}
use durable_integrations.Prelude.Int.{pos}
use durable_integrations.Prelude.Result.{ok}
use durable_integrations.Security.Keyring.{
  Cipher, Call, adds, removes, encrypt, decrypt, run, step, add_key, register, new_keyring,
}
use durable_integrations.Security.Keyring.Rotation.{decrypt-encrypt}

-- The key is its material, and the sealed data one byte more.
abbrev marking : Cipher Text
marking = record {
  derive = some;
  nonce_size = 2;
  overhead = 1;
  seal = λ k nonce plain tag. 7 ∷ plain;
  unseal = λ k nonce sealed tag. some (drop 1 sealed);
  unseal-seal = λ k nonce plain tag. refl;
  length-seal = λ k nonce plain tag. omega arith;
}

abbrev before : List Call
before = adds (pos 1) (bytes "old") ∷ adds (pos 2) (bytes "new") ∷ []

abbrev after : List Call
after = adds (pos 3) (bytes "next") ∷ removes 1 ∷ []

decrypt-encrypt_example :
    (text : Text) × (encrypt marking (1 ∷ 2 ∷ []) (bytes "hello") (run marking before new_keyring)
      ≡ ok text)
    × (decrypt marking text (run marking after (run marking before new_keyring))
        ≡ ok (bytes "hello"))
unfolding run step add_key register
decrypt-encrypt_example =
    decrypt-encrypt marking before after (1 ∷ 2 ∷ []) (bytes "hello") (omega arith) (omega arith)
      refl (refl, (refl, tt))
