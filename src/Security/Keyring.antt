-- ===== src/Security/Keyring.antt =====
-- internal/security/encryption/keyring.go: keys by version; what is encrypted carries the version of
-- its key in four bytes. The key derivation, the cipher and the random nonce are parameters. Bytes
-- are numbers below 256.
pub mod Rotation
mod Samples
use durable_integrations.Prelude.{
  ℕ, zero, suc, ◌+◌, ◌-◌, ◌*◌, ◌/◌, ◌%◌, ◌^◌, ◌≤◌, ◌<◌, ◌≡◌, Bool, true, false, ◌||◌, Option, none,
  some, List, [], ◌∷◌, ◌++◌, ltb, ◌==◌, if◌then◌else◌, length, take, drop,
}
use durable_integrations.Prelude.Bytes.{Text}
use durable_integrations.Prelude.Int.{ℤ, pos, negsuc}
use durable_integrations.Prelude.Result.{Result, ok, err, ◌>>=◌}

-- An AEAD cipher of crypto/cipher and the derivation of its key. `open` undoes `seal` under the same
-- key, nonce and associated data, and `seal` adds `overhead` bytes.
pub record Cipher {ℓ} (K : Type ℓ) : Type ℓ where
  pub derive : Text → Option K
  pub nonce_size : ℕ
  pub overhead : ℕ
  pub seal : K → Text → Text → Text → Text
  pub unseal : K → Text → Text → Text → Option Text
  pub unseal-seal :
      (k : K) (nonce plain tag : Text) → unseal k nonce (seal k nonce plain tag) tag ≡ some plain
  pub length-seal :
      (k : K) (nonce plain tag : Text) → length (seal k nonce plain tag) ≡ length plain + overhead

pub data KeyringError : Type 0 where
  bad_version no_material not_derived no_keys current_missing : KeyringError
  too_short unknown_version open_failed is_current : KeyringError

-- `map[int]V`: the latest entry of a version counts.
abbrev pub Keys {ℓ} : Type ℓ → Type ℓ
Keys K = List (ℕ × K)

module _ {ℓ} {K : Type ℓ} where
  unfoldable pub find_key : ℕ → Keys K → Option K
  find_key version [] = none
  find_key version ((v, k) ∷ rest) = if version == v then some k else find_key version rest

  unfoldable pub delete_key : ℕ → Keys K → Keys K
  delete_key version [] = []
  delete_key version ((v, k) ∷ rest) =
      let others = delete_key version rest in if version == v then others else (v, k) ∷ others

pub record Keyring {ℓ} (K : Type ℓ) : Type ℓ where
  pub keys : Keys K
  pub current_ver : ℕ

abbrev pub new_keyring {ℓ} : {K : Type ℓ} → Keyring K
new_keyring = record { keys = []; current_ver = 0 }

-- `versionTagSize`
abbrev pub version_tag_size : ℕ
version_tag_size = 4

-- `binary.BigEndian.PutUint32(tag, uint32(v))`
unfoldable pub put_uint32 : ℕ → Text
put_uint32 v = v / 2 ^ 24 % 256 ∷ v / 2 ^ 16 % 256 ∷ v / 2 ^ 8 % 256 ∷ v % 256 ∷ []

-- `binary.BigEndian.Uint32`
unfoldable pub uint32 : Text → ℕ
uint32 (a ∷ b ∷ c ∷ d ∷ rest) = a * 2 ^ 24 + b * 2 ^ 16 + c * 2 ^ 8 + d
uint32 _ = 0

module _ {ℓ} {K : Type ℓ} (cipher : Cipher K) where
  -- A key that was derived is registered; the highest version is the current one.
  register : ℕ → Option K → Keyring K → Result KeyringError (Keyring K)
  register version none kr = err KeyringError.not_derived
  register version (some k) kr = ok (record {
    keys = (version, k) ∷ kr.keys;
    current_ver = if ltb kr.current_ver version then version else kr.current_ver;
  })

  pub add_key : ℤ → Text → Keyring K → Result KeyringError (Keyring K)
  unfolding register
  add_key (negsuc n) key kr = err KeyringError.bad_version
  add_key (pos zero) key kr = err KeyringError.bad_version
  add_key (pos (suc n)) [] kr = err KeyringError.no_material
  add_key (pos (suc n)) (c ∷ cs) kr = register (suc n) (cipher.derive (c ∷ cs)) kr

  -- The nonce is what the random source filled in.
  pub encrypt : Text → Text → Keyring K → Result KeyringError Text
  encrypt nonce plaintext kr =
      let tag = put_uint32 kr.current_ver in
      if kr.current_ver == 0
      then err KeyringError.no_keys
      else elim (find_key kr.current_ver kr.keys) [
        | none ↦ err KeyringError.current_missing
        | some k ↦ ok (tag ++ nonce ++ cipher.seal k nonce plaintext tag)
      ]

  abbrev opened : Option Text → Result KeyringError Text
  opened none = err KeyringError.open_failed
  opened (some plaintext) = ok plaintext

  -- The payload behind the tag: the nonce and then the sealed data.
  open_payload : K → Text → Text → Result KeyringError Text
  open_payload k tag payload =
      if ltb (length payload) (cipher.nonce_size + cipher.overhead)
      then err KeyringError.too_short
      else opened
          (cipher.unseal k (take cipher.nonce_size payload) (drop cipher.nonce_size payload) tag)

  pub decrypt : Text → Keyring K → Result KeyringError Text
  unfolding open_payload
  decrypt text kr =
      let tag = take version_tag_size text in
      if ltb (length text) version_tag_size
      then err KeyringError.too_short
      else elim (find_key (uint32 tag) kr.keys) [
        | none ↦ err KeyringError.unknown_version
        | some k ↦ open_payload k tag (drop version_tag_size text)
      ]

  pub remove_key : ℕ → Keyring K → Result KeyringError (Keyring K)
  remove_key version kr =
      let rest : Keyring K = record kr { keys = delete_key version kr.keys } in
      if version == kr.current_ver
      then err KeyringError.is_current
      else elim (find_key version kr.keys) [
        | none ↦ err KeyringError.unknown_version
        | some k ↦ ok rest
      ]

pub data Call : Type 0 where
  adds : ℤ → Text → Call
  removes : ℕ → Call

module _ {ℓ} {K : Type ℓ} (cipher : Cipher K) where
  -- A call that fails leaves the keyring as it was.
  abbrev kept : Keyring K → Result KeyringError (Keyring K) → Keyring K
  kept kr (ok kr') = kr'
  kept kr (err e) = kr

  pub step : Call → Keyring K → Keyring K
  step (adds version key) kr = kept kr (add_key cipher version key kr)
  step (removes version) kr = kept kr (remove_key cipher version kr)

  pub run : List Call → Keyring K → Keyring K
  run [] kr = kr
  run (c ∷ cs) kr = run cs (step c kr)
