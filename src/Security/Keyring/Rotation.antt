-- ===== src/Security/Keyring/Rotation.antt =====
-- What a keyring encrypted can be decrypted after later rotations.
use durable_integrations.Prelude.{
  ℕ, zero, suc, ◌^◌, ◌<◌, ◌≡◌, refl, ap, ◌∙◌, subst, ◌⊎◌, inl, inr, false, some, List, [], ◌∷◌,
  ◌++◌, arith, Bool-cases, Option-cases, ltb, ◌==◌, if◌then◌else◌, length, length-append, take,
  drop,
}
use durable_integrations.Prelude.Bytes.{Text}
use durable_integrations.Prelude.Int.{pos, negsuc}
use durable_integrations.Prelude.Result.{ok}
use durable_integrations.Security.Keyring.{
  Cipher, Keys, Keyring, find_key, delete_key, put_uint32, uint32, register, add_key, encrypt,
  decrypt, open_payload, remove_key, Call, adds, removes, step, run, new_keyring,
}

uint32-put_uint32 : (v : ℕ) → v < 2 ^ 32 → uint32 (put_uint32 v) ≡ v
unfolding uint32 put_uint32
uint32-put_uint32 v h = omega arith

module _ {ℓ} {A : Type ℓ} where
  take-append : (xs ys : List A) → take (length xs) (xs ++ ys) ≡ xs
  take-append [] ys = refl
  take-append (x ∷ xs) ys = rw (take-append xs ys)

  drop-append : (xs ys : List A) → drop (length xs) (xs ++ ys) ≡ ys
  drop-append [] ys = refl
  drop-append (x ∷ xs) ys = drop-append xs ys

module _ {ℓ} {K : Type ℓ} where
  find_key-delete_key :
      (v w : ℕ) (keys : Keys K)
      → (v == w) ≡ false
      → find_key v (delete_key w keys) ≡ find_key v keys
  unfolding find_key delete_key
  find_key-delete_key v w [] h = refl
  find_key-delete_key v w ((u, k) ∷ rest) h = ground (arith, find_key-delete_key v w rest h)

module _ {ℓ} {K : Type ℓ} (cipher : Cipher K) where
  -- A call that neither gives this version a key again nor removes it.
  abbrev pub Spares : ℕ → Call → Type 0
  Spares v (adds (pos n) key) = (v == n) ≡ false
  Spares v (adds (negsuc n) key) = Unit
  Spares v (removes w) = (v == w) ≡ false

  abbrev pub AllSpare : ℕ → List Call → Type 0
  AllSpare v [] = Unit
  AllSpare v (c ∷ cs) = Spares v c × AllSpare v cs

  find_key-step :
      (v : ℕ) (c : Call) (kr : Keyring K)
      → Spares v c
      → find_key v (step cipher c kr).keys ≡ find_key v kr.keys
  unfolding step add_key register remove_key find_key
  find_key-step v (adds (negsuc n) key) kr h = refl
  find_key-step v (adds (pos zero) key) kr h = refl
  find_key-step v (adds (pos (suc n)) []) kr h = refl
  find_key-step v (adds (pos (suc n)) (c ∷ cs)) kr h = ground arith
  find_key-step v (removes w) kr h = ground (arith, find_key-delete_key v w kr.keys h)

  find_key-run :
      (v : ℕ) (cs : List Call) (kr : Keyring K)
      → AllSpare v cs
      → find_key v (run cipher cs kr).keys ≡ find_key v kr.keys
  unfolding run
  find_key-run v [] kr h = refl
  find_key-run v (c ∷ cs) kr h = find_key-run v cs (step cipher c kr) h.1 ∙ find_key-step v c kr h.0

  open_payload_lem :
      (k : K) (nonce plain tag : Text)
      → length nonce ≡ cipher.nonce_size
      → open_payload cipher k tag (nonce ++ cipher.seal k nonce plain tag) ≡ ok plain
  unfolding open_payload
  open_payload_lem k nonce plain tag e =
      let sealed = cipher.seal k nonce plain tag in
      let front : take cipher.nonce_size (nonce ++ sealed) ≡ nonce =
        subst (λ n. take n (nonce ++ sealed) ≡ nonce) e (take-append nonce sealed) in
      let back : drop cipher.nonce_size (nonce ++ sealed) ≡ sealed =
        subst (λ n. drop n (nonce ++ sealed) ≡ sealed) e (drop-append nonce sealed) in
      rw (front, back, cipher.unseal-seal k nonce plain tag)
        (ground (arith, length-append nonce sealed, cipher.length-seal k nonce plain tag))

  -- The current version, if there is one, has a key.
  abbrev pub HasCurrent : Keyring K → Type ℓ
  HasCurrent kr = (kr.current_ver ≡ 0) ⊎ ((k : K) × (find_key kr.current_ver kr.keys ≡ some k))

  register-HasCurrent :
      (v : ℕ) (k : K) (kr : Keyring K)
      → HasCurrent kr
      → HasCurrent (record {
        keys = (v, k) ∷ kr.keys;
        current_ver = if ltb kr.current_ver v then v else kr.current_ver;
      })
  unfolding find_key
  register-HasCurrent v k kr h = elim (Bool-cases (ltb kr.current_ver v)) [
    | inl a ↦ rw a (inr (k, ground arith))
    | inr a ↦ elim h [
      | inl none_yet ↦ inl (ground arith)
      | inr (j, e) ↦ elim (Bool-cases (kr.current_ver == v)) [
        | inl b ↦ inr (k, ground arith)
        | inr b ↦ inr (j, ground arith)
      ]
    ]
  ]

  step-HasCurrent : (c : Call) (kr : Keyring K) → HasCurrent kr → HasCurrent (step cipher c kr)
  unfolding step add_key register remove_key find_key
  step-HasCurrent (adds (negsuc n) key) kr h = h
  step-HasCurrent (adds (pos zero) key) kr h = h
  step-HasCurrent (adds (pos (suc n)) []) kr h = h
  step-HasCurrent (adds (pos (suc n)) (c ∷ cs)) kr h =
      elim (Option-cases (cipher.derive (c ∷ cs))) [
        | inl e ↦ rw e h
        | inr (k, e) ↦ rw e (register-HasCurrent (suc n) k kr h)
      ]
  step-HasCurrent (removes w) kr h = elim (Bool-cases (w == kr.current_ver)) [
    | inl a ↦ rw a h
    | inr a ↦ elim (Option-cases (find_key w kr.keys)) [
      | inl e ↦ rw (a, e) h
      | inr (k, e) ↦
          rw (a, e)
            (elim h [
              | inl none_yet ↦ inl none_yet
              | inr (j, f) ↦
                  inr (j, find_key-delete_key kr.current_ver w kr.keys (ground arith) ∙ f)
            ])
    ]
  ]

  run-HasCurrent : (cs : List Call) (kr : Keyring K) → HasCurrent kr → HasCurrent (run cipher cs kr)
  unfolding run
  run-HasCurrent [] kr h = h
  run-HasCurrent (c ∷ cs) kr h = run-HasCurrent cs (step cipher c kr) (step-HasCurrent c kr h)

  -- What the current key sealed, under any keyring that still has that key.
  decrypt_sealed :
      (v : ℕ) (k : K) (nonce plain : Text) (kr : Keyring K)
      → v < 2 ^ 32
      → length nonce ≡ cipher.nonce_size
      → find_key v kr.keys ≡ some k
      → decrypt cipher (put_uint32 v ++ nonce ++ cipher.seal k nonce plain (put_uint32 v)) kr
        ≡ ok plain
  unfolding decrypt put_uint32
  decrypt_sealed v k nonce plain kr h n e =
      let found : find_key (uint32 (put_uint32 v)) kr.keys ≡ some k =
        ap (λ w. find_key w kr.keys) (uint32-put_uint32 v h) ∙ e in
      let opens = open_payload_lem k nonce plain (put_uint32 v) n in ground (arith, found, opens)

  -- From the empty keyring, after any calls: if a key was added, and the highest version fits in four
  -- bytes, then what is encrypted under a nonce of the cipher's size is decrypted again after any
  -- further calls that neither add a key under that version again nor remove it.
  pub decrypt-encrypt :
      (before after : List Call) (nonce plain : Text)
      → 0 < (run cipher before new_keyring).current_ver
      → (run cipher before new_keyring).current_ver < 2 ^ 32
      → length nonce ≡ cipher.nonce_size
      → AllSpare (run cipher before new_keyring).current_ver after
      → (text : Text) × (encrypt cipher nonce plain (run cipher before new_keyring) ≡ ok text)
        × (decrypt cipher text (run cipher after (run cipher before new_keyring)) ≡ ok plain)
  unfolding encrypt
  decrypt-encrypt before after nonce plain positive fits n spared =
      let kr = run cipher before new_keyring in
      elim (run-HasCurrent before new_keyring (inl refl)) [
        | inl zeroed ↦ absurd (omega arith)
        | inr (k, e) ↦ (
          put_uint32 kr.current_ver
              ++ nonce
              ++ cipher.seal k nonce plain (put_uint32 kr.current_ver),
          ground arith,
          decrypt_sealed kr.current_ver k nonce plain (run cipher after kr) fits n
              (find_key-run kr.current_ver after kr spared ∙ e),
        )
      ]
