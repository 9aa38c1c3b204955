-- ===== src/Transform/Dedup/Samples.antt =====
-- A filter of 64 bits, and the theorems there.
use durable_integrations.Prelude.{◌≡◌, refl, true, [], ◌∷◌, arith}
use durable_integrations.Prelude.Bytes.{bytes}
use durable_integrations.Transform.Dedup.{is_duplicate, new_deduplicator}
use durable_integrations.Transform.Dedup.Murmur.{
  murmur3_hash, mix_blocks, mix_tail, finish, mix_block, fmix64, lane, mix_k1, mix_k2, read_uint64,
  rotl64,
}
use durable_integrations.Transform.Dedup.Seen.{after_keys, no_false_negatives}

-- The hash of 21 bytes: one block, and a tail of five.
hash_of_key :
    murmur3_hash (bytes "customer-0000000042-x") ≡ (10994371755550173440, 14198044796868626562)
unfolding murmur3_hash mix_blocks mix_tail finish mix_block fmix64 lane mix_k1 mix_k2 read_uint64
    rotl64
hash_of_key = refl

no_false_negatives_example :
    (is_duplicate (bytes "k1") (
      after_keys
        (bytes "k2" ∷ bytes "k3" ∷ [])
        (is_duplicate (bytes "k1") (after_keys (bytes "k0" ∷ []) (new_deduplicator 1 3))).1)).0
    ≡ true
no_false_negatives_example =
    no_false_negatives 1 3 (bytes "k0" ∷ []) (bytes "k2" ∷ bytes "k3" ∷ []) (bytes "k1")
      (omega arith)
