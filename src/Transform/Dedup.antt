-- ===== src/Transform/Dedup.antt =====
-- internal/worker/transform/dedup.go: a Bloom filter over a 64-bit hash. The bits, which Go packs into
-- words, are a list of Booleans: bit `pos % 64` of word `pos / 64` is the one at `pos`. The sizes that
-- NewDeduplicator computes in floating point are arguments.
pub mod Murmur
pub mod Seen
mod Samples
use durable_integrations.Prelude.{
  ℕ, zero, suc, ◌+◌, ◌-◌, ◌*◌, ◌%◌, ◌^◌, Bool, true, false, ◌&&◌, List, [], ◌∷◌, if◌then◌else◌,
  length, get_or, set, replicate,
}
use durable_integrations.Prelude.Bytes.{Text}
use durable_integrations.Transform.Dedup.Murmur.{murmur3_hash}

pub record Deduplicator : Type 0 where
  pub bits : List Bool
  pub num_bits : ℕ
  pub num_hashes : ℕ
  pub count : ℕ

unfoldable pub new_deduplicator : ℕ → ℕ → Deduplicator
new_deduplicator words hashes = record {
  bits = replicate (words * 64) false;
  num_bits = words * 64;
  num_hashes = hashes;
  count = 0;
}

-- `(h1 + uint64(i)*h2) % d.numBits`
abbrev pub position : ℕ × ℕ → ℕ → ℕ → ℕ
position (h1, h2) num_bits i = (h1 + i * h2) % 2 ^ 64 % num_bits

-- The loop of IsDuplicate, for `rounds` more values of `i`.
unfoldable pub mark_from : ℕ → ℕ → ℕ × ℕ → ℕ → Bool → List Bool → Bool × List Bool
mark_from zero i h num_bits present bits = (present, bits)
mark_from (suc rounds) i h num_bits present bits =
    let pos = position h num_bits i in
    if get_or bits pos false
    then mark_from rounds (i + 1) h num_bits present bits
    else mark_from rounds (i + 1) h num_bits false (set bits pos true)

unfoldable pub is_duplicate : Text → Deduplicator → Bool × Deduplicator
is_duplicate key d =
    let (present, bits) = mark_from d.num_hashes 0 (murmur3_hash key) d.num_bits true d.bits in
    (present, record d { bits = bits; count = if present then d.count else d.count + 1 })

-- The loop of Contains.
unfoldable pub contains_from : ℕ → ℕ → ℕ × ℕ → ℕ → List Bool → Bool
contains_from zero i h num_bits bits = true
contains_from (suc rounds) i h num_bits bits =
    get_or bits (position h num_bits i) false && contains_from rounds (i + 1) h num_bits bits

unfoldable pub contains : Text → Deduplicator → Bool
contains key d = contains_from d.num_hashes 0 (murmur3_hash key) d.num_bits d.bits

unfoldable pub reset : Deduplicator → Deduplicator
reset d = record d { bits = replicate (length d.bits) false; count = 0 }
