-- ===== src/Transform/Dedup/Murmur.antt =====
-- murmur3Hash of dedup.go, on the bytes of a key: two 64-bit words with wrap-around.
use Prim.Native.Nat.{bit_or, bit_xor}
use durable_integrations.Prelude.{
  ℕ, zero, suc, ◌+◌, ◌-◌, ◌*◌, ◌/◌, ◌%◌, ◌^◌, [], ◌∷◌, if◌then◌else◌, leb, length, get_or, take,
  drop,
}
use durable_integrations.Prelude.Bytes.{Text}

abbrev word : ℕ → ℕ
word x = x % 2 ^ 64

abbrev c1 : ℕ
c1 = 0x87c3_7b91_1142_53d5

abbrev c2 : ℕ
c2 = 0x4cf5_ad43_2745_937f

unfoldable pub rotl64 : ℕ → ℕ → ℕ
rotl64 x r = bit_or (word (x * 2 ^ r)) (x / 2 ^ (64 - r))

unfoldable pub fmix64 : ℕ → ℕ
fmix64 h0 =
    let h1 = bit_xor h0 (h0 / 2 ^ 33) in
    let h2 = word (h1 * 0xff51_afd7_ed55_8ccd) in
    let h3 = bit_xor h2 (h2 / 2 ^ 33) in
    let h4 = word (h3 * 0xc4ce_b9fe_1a85_ec53) in bit_xor h4 (h4 / 2 ^ 33)

-- Little-endian, from eight bytes.
unfoldable pub read_uint64 : Text → ℕ
read_uint64 b =
    get_or b 0 0
    + get_or b 1 0 * 2 ^ 8
    + get_or b 2 0 * 2 ^ 16
    + get_or b 3 0 * 2 ^ 24
    + get_or b 4 0 * 2 ^ 32
    + get_or b 5 0 * 2 ^ 40
    + get_or b 6 0 * 2 ^ 48
    + get_or b 7 0 * 2 ^ 56

-- What becomes of the first and of the second word of a block.
unfoldable pub mix_k1 : ℕ → ℕ
unfolding rotl64
mix_k1 k = word (rotl64 (word (k * c1)) 31 * c2)

unfoldable pub mix_k2 : ℕ → ℕ
unfolding rotl64
mix_k2 k = word (rotl64 (word (k * c2)) 33 * c1)

-- The body of the loop over blocks of 16 bytes.
unfoldable pub mix_block : Text → ℕ × ℕ → ℕ × ℕ
unfolding read_uint64 mix_k1 mix_k2 rotl64
mix_block block (h1, h2) =
    let a = bit_xor h1 (mix_k1 (read_uint64 block)) in
    let b = word (word (word (rotl64 a 27 + h2) * 5) + 0x52dc_e729) in
    let c = bit_xor h2 (mix_k2 (read_uint64 (drop 8 block))) in
    (b, word (word (word (rotl64 c 31 + b) * 5) + 0x3849_5ab5))

unfoldable pub mix_blocks : ℕ → Text → ℕ × ℕ → ℕ × ℕ
unfolding mix_block
mix_blocks zero bytes h = h
mix_blocks (suc n) bytes h = mix_blocks n (drop 16 bytes) (mix_block (take 16 bytes) h)

-- The bytes of a lane, the last one first: `k ^= uint64(b) << shift`.
unfoldable pub lane : ℕ → Text → ℕ
lane shift [] = 0
lane shift (b ∷ bs) = bit_xor (lane (shift + 8) bs) (b * 2 ^ shift)

-- The tail of less than 16 bytes.
unfoldable pub mix_tail : Text → ℕ × ℕ → ℕ × ℕ
unfolding lane mix_k1 mix_k2
mix_tail tail (h1, h2) = (
  if leb 1 (length tail) then bit_xor h1 (mix_k1 (lane 0 (take 8 tail))) else h1,
  if leb 9 (length tail) then bit_xor h2 (mix_k2 (lane 0 (drop 8 tail))) else h2,
)

unfoldable pub finish : ℕ → ℕ × ℕ → ℕ × ℕ
unfolding fmix64
finish n (h1, h2) =
    let a = word (bit_xor h1 n + bit_xor h2 n) in
    let b = word (bit_xor h2 n + a) in
    let c = word (fmix64 a + fmix64 b) in (c, word (fmix64 b + c))

unfoldable pub murmur3_hash : Text → ℕ × ℕ
unfolding mix_blocks mix_tail finish
murmur3_hash key =
    let n = length key in
    let start : ℕ × ℕ = (word (n * c1), word (n * c2)) in
    finish n (mix_tail (drop (n / 16 * 16) key) (mix_blocks (n / 16) key start))
