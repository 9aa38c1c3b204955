-- ===== src/Partitioner/Offsets.antt =====
-- `CalculatePartitions` cuts [0, total) into contiguous chunks of nearly equal size.
use durable_integrations.Prelude.{
  ℕ, zero, suc, ◌+◌, ◌-◌, ◌*◌, ◌/◌, ◌%◌, ◌≤◌, ◌<◌, ◌≡◌, refl, ap, Bool-cases, inl, inr, ◌⊎◌, leb,
  leb→le, ◌==◌, ==_iff, ltb, ltb→lt, List, [], ◌∷◌, arith, length,
}
use durable_integrations.Prelude.Int.{ℤ, pos, negsuc, sub_ℕ}
use native.Mathlib.Numerals.{add-one}
use native.Mathlib.Nat.{div-add-mod, div-add-mod', mod-lt}
use durable_integrations.Partitioner.{
  at_least_one, Partition, num_partitions, offsets_from, calculate_partitions, clamp_size,
}

-- The chunks are numbered from `i`, follow one another from `lo` to `hi` without gap or overlap,
-- and each holds between `least` and `most` records.
abbrev pub Tiles : ℕ → ℕ → ℕ → ℕ → ℕ → List Partition → Type 0
Tiles least most i lo hi [] = lo ≡ hi
Tiles least most i lo hi (p ∷ ps) =
    (size : ℕ) × (least ≤ size)
    × (size ≤ most)
    × (p.id ≡ i)
    × (p.start ≡ pos lo)
    × (p.end ≡ sub_ℕ (lo + size) 1)
    × Tiles least most (i + 1) (lo + size) hi ps

pub length-offsets_from :
    (n i : ℕ) (per extra offset : ℤ) → length (offsets_from n i per extra offset) ≡ n
unfolding offsets_from
length-offsets_from zero i per extra offset = refl
length-offsets_from (suc n) i per extra offset = ap suc (length-offsets_from n _ per extra _)

offsets_from-Tiles :
    (n i per extra most offset hi : ℕ)
    → per ≤ most
    → (i < extra → per + 1 ≤ most)
    → hi ≡ offset + n * per + (extra - i)
    → extra ≤ i + n
    → Tiles per most i offset hi (offsets_from n i (pos per) (pos extra) (pos offset))
unfolding offsets_from
offsets_from-Tiles zero i per extra most offset hi a b c d = omega arith
offsets_from-Tiles (suc n) i per extra most offset hi a b c d = elim (Bool-cases (ltb i extra)) [
  | inl more ↦
      let h : i < extra = ltb→lt i extra more in
      rw more (
        per + 1,
        omega arith,
        b h,
        refl,
        refl,
        refl,
        offsets_from-Tiles n (i + 1) per extra most (offset + (per + 1)) hi a (λ _. b h)
            (omega arith) (omega arith),
      )
  | inr none ↦
      let h : extra ≤ i = ground arith in
      rw none (
        per,
        omega arith,
        a,
        refl,
        refl,
        refl,
        offsets_from-Tiles n (i + 1) per extra most (offset + per) hi a (λ k. absurd (omega arith))
            (omega arith) (omega arith),
      )
]

at_least_one_bounds :
    (q t m : ℕ)
    → 0 < m
    → t ≡ q * m
    → (t ≤ at_least_one (pos q) * m)
      × ((at_least_one (pos q) ≡ 1) ⊎ (at_least_one (pos q) * m < t + m))
at_least_one_bounds zero t m h e = (omega arith, inl refl)
at_least_one_bounds (suc q) t m h e = (omega arith, inr (omega arith))

-- The number of chunks suffices and is the least such number, but at least one.
num_partitions_bounds :
    (t m : ℕ)
    → 0 < m
    → (t ≤ num_partitions (pos t) m * m)
      × ((num_partitions (pos t) m ≡ 1) ⊎ (num_partitions (pos t) m * m < t + m))
unfolding num_partitions
num_partitions_bounds t m h = elim (Bool-cases (t % m == 0)) [
  | inl e ↦ rw e (
      at_least_one_bounds (t / m) t m h
        (let e' : t % m ≡ 0 = (==_iff (t % m) 0).0 e in omega (arith, div-add-mod' t m)))
  | inr e ↦
      let p : 0 < t % m = ground arith in
      rw (e, add-one)
        (
          omega (arith, div-add-mod' t m, mod-lt t h),
          inr (omega (arith, div-add-mod' t m, mod-lt t h)),
        )
]

at_least_one_pos : (n : ℤ) → 0 < at_least_one n
at_least_one_pos (pos zero) = omega arith
at_least_one_pos (pos (suc n)) = omega arith
at_least_one_pos (negsuc n) = omega arith

clamp_size_pos : (n : ℤ) → 0 < clamp_size n
clamp_size_pos (pos zero) = omega arith
clamp_size_pos (pos (suc n)) = omega arith
clamp_size_pos (negsuc n) = omega arith

chunk_bounds : (t m n : ℕ) → 0 < n → t ≤ n * m → (t / n ≤ m) × (0 < t % n → t / n + 1 ≤ m)
chunk_bounds t m n h k = (
  grind arith,
  λ p. elim (Bool-cases (leb m (t / n))) [
    | inl e ↦ let e' : m ≤ t / n = leb→le m (t / n) e in grind (arith, div-add-mod t n)
    | inr e ↦ ground arith
  ],
)

-- Dividing by the number of chunks, and spreading the remainder over the first of them.
chunks-Tiles :
    (t m n : ℕ)
    → 0 < n
    → t ≤ n * m
    → (least most : ℕ) × (most ≤ least + 1)
      × (most ≤ m)
      × Tiles least most 0 0 t (offsets_from n 0 (pos (t / n)) (pos (t % n)) (pos 0))
chunks-Tiles t m n h k = elim (Bool-cases (t % n == 0)) [
  | inl e ↦
      let z : t % n ≡ 0 = (==_iff (t % n) 0).0 e in
      (
        t / n,
        t / n,
        omega arith,
        (chunk_bounds t m n h k).0,
        offsets_from-Tiles n 0 (t / n) (t % n) (t / n) 0 t (omega arith) (λ p. absurd (omega arith))
            (omega (arith, div-add-mod' t n)) (omega (arith, mod-lt t h)),
      )
  | inr e ↦
      let p : 0 < t % n = ground arith in
      (
        t / n,
        t / n + 1,
        omega arith,
        (chunk_bounds t m n h k).1 p,
        offsets_from-Tiles n 0 (t / n) (t % n) (t / n + 1) 0 t (omega arith) (λ _. omega arith)
            (omega (arith, div-add-mod' t n)) (omega (arith, mod-lt t h)),
      )
]

num_partitions_pos : (total : ℤ) (m : ℕ) → 0 < num_partitions total m
unfolding num_partitions
num_partitions_pos total m = at_least_one_pos _

-- For a total t that is not negative, and any size asked for (1 if it is not positive), the chunks
-- are numbered from 0 and cut [0, t) into contiguous pieces. Their sizes differ by at most one
-- record, none is larger than asked for, and their number is the least for which that is possible,
-- but at least one.
pub calculate_partitions-Tiles :
    (t : ℕ) (max_size : ℤ)
    → (least most : ℕ) × (most ≤ least + 1)
      × (most ≤ clamp_size max_size)
      × Tiles least most 0 0 t (calculate_partitions (pos t) max_size)
      × ((length (calculate_partitions (pos t) max_size) ≡ 1)
          ⊎ (length (calculate_partitions (pos t) max_size) * clamp_size max_size
              < t + clamp_size max_size))
unfolding calculate_partitions
calculate_partitions-Tiles t max_size =
    let m = clamp_size max_size in
    let n = num_partitions (pos t) m in
    let bounds = num_partitions_bounds t m (clamp_size_pos max_size) in
    let (least, most, near, fits, tiles) =
      chunks-Tiles t m n (num_partitions_pos (pos t) m) bounds.0 in
    (least, most, near, fits, tiles, rw length-offsets_from bounds.1)
