-- ===== src/Transform/Dedup/Seen.antt =====
-- A key that was added is found again: the filter has no false negatives.
use native.Mathlib.Nat.{mod-lt, lt_of_lt_of_le}
use durable_integrations.Prelude.{
  ℕ, zero, suc, ◌+◌, ◌*◌, ◌%◌, ◌^◌, ◌≤◌, ◌<◌, ◌≡◌, refl, ◌∙◌, subst, inl, inr, Bool, true, false,
  List, [], ◌∷◌, arith, Bool-cases, ◌==◌, ==_iff, length, length-set, length-replicate, get_or, set,
  get_or-set_self, get_or-set_ne,
}
use durable_integrations.Prelude.Bytes.{Text}
use durable_integrations.Transform.Dedup.{
  Deduplicator, new_deduplicator, position, mark_from, is_duplicate, contains_from, contains,
}
use durable_integrations.Transform.Dedup.Murmur.{murmur3_hash}

mark_from_absent :
    (rounds i : ℕ) (h : ℕ × ℕ) (n : ℕ) (bits : List Bool)
    → (mark_from rounds i h n false bits).0 ≡ false
unfolding mark_from
mark_from_absent zero i h n bits = refl
mark_from_absent (suc rounds) i h n bits = ground (
  arith,
  mark_from_absent rounds (i + 1) h n bits,
  mark_from_absent rounds (i + 1) h n (set bits (position h n i) true),
)

-- A position that was written before counts as absent all the same, so the answer is that of Contains.
mark_from-contains_from :
    (rounds i : ℕ) (h : ℕ × ℕ) (n : ℕ) (bits : List Bool)
    → (mark_from rounds i h n true bits).0 ≡ contains_from rounds i h n bits
unfolding mark_from contains_from
mark_from-contains_from zero i h n bits = refl
mark_from-contains_from (suc rounds) i h n bits = ground (
  arith,
  mark_from-contains_from rounds (i + 1) h n bits,
  mark_from_absent rounds (i + 1) h n (set bits (position h n i) true),
)

-- IsDuplicate answers what Contains would have answered before it.
pub is_duplicate-contains :
    (key : Text) (d : Deduplicator) → (is_duplicate key d).0 ≡ contains key d
unfolding is_duplicate contains
is_duplicate-contains key d =
    mark_from-contains_from d.num_hashes 0 (murmur3_hash key) d.num_bits d.bits

-- Each bit that is set stays set.
abbrev Grows : List Bool → List Bool → Type 0
Grows old new =
    (length new ≡ length old) × ((p : ℕ) → get_or old p false ≡ true → get_or new p false ≡ true)

set-Grows : (bits : List Bool) (q : ℕ) → q < length bits → Grows bits (set bits q true)
set-Grows bits q h = (
  length-set bits q true,
  λ p e. elim (Bool-cases (q == p)) [
    | inl a ↦
        subst (λ r. get_or (set bits q true) r false ≡ true) ((==_iff q p).0 a)
          (get_or-set_self bits q true false h)
    | inr a ↦ get_or-set_ne bits q p true false (λ same. ground arith) ∙ e
  ],
)

Grows-trans : (a b c : List Bool) → Grows a b → Grows b c → Grows a c
Grows-trans a b c (m, f) (n, g) = (n ∙ m, λ p e. g p (f p e))

module _ (h : ℕ × ℕ) (n : ℕ) where
  position-lt : (i : ℕ) (bits : List Bool) → 0 < n → n ≤ length bits → position h n i < length bits
  position-lt i bits a b = lt_of_lt_of_le (mod-lt ((h.0 + i * h.1) % 2 ^ 64) a) b

  mark_from-Grows :
      (rounds i : ℕ) (present : Bool) (bits : List Bool)
      → 0 < n
      → n ≤ length bits
      → Grows bits (mark_from rounds i h n present bits).1
  unfolding mark_from
  mark_from-Grows zero i present bits a b = (refl, λ p e. e)
  mark_from-Grows (suc rounds) i present bits a b =
      elim (Bool-cases (get_or bits (position h n i) false)) [
        | inl e ↦ rw e (mark_from-Grows rounds (i + 1) present bits a b)
        | inr e ↦
            let bits' = set bits (position h n i) true in
            let grown = set-Grows bits (position h n i) (position-lt i bits a b) in
            rw e (
              Grows-trans bits bits' _ grown
                (mark_from-Grows rounds (i + 1) false bits' a (omega (arith, grown.0))))
      ]

  contains_from-Grows :
      (rounds i : ℕ) (old new : List Bool)
      → Grows old new
      → contains_from rounds i h n old ≡ true
      → contains_from rounds i h n new ≡ true
  unfolding contains_from
  contains_from-Grows zero i old new g e = refl
  contains_from-Grows (suc rounds) i old new g e =
      let here = g.1 (position h n i) in
      ground (arith, here, contains_from-Grows rounds (i + 1) old new g)

  contains_from-mark_from :
      (rounds i : ℕ) (present : Bool) (bits : List Bool)
      → 0 < n
      → n ≤ length bits
      → contains_from rounds i h n (mark_from rounds i h n present bits).1 ≡ true
  unfolding mark_from contains_from
  contains_from-mark_from zero i present bits a b = refl
  contains_from-mark_from (suc rounds) i present bits a b =
      elim (Bool-cases (get_or bits (position h n i) false)) [
        | inl e ↦
            let later = mark_from-Grows rounds (i + 1) present bits a b in
            rw (e, later.1 (position h n i) e)
              (contains_from-mark_from rounds (i + 1) present bits a b)
        | inr e ↦
            let bits' = set bits (position h n i) true in
            let long : n ≤ length bits' = omega (arith, length-set bits (position h n i) true) in
            let later = mark_from-Grows rounds (i + 1) false bits' a long in
            let here = get_or-set_self bits (position h n i) true false (position-lt i bits a b) in
            rw (e, later.1 (position h n i) here)
              (contains_from-mark_from rounds (i + 1) false bits' a long)
      ]

-- The bits are as many as `num_bits` says, and there is one.
abbrev pub IsSound : Deduplicator → Type 0
IsSound d = (0 < d.num_bits) × (length d.bits ≡ d.num_bits)

-- The filter after a sequence of keys.
unfoldable pub after_keys : List Text → Deduplicator → Deduplicator
after_keys [] d = d
after_keys (key ∷ keys) d = after_keys keys (is_duplicate key d).1

pub is_duplicate-IsSound :
    (key : Text) (d : Deduplicator) → IsSound d → IsSound (is_duplicate key d).1
unfolding is_duplicate
is_duplicate-IsSound key d (a, b) = (
  a,
  (mark_from-Grows (murmur3_hash key) d.num_bits d.num_hashes 0 true d.bits a (omega arith)).0 ∙ b,
)

pub contains-is_duplicate :
    (key other : Text) (d : Deduplicator)
    → IsSound d
    → contains key d ≡ true
    → contains key (is_duplicate other d).1 ≡ true
unfolding contains is_duplicate
contains-is_duplicate key other d (a, b) e =
    contains_from-Grows (murmur3_hash key) d.num_bits d.num_hashes 0 d.bits _
      (mark_from-Grows (murmur3_hash other) d.num_bits d.num_hashes 0 true d.bits a (omega arith)) e

pub contains-is_duplicate_self :
    (key : Text) (d : Deduplicator) → IsSound d → contains key (is_duplicate key d).1 ≡ true
unfolding contains is_duplicate
contains-is_duplicate_self key d (a, b) =
    contains_from-mark_from (murmur3_hash key) d.num_bits d.num_hashes 0 true d.bits a (omega arith)

contains-after_keys :
    (keys : List Text) (key : Text) (d : Deduplicator)
    → IsSound d
    → contains key d ≡ true
    → contains key (after_keys keys d) ≡ true
unfolding after_keys
contains-after_keys [] key d v e = e
contains-after_keys (other ∷ keys) key d v e =
    contains-after_keys keys key (is_duplicate other d).1 (is_duplicate-IsSound other d v)
      (contains-is_duplicate key other d v e)

after_keys-IsSound : (keys : List Text) (d : Deduplicator) → IsSound d → IsSound (after_keys keys d)
unfolding after_keys
after_keys-IsSound [] d v = v
after_keys-IsSound (key ∷ keys) d v =
    after_keys-IsSound keys (is_duplicate key d).1 (is_duplicate-IsSound key d v)

-- In a new filter of at least one word: a key that has come before, whatever keys came before it and
-- in between, is reported as a duplicate.
pub no_false_negatives :
    (words hashes : ℕ) (before between : List Text) (key : Text)
    → 0 < words
    → (is_duplicate key (
        after_keys between
          (is_duplicate key (after_keys before (new_deduplicator words hashes))).1)).0
      ≡ true
unfolding new_deduplicator
no_false_negatives words hashes before between key h =
    let d = after_keys before (new_deduplicator words hashes) in
    let v =
      after_keys-IsSound before (new_deduplicator words hashes)
        (omega arith, length-replicate (words * 64) false) in
    is_duplicate-contains key (after_keys between (is_duplicate key d).1)
    ∙ contains-after_keys between key (is_duplicate key d).1 (is_duplicate-IsSound key d v)
        (contains-is_duplicate_self key d v)
