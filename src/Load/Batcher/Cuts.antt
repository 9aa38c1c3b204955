-- ===== src/Load/Batcher/Cuts.antt =====
-- The batches that left the buffer, as a cut of the records taken.
use mathlib.Core.List.{append-nil, append_assoc, Permᴰ}
use mathlib.Core.List.Permᴰ
use durable_integrations.Prelude.{
  ℕ, ◌≤◌, ◌<◌, ◌≡◌, refl, ap, ◌∙◌, true, false, Option, none, some, List, [], ◌∷◌, ◌++◌, length,
  length-append, arith, sym, subst, if◌then◌else◌, Bool-cases, if_elim, String, inl, inr, leb, ltb,
}
use durable_integrations.Load.Batcher.{
  Batcher, Section, returns, hands_over, store, add_open, add, flush, close, timer_flush, Call,
  adds,
}

module _ {ℓ} {R : Type ℓ} where
  abbrev pub concat : List (List R) → List R
  concat [] = []
  concat (xs ∷ xss) = xs ++ concat xss

  concat-append : (xss yss : List (List R)) → concat (xss ++ yss) ≡ concat xss ++ concat yss
  concat-append [] yss = refl
  concat-append (xs ∷ xss) yss = rw (concat-append xss yss) (sym (append_assoc xs _ _))

  -- Every batch holds a record and keeps to the limit.
  abbrev pub Fits : ℕ → List (List R) → Type 0
  Fits n [] = Unit
  Fits n (batch ∷ rest) = (0 < length batch) × (length batch ≤ n) × Fits n rest

  Fits-append :
      (n : ℕ) (xss : List (List R)) (batch : List R)
      → Fits n xss
      → 0 < length batch
      → length batch ≤ n
      → Fits n (xss ++ batch ∷ [])
  Fits-append n [] batch f p q = (p, q, tt)
  Fits-append n (xs ∷ xss) batch f p q = (f.0, f.1, Fits-append n xss batch f.2 p q)

  -- The buffer has room, and none is needed once the batcher is closed.
  abbrev pub IsRoomy : Batcher R → Type 0
  IsRoomy b = (length b.buffer < b.max_size) × (b.closed ≡ true → length b.buffer ≡ 0)

  -- The batches `out` are, in some order, those into which the records taken were cut, up to the
  -- ones that the buffer holds.
  abbrev pub Cut : List R → List (List R) → Batcher R → Type ℓ
  Cut taken out b =
      (batches : List (List R)) × (concat batches ++ b.buffer ≡ taken)
      × Permᴰ batches out
      × Fits b.max_size batches
      × IsRoomy b

  -- What a locked part does with the buffer and the record that it takes, if any.
  abbrev pub Locks : List R → Batcher R → Option (List R) → Batcher R → Type ℓ
  Locks taken b none after =
      (after.buffer ≡ b.buffer ++ taken) × (after.max_size ≡ b.max_size) × IsRoomy after
  Locks taken b (some batch) after =
      (batch ≡ b.buffer ++ taken)
      × (after.buffer ≡ [])
      × (0 < length batch)
      × (length batch ≤ b.max_size)
      × (after.max_size ≡ b.max_size)
      × IsRoomy after

  abbrev pub batch_of : Section R → Option (List R)
  batch_of (returns reply) = none
  batch_of (hands_over batch) = some batch

  -- The record is taken exactly if the batcher is open and no timer error is pending.
  abbrev pub taken : Call R → Batcher R → List R
  taken (adds r) b = if b.closed then [] else elim b.last_err [ none ↦ r ∷ [] | some e ↦ [] ]
  taken _ b = []

  -- A locked part that leaves the buffer, and one that drains it.
  rests-Locks :
      (b after : Batcher R)
      → after.buffer ≡ b.buffer
      → after.max_size ≡ b.max_size
      → IsRoomy after
      → Locks [] b none after
  rests-Locks b after buffer size h = (buffer ∙ sym (append-nil b.buffer), size, h)

  drains-Locks :
      (b after : Batcher R)
      → ltb 0 (length b.buffer) ≡ true
      → IsRoomy b
      → after.buffer ≡ []
      → after.max_size ≡ b.max_size
      → Locks [] b (some b.buffer) after
  drains-Locks b after e h empty size =
      let none_left = ap length empty in
      (
        sym (append-nil b.buffer),
        empty,
        ground arith,
        ground arith,
        size,
        (ground arith, λ c. ground arith),
      )

  store-Locks :
      (r : R) (b : Batcher R)
      → b.closed ≡ false
      → IsRoomy b
      → Locks (r ∷ []) b (batch_of (store r b).0) (store r b).1
  unfolding store
  store-Locks r b c h =
      let size = length-append b.buffer (r ∷ []) in
      elim (Bool-cases (leb b.max_size (length (b.buffer ++ r ∷ [])))) [
        | inl e ↦ rw e (
          refl,
          refl,
          ground (arith, size),
          ground (arith, size),
          refl,
          (ground arith, λ d. refl),
        )
        | inr e ↦ rw e (refl, refl, (ground (arith, size), λ d. cc))
      ]

  add_open-Locks :
      (o : Option String) (r : R) (b : Batcher R)
      → b.closed ≡ false
      → IsRoomy b
      → Locks
          (elim o [ none ↦ r ∷ [] | some e ↦ [] ])
          b
          (batch_of (add_open o r b).0)
          (add_open o r b).1
  unfolding add_open
  add_open-Locks none r b c h = store-Locks r b c h
  add_open-Locks (some e) r b c h = rests-Locks b (record b { last_err = none }) refl refl h

  pub add-Locks :
      (r : R) (b : Batcher R)
      → IsRoomy b
      → Locks (taken (adds r) b) b (batch_of (add r b).0) (add r b).1
  unfolding add
  add-Locks r b h =
      if_elim (λ (p : Section R × Batcher R). Locks (taken (adds r) b) b (batch_of p.0) p.1)
        b.closed _ _
        (λ c.
          let none_taken : taken (adds r) b ≡ [] = rw c refl in
          subst (λ t. Locks t b none b) (sym none_taken) (rests-Locks b b refl refl h))
        (λ c.
          let one_taken : taken (adds r) b ≡ elim b.last_err [ none ↦ r ∷ [] | some e ↦ [] ] =
            rw c refl in
          subst (λ t. Locks t b (batch_of (add_open b.last_err r b).0) (add_open b.last_err r b).1)
            (sym one_taken) (add_open-Locks b.last_err r b c h))

  pub flush-Locks : (b : Batcher R) → IsRoomy b → Locks [] b (batch_of (flush b).0) (flush b).1
  unfolding flush
  flush-Locks b h =
      if_elim (λ (p : Section R × Batcher R). Locks [] b (batch_of p.0) p.1)
        (ltb 0 (length b.buffer)) _ _
        (λ e. drains-Locks b (record b { buffer = []; timer = true }) e h refl refl)
        (λ e. rests-Locks b b refl refl h)

  pub close-Locks : (b : Batcher R) → IsRoomy b → Locks [] b (batch_of (close b).0) (close b).1
  unfolding close
  close-Locks b h =
      if_elim (λ (p : Section R × Batcher R). Locks [] b (batch_of p.0) p.1) b.closed _ _
        (λ c. rests-Locks b b refl refl h)
        (λ c.
          if_elim (λ (p : Section R × Batcher R). Locks [] b (batch_of p.0) p.1)
            (ltb 0 (length b.buffer)) _ _
            (λ e.
              drains-Locks b (record b { closed = true; timer = true; buffer = [] }) e h refl refl)
            (λ e.
              rests-Locks b (record b { closed = true; timer = false }) refl refl
                (h.0, λ d. ground arith)))

  pub timer_flush-Locks :
      (b : Batcher R) → IsRoomy b → Locks [] b (timer_flush b).0 (timer_flush b).1
  unfolding timer_flush
  timer_flush-Locks b h =
      if_elim (λ (p : Option (List R) × Batcher R). Locks [] b p.0 p.1) b.closed _ _
        (λ c. rests-Locks b b refl refl h)
        (λ c.
          if_elim (λ (p : Option (List R) × Batcher R). Locks [] b p.0 p.1)
            (ltb 0 (length b.buffer)) _ _
            (λ e. drains-Locks b (record b { buffer = []; timer = true }) e h refl refl)
            (λ e. rests-Locks b (record b { timer = true }) refl refl h))

  -- A locked part that hands nothing over lengthens the buffer by what it takes.
  pub keeps-Cut :
      {all : List R} {out : List (List R)} (new : List R) (b after : Batcher R)
      → Cut all out b
      → Locks new b none after
      → Cut (all ++ new) out after
  keeps-Cut {all} new b after (batches, e, p, f, r) (buffer, size, roomy) = (
    batches,
    ap (◌++◌ (concat batches)) buffer
        ∙ sym (append_assoc (concat batches) b.buffer new)
        ∙ ap (λ xs. xs ++ new) e,
    p,
    subst (λ n. Fits n batches) (sym size) f,
    roomy,
  )

  -- One that hands a batch over adds it to those that are out.
  pub drains-Cut :
      {all : List R} {out : List (List R)} (new : List R) (b : Batcher R) (batch : List R)
      (after : Batcher R)
      → Cut all out b
      → Locks new b (some batch) after
      → Cut (all ++ new) (out ++ batch ∷ []) after
  drains-Cut {all} new b batch after (batches, e, p, f, r)
        (drained, empty, low, high, size, roomy) =
      (
        batches ++ batch ∷ [],
        rw (empty, append-nil, concat-append batches (batch ∷ []), append-nil batch, drained)
            (sym (append_assoc (concat batches) b.buffer new) ∙ ap (λ xs. xs ++ new) e),
        Permᴰ.append_right (batch ∷ []) p,
        subst (λ n. Fits n (batches ++ batch ∷ [])) (sym size)
            (Fits-append b.max_size batches batch f low high),
        roomy,
      )

  pub permutes-Cut :
      {all : List R} {out out' : List (List R)} (b : Batcher R)
      → Permᴰ out out'
      → Cut all out b
      → Cut all out' b
  permutes-Cut b q (batches, e, p, f, r) = (batches, e, Permᴰ.trans p q, f, r)
