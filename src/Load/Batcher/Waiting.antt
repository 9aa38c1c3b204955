-- ===== src/Load/Batcher/Waiting.antt =====
-- The batches that the pending tasks carry.
use mathlib.Core.List.{append_assoc, Permᴰ}
use mathlib.Core.List.Permᴰ
use durable_integrations.Prelude.{
  ℕ, zero, suc, ◌≡◌, refl, some, List, [], ◌∷◌, ◌++◌, sym, subst, get_elem?,
}
use durable_integrations.Load.Batcher.{Task, of_caller, of_timer, keeps_error, without}

module _ {ℓ} {R : Type ℓ} where
  -- The batches of the pending tasks.
  abbrev pub carried : Task R → List (List R)
  carried (of_caller batch) = batch ∷ []
  carried (of_timer batch) = batch ∷ []
  carried (keeps_error e) = []

  abbrev pub waiting : List (Task R) → List (List R)
  waiting [] = []
  waiting (task ∷ tasks) = carried task ++ waiting tasks

  pub waiting-append : (ts us : List (Task R)) → waiting (ts ++ us) ≡ waiting ts ++ waiting us
  waiting-append [] us = refl
  waiting-append (t ∷ ts) us =
      rw (waiting-append ts us) (sym (append_assoc (carried t) (waiting ts) (waiting us)))

  swap_front : (xs ys zs : List (List R)) → Permᴰ (xs ++ (ys ++ zs)) (ys ++ (xs ++ zs))
  swap_front xs ys zs =
      subst (λ l. Permᴰ l (ys ++ (xs ++ zs))) (append_assoc xs ys zs)
        (subst (Permᴰ ((xs ++ ys) ++ zs)) (append_assoc ys xs zs)
          (Permᴰ.append_right zs (Permᴰ.append_comm xs ys)))

  -- Taking a task out of those that are pending.
  pub waiting-without :
      (tasks : List (Task R)) (i : ℕ) (task : Task R)
      → get_elem? tasks i ≡ some task
      → Permᴰ (waiting tasks) (carried task ++ waiting (without i tasks))
  waiting-without [] i task h = cc
  waiting-without (t ∷ tasks) zero task h =
      let same : t ≡ task = cc in
      subst (λ u. Permᴰ (carried t ++ waiting tasks) (carried u ++ waiting tasks)) same
        (Permᴰ.refl (carried t ++ waiting tasks))
  waiting-without (t ∷ tasks) (suc i) task h =
      Permᴰ.trans (Permᴰ.append_left (carried t) (waiting-without tasks i task h))
        (swap_front (carried t) (carried task) (waiting (without i tasks)))
