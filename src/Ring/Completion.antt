-- ===== src/Ring/Completion.antt =====
-- include/ring.hpp: each completion reaches the callback once, in the order of arrival.
use uring_sync.Base.{
  ℕ, zero, suc, ◌+◌, ◌≤◌, ◌≡◌, refl, ap, sym, ◌∙◌, List, [], ◌∷◌, ◌++◌, none, some, arith, length,
  append_assoc, append-nil,
}
use uring_sync.Base.Int.{ℤ}
use uring_sync.Ring.{Uring, process_completions, wait_and_process}

-- `wait` and `peek` give the first completion that has arrived, and `peek` says when there is none.
pub record Arrives (u : Uring) : Type 0 where
  pub empty : (s : u.State) → u.ready s ≡ [] → u.peek s ≡ none
  pub peeks :
      (s : u.State) (c : ℕ × ℤ) (cs : List (ℕ × ℤ))
      → u.ready s ≡ c ∷ cs
      → (t : u.State) × (u.peek s ≡ some (c, t)) × (u.ready t ≡ cs)
  pub waits :
      (s : u.State) (c : ℕ × ℤ) (cs : List (ℕ × ℤ))
      → u.ready s ≡ c ∷ cs
      → (t : u.State) × (u.wait s ≡ some (c, t)) × (u.ready t ≡ cs)

module _ (u : Uring) {W : Type 0} where
  -- A callback that notes its calls, in `calls`, and during which no completion arrives or goes.
  abbrev pub Notes : (ℕ → ℤ → W × u.State → W × u.State) → (W → List (ℕ × ℤ)) → Type 0
  Notes callback calls =
      (ctx : ℕ) (res : ℤ) (w : W) (s : u.State)
      → let r = callback ctx res (w, s) in
        (calls r.0 ≡ calls w ++ (ctx, res) ∷ []) × (u.ready r.1 ≡ u.ready s)

module _ (u : Uring) (a : Arrives u) {W : Type 0} (callback : ℕ → ℤ → W × u.State → W × u.State)
    (calls : W → List (ℕ × ℤ)) (n : Notes u callback calls) where
  process_completions-all :
      (cs : List (ℕ × ℤ)) (rounds : ℕ) (w : W) (s : u.State)
      → u.ready s ≡ cs
      → length cs ≤ rounds
      → let q = process_completions u callback rounds (w, s) in
        (q.0 ≡ length cs) × (calls q.1.0 ≡ calls w ++ cs) × (u.ready q.1.1 ≡ [])
  unfolding process_completions
  process_completions-all [] zero w s e l = (refl, sym (append-nil (calls w)), e)
  process_completions-all [] (suc rounds) w s e l =
      rw (a.empty s e, process_completions) (refl, sym (append-nil (calls w)), e)
  process_completions-all (c ∷ cs) zero w s e l = absurd (omega arith)
  process_completions-all ((ctx, res) ∷ cs) (suc rounds) w s e l =
      let (t, found, rest) = a.peeks s (ctx, res) cs e in
      let r = callback ctx res (w, t) in
      let (noted, kept) = n ctx res w t in
      let (counted, all, none_left) =
        process_completions-all cs rounds r.0 r.1 (kept ∙ rest) (omega arith) in
      rw (found, process_completions)
        (
          omega (arith, counted),
          all ∙ ap (λ x. x ++ cs) noted ∙ append_assoc (calls w) ((ctx, res) ∷ []) cs,
          none_left,
        )

  -- With completions that have arrived and rounds for all but the first, `wait_and_process` returns
  -- their number, and the callback was called once for each, in the order of arrival, and for no other.
  pub wait_and_process-all :
      (c : ℕ × ℤ) (cs : List (ℕ × ℤ)) (rounds : ℕ) (w : W) (s : u.State)
      → u.ready s ≡ c ∷ cs
      → length cs ≤ rounds
      → (v : W) × (t : u.State) × (wait_and_process u callback rounds (w, s)
          ≡ some (length (c ∷ cs), (v, t)))
        × (calls v ≡ calls w ++ c ∷ cs)
        × (u.ready t ≡ [])
  unfolding wait_and_process
  wait_and_process-all (ctx, res) cs rounds w s e l =
      let (t, found, rest) = a.waits s (ctx, res) cs e in
      let r = callback ctx res (w, t) in
      let (noted, kept) = n ctx res w t in
      let (counted, all, none_left) = process_completions-all cs rounds r.0 r.1 (kept ∙ rest) l in
      let q = process_completions u callback rounds r in
      let one_more : q.0 + 1 ≡ suc (length cs) = omega (arith, counted) in
      (
        q.1.0,
        q.1.1,
        rw (found, wait_and_process) (ap (λ m. some (m, q.1)) one_more),
        all ∙ ap (λ x. x ++ cs) noted ∙ append_assoc (calls w) ((ctx, res) ∷ []) cs,
        none_left,
      )
