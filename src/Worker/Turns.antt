-- ===== src/Worker/Turns.antt =====
-- src/main.cpp, `worker_thread`: the steps of the thread keep every file accounted for.
use uring_sync.Base.{
  ℕ, ◌<◌, ◌≡◌, refl, ap, List, [], true, false, length, arith, Bool-cases, false≢true, ◌⊎◌, inl,
  inr, subst, not, ◌&&◌, ◌||◌, ltb, ltb→lt,
}
use uring_sync.WorkQueue.{WorkQueue, empty, try_pop, wait_pop, can_wake}
use uring_sync.WorkQueue
use uring_sync.WorkQueue.Fifo.{awake}
use uring_sync.FileCopy.Types.{Config}
use uring_sync.Worker.{
  Worker, Point, looping, filling, asking, checking, waiting, processing, finished, turn_at, fill,
  ask, check, wait, loop,
}
use uring_sync.Worker.Accounts.{At, Good, list-cases, moves, starts, finds_none}

module _ (address : List ℕ → ℕ) (cfg : Config) (files elsewhere : ℕ) where
  has_room :
      (w : Worker)
      → (not w.queue_exhausted && ltb (length w.pipeline.in_flight) cfg.queue_depth) ≡ true
      → ltb (length w.pipeline.in_flight) cfg.queue_depth ≡ true
  has_room w e = elim (Bool-cases w.queue_exhausted) [
    | inl x ↦ absurd (
        false≢true
          (subst (λ b. (not b && ltb (length w.pipeline.in_flight) cfg.queue_depth) ≡ true) x e))
    | inr x ↦ subst (λ b. (not b && ltb (length w.pipeline.in_flight) cfg.queue_depth) ≡ true) x e
  ]

  fill-Good :
      (w : Worker)
      → Good address cfg files elsewhere w
      → Good address cfg files elsewhere (fill address cfg w)
  unfolding fill try_pop
  fill-Good w g =
      elim (Bool-cases
        (not w.queue_exhausted && ltb (length w.pipeline.in_flight) cfg.queue_depth)) [
          | inl e ↦ elim (list-cases w.queue.queue) [
            | inl q ↦
                rw (e, try_pop, q)
                  (finds_none address cfg files elsewhere w asking w.queue_exhausted (λ v. tt) q g)
            | inr (item, rest, q) ↦
                rw (e, try_pop, q)
                  (starts address cfg files elsewhere w filling checking item rest (λ v. tt) q
                    (ltb→lt _ _ (has_room w e)) g)
          ]
          | inr e ↦ rw e (moves address cfg files elsewhere w checking checking refl tt g)
        ]

  ask_lem :
      (w : Worker)
      → Good address cfg files elsewhere w
      → ((w.queue_exhausted || WorkQueue.is_done w.queue) ≡ false) ⊎ (w.queue.queue ≡ [])
  ask_lem w g = elim (list-cases w.queue.queue) [
    | inl q ↦ inr q
    | inr (item, rest, q) ↦ elim g.exhausted [
      | inl e ↦ inl (unfold WorkQueue.is_done in rw (e, g.done, q))
      | inr e ↦ inr e
    ]
  ]

  ask-Good :
      (w : Worker) → Good address cfg files elsewhere w → Good address cfg files elsewhere (ask w)
  unfolding ask
  ask-Good w g = record {
    sound = g.sound;
    room = g.room;
    done = g.done;
    counted = g.counted;
    exhausted = ask_lem w g;
    at = tt;
  }

  check-Good :
      (w : Worker) → Good address cfg files elsewhere w → Good address cfg files elsewhere (check w)
  unfolding check
  check-Good w g = elim (list-cases w.pipeline.in_flight) [
    | inl e ↦ elim (Bool-cases w.queue_exhausted) [
      | inl x ↦ moves address cfg files elsewhere w finished _ (rw (e, x)) (x, e) g
      | inr x ↦ moves address cfg files elsewhere w waiting _ (rw (e, x)) e g
    ]
    | inr (c, cs, e) ↦ moves address cfg files elsewhere w processing _ (rw e) tt g
  ]

  loop-Good :
      (w : Worker) → Good address cfg files elsewhere w → Good address cfg files elsewhere (loop w)
  unfolding loop
  loop-Good w g = elim (Bool-cases w.queue_exhausted) [
    | inl x ↦ elim (list-cases w.pipeline.in_flight) [
      | inl e ↦ moves address cfg files elsewhere w finished _ (rw (e, x)) (x, e) g
      | inr (c, cs, e) ↦ moves address cfg files elsewhere w filling _ (rw (e, x)) tt g
    ]
    | inr x ↦ moves address cfg files elsewhere w filling _ (rw x) tt g
  ]

  wait-Good :
      0 < cfg.queue_depth
      → (w : Worker) → w.pipeline.in_flight ≡ []
      → Good address cfg files elsewhere w
      → Good address cfg files elsewhere (wait address cfg w)
  unfolding wait wait_pop
  wait-Good d w n g = elim (list-cases w.queue.queue) [
    | inl q ↦
        rw (awake w.queue g.done, wait_pop, q)
          (finds_none address cfg files elsewhere w looping true (λ v. tt) q g)
    | inr (item, rest, q) ↦
        rw (awake w.queue g.done, wait_pop, q)
          (starts address cfg files elsewhere w processing looping item rest (λ v. tt) q
            (omega (arith, ap length n)) g)
  ]

  pub turn_at-Good :
      0 < cfg.queue_depth
      → (p : Point) (w : Worker) → At p w
      → Good address cfg files elsewhere w
      → Good address cfg files elsewhere (turn_at address cfg p w)
  unfolding turn_at
  turn_at-Good d looping w h g = loop-Good w g
  turn_at-Good d filling w h g = fill-Good w g
  turn_at-Good d asking w h g = ask-Good w g
  turn_at-Good d checking w h g = check-Good w g
  turn_at-Good d waiting w h g = wait-Good d w h g
  turn_at-Good d processing w h g = moves address cfg files elsewhere w looping looping refl tt g
  turn_at-Good d finished w h g = g
