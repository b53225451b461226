-- ===== src/WorkQueue/Fifo.antt =====
-- include/common.hpp, `WorkQueue<T>`: the queue against the sequence of calls that all threads make.
use uring_sync.Base.{
  List, [], ◌∷◌, ◌++◌, true, Option, none, some, ◌≡◌, refl, ap, sym, ◌∙◌, append-nil, append_assoc,
  arith, inl, inr, Bool-cases, subst,
}
use uring_sync.WorkQueue.{
  WorkQueue, push, push_each, push_bulk, try_pop, wait_pop, can_wake, set_done, is_done, front,
  popped, empty,
}

-- A call, by some thread. `waits` is a `wait_pop` that was attempted; where the thread has to sleep
-- nothing happens, and the call comes again later in the sequence.
pub data Call {ℓ} (A : Type ℓ) : Type ℓ where
  pushes : A → Call A
  pushes_bulk : List A → Call A
  tries waits finishes : Call A

module _ {ℓ} {A : Type ℓ} where
  abbrev pub opt : Option A → List A
  opt none = []
  opt (some a) = a ∷ []

  -- What the calls pushed, in order.
  abbrev pub pushed : List (Call A) → List A
  pushed [] = []
  pushed (pushes a ∷ cs) = a ∷ pushed cs
  pushed (pushes_bulk items ∷ cs) = items ++ pushed cs
  pushed (tries ∷ cs) = pushed cs
  pushed (waits ∷ cs) = pushed cs
  pushed (finishes ∷ cs) = pushed cs

  abbrev waited : WorkQueue A → Option (Option A × WorkQueue A) → List A × WorkQueue A
  waited q none = ([], q)
  waited q (some r) = (opt r.0, r.1)

  -- One call: the items that it takes out, and the queue after it.
  unfoldable pub step : WorkQueue A → Call A → List A × WorkQueue A
  unfolding push push_bulk try_pop wait_pop set_done
  step q (pushes a) = ([], push q a)
  step q (pushes_bulk items) = ([], push_bulk q items)
  step q tries = let (a, r) = try_pop q in (opt a, r)
  step q waits = waited q (wait_pop q)
  step q finishes = ([], set_done q)

  -- All calls: the items taken out, in order, and the queue at the end.
  unfoldable pub run : WorkQueue A → List (Call A) → List A × WorkQueue A
  run q [] = ([], q)
  run q (c ∷ cs) = let (out, r) = step q c in let (outs, s) = run r cs in (out ++ outs, s)

  push_each-append : (queue items : List A) → push_each queue items ≡ queue ++ items
  unfolding push_each
  push_each-append queue [] = sym (append-nil queue)
  push_each-append queue (a ∷ items) =
      push_each-append (queue ++ a ∷ []) items ∙ append_assoc queue (a ∷ []) items

  pub queue-push_bulk :
      (q : WorkQueue A) (items : List A) → (push_bulk q items).queue ≡ q.queue ++ items
  unfolding push_bulk
  queue-push_bulk q items = push_each-append q.queue items

  front-popped : (queue : List A) → opt (front queue) ++ popped queue ≡ queue
  front-popped [] = refl
  front-popped (a ∷ rest) = refl

  waited_lem :
      (q : WorkQueue A) → (waited q (wait_pop q)).0 ++ (waited q (wait_pop q)).1.queue ≡ q.queue
  unfolding wait_pop
  waited_lem q = elim (Bool-cases (can_wake q)) [
    | inl e ↦ rw (e, wait_pop, waited) (front-popped q.queue)
    | inr e ↦ rw (e, wait_pop, waited)
  ]

  step-fifo :
      (q : WorkQueue A) (c : Call A) (cs : List (Call A))
      → (step q c).0 ++ ((step q c).1.queue ++ pushed cs) ≡ q.queue ++ pushed (c ∷ cs)
  unfolding step
  step-fifo q (pushes a) cs = append_assoc q.queue (a ∷ []) (pushed cs)
  step-fifo q (pushes_bulk items) cs =
      rw (push_each-append q.queue items) (append_assoc q.queue items (pushed cs))
  step-fifo q tries cs =
      sym (append_assoc (opt (front q.queue)) (popped q.queue) (pushed cs))
      ∙ ap (λ t. t ++ pushed cs) (front-popped q.queue)
  step-fifo q waits cs =
      sym (append_assoc (waited q (wait_pop q)).0 (waited q (wait_pop q)).1.queue (pushed cs))
      ∙ ap (λ t. t ++ pushed cs) (waited_lem q)
  step-fifo q finishes cs = refl

  -- Whatever calls the threads make and in whatever order they get the lock: the items taken out, in
  -- the order in which they are taken, followed by those still queued, are the items that were queued
  -- at the start followed by all that were pushed. Nothing is lost, doubled or reordered.
  pub run-fifo :
      (q : WorkQueue A) (cs : List (Call A))
      → (run q cs).0 ++ (run q cs).1.queue ≡ q.queue ++ pushed cs
  unfolding run
  run-fifo q [] = sym (append-nil q.queue)
  run-fifo q (c ∷ cs) =
      append_assoc (step q c).0 (run (step q c).1 cs).0 (run (step q c).1 cs).1.queue
      ∙ ap (λ t. (step q c).0 ++ t) (run-fifo (step q c).1 cs)
      ∙ step-fifo q c cs

  step-done : (q : WorkQueue A) (c : Call A) → q.done ≡ true → (step q c).1.done ≡ true
  unfolding step
  step-done q (pushes a) h = h
  step-done q (pushes_bulk items) h = h
  step-done q tries h = h
  step-done q waits h = unfold wait_pop can_wake in ground arith
  step-done q finishes h = refl

  pub awake : (q : WorkQueue A) → q.done ≡ true → can_wake q ≡ true
  unfolding can_wake
  awake q h = ground arith

  pub run-done : (q : WorkQueue A) (cs : List (Call A)) → q.done ≡ true → (run q cs).1.done ≡ true
  unfolding run
  run-done q [] h = h
  run-done q (c ∷ cs) h = run-done (step q c).1 cs (step-done q c h)

  run-append :
      (q : WorkQueue A) (cs later : List (Call A))
      → (run q (cs ++ later)).1 ≡ (run (run q cs).1 later).1
  unfolding run
  run-append q [] later = refl
  run-append q (c ∷ cs) later = run-append (step q c).1 cs later

  -- Whatever calls the threads make, once `set_done` was among them no call sleeps any more: the queue
  -- stays finished, every `wait_pop` returns, with the front item while there is one and with false
  -- when the queue is empty, and `is_done` says whether it is empty.
  pub run-never_sleeps :
      (q : WorkQueue A) (earlier later : List (Call A))
      → let r = (run q (earlier ++ finishes ∷ later)).1 in
        (r.done ≡ true)
        × (wait_pop r ≡ some (front r.queue, record r { queue = popped r.queue }))
        × (is_done r ≡ empty r.queue)
  unfolding run
  run-never_sleeps q earlier later =
      let t = (run q earlier).1 in
      let finished : (step t finishes).1.done ≡ true = unfold step set_done in refl in
      let stays = run-done (step t finishes).1 later finished in
      let r = (run (step t finishes).1 later).1 in
      let now : (r.done ≡ true)
          × (wait_pop r ≡ some (front r.queue, record r { queue = popped r.queue }))
          × (is_done r ≡ empty r.queue) =
        unfold wait_pop is_done in (stays, rw (awake r stays, wait_pop), ground (arith, stays)) in
      subst
        (λ r.
          (r.done ≡ true)
          × (wait_pop r ≡ some (front r.queue, record r { queue = popped r.queue }))
          × (is_done r ≡ empty r.queue))
        (sym (run-append q earlier (finishes ∷ later))) now
