-- ===== src/Worker/Accounts.antt =====
-- src/main.cpp, `worker_thread`: every file of the queue is accounted for.
use mathlib.Core.List.{cons≢nil}
use uring_sync.Base.{
  ℕ, ◌+◌, ◌<◌, ◌≤◌, ◌≡◌, refl, ap, sym, ◌∙◌, List, [], ◌∷◌, ◌++◌, append-nil, Bool, true, false,
  length, length-append, arith, ◌⊎◌, inl, inr, subst,
}
use uring_sync.WorkQueue.{WorkQueue}
use uring_sync.WorkQueue.Fifo.{Call, run, pushed, run-fifo, run-done}
use uring_sync.FileCopy.Types.{Config, word}
use uring_sync.FileCopy.Start.{FileWorkItem}
use uring_sync.Worker.{
  Worker, Pipeline, Point, looping, filling, asking, checking, waiting, processing, finished,
  with_item,
}
use uring_sync.Worker.Sound.{Sound, take_up-Sound}
use uring_sync.Worker.Completion.{Counted, none_over, completed, failed}

-- What the point says about the rest of the state.
abbrev pub At : Point → Worker → Type 0
At waiting w = w.pipeline.in_flight ≡ []
At finished w = (w.queue_exhausted ≡ true) × (w.pipeline.in_flight ≡ [])
At _ w = Unit

pub list-cases :
    {A : Type 0} (xs : List A) → (xs ≡ []) ⊎ ((x : A) × (rest : List A) × (xs ≡ x ∷ rest))
list-cases [] = inl refl
list-cases (x ∷ rest) = inr (x, rest, refl)

-- `files` were in the queue at the start, and the other workers took `elsewhere` of them.
pub record Accounted (depth files elsewhere : ℕ) (w : Worker) : Type 0 where
  pub sound : Sound depth w.pipeline
  pub room : length w.pipeline.in_flight ≤ depth
  pub done : w.queue.done ≡ true
  pub counted :
      w.pipeline.stats.files_completed
        + w.pipeline.stats.files_failed
        + length w.pipeline.in_flight
        + length w.queue.queue
        + elsewhere
      ≡ files
  pub exhausted : (w.queue_exhausted ≡ false) ⊎ (w.queue.queue ≡ [])
  pub at : At w.point w

pub length-zero : {A : Type 0} (xs : List A) → length xs ≡ 0 → xs ≡ []
length-zero [] h = refl
length-zero (x ∷ xs) h = absurd (omega arith)

-- What is in the queue does not matter to the thread's point.
still :
    (p : Point) (w : Worker) (q : WorkQueue FileWorkItem) → At p w → At p (record w { queue = q })
still looping w q h = h
still filling w q h = h
still asking w q h = h
still checking w q h = h
still waiting w q h = h
still processing w q h = h
still finished w q h = h

abbrev files_in : Pipeline → ℕ
files_in l = l.stats.files_completed + l.stats.files_failed + length l.in_flight

-- A completion neither loses a file nor brings one in.
balanced :
    (l after : Pipeline) (files : ℕ)
    → Counted l after
    → files_in l ≤ files
    → files < word
    → (files_in after ≡ files_in l) × (length after.in_flight ≤ length l.in_flight)
balanced l after files (none_over n a b) h s = (omega (arith, n, a, b), omega (arith, n))
balanced l after files (completed n a b) h s = (omega (arith, n, a, b), omega (arith, n))
balanced l after files (failed n a b) h s = (omega (arith, n, a, b), omega (arith, n))

module _ (address : List ℕ → ℕ) (cfg : Config) (files elsewhere : ℕ) where
  abbrev pub Good : Worker → Type 0
  Good w = Accounted cfg.queue_depth files elsewhere w

  pub moves :
      (w : Worker) (p q : Point)
      → q ≡ p
      → At p (record w { point = p })
      → Good w
      → Good (record w { point = q })
  moves w p q e h g =
      subst (λ x. Good (record w { point = x })) (sym e)
        (record {
          sound = g.sound;
          room = g.room;
          done = g.done;
          counted = g.counted;
          exhausted = g.exhausted;
          at = h;
        })

  -- An item that was taken out and is started.
  pub starts :
      (w : Worker) (good bad : Point) (item : FileWorkItem) (rest : List FileWorkItem)
      → ((v : Worker) → At good v)
      → w.queue.queue ≡ item ∷ rest
      → length w.pipeline.in_flight < cfg.queue_depth
      → Good w
      → Good (
          with_item address cfg good bad
            (record w { queue = record w.queue { queue = rest } })
            item)
  unfolding with_item
  starts w good bad item rest free q h g =
      let (l, up, sound, len, stats) =
        take_up-Sound address cfg cfg.queue_depth w.pipeline item g.sound h in
      rw (up, with_item)
        (record {
          sound = sound;
          room = omega arith;
          done = g.done;
          counted = rw stats (omega (arith, len, ap length q, g.counted));
          exhausted = elim g.exhausted [ inl e ↦ inl e | inr e ↦ absurd (cons≢nil (sym q ∙ e)) ];
          at = free _;
        })

  -- The queue is empty, and stays so.
  pub finds_none :
      (w : Worker) (p : Point) (exhausted : Bool)
      → ((v : Worker) → At p v)
      → w.queue.queue ≡ []
      → Good w
      → Good (record w {
        point = p;
        queue = record w.queue { queue = [] };
        queue_exhausted = exhausted;
      })
  finds_none w p exhausted free q g = record {
    sound = g.sound;
    room = g.room;
    done = g.done;
    counted = omega (arith, ap length q, g.counted);
    exhausted = inr refl;
    at = free _;
  }

  -- The answers of the kernel.
  pub completes-Good :
      (w : Worker) (l : Pipeline)
      → files < word
      → Sound cfg.queue_depth l
      → Counted w.pipeline l
      → w.point ≡ processing
      → Good w
      → Good (record w { pipeline = l })
  completes-Good w l small s c p g =
      let (same, fewer) = balanced w.pipeline l files c (omega (arith, g.counted)) small in
      record {
        sound = s;
        room = omega (arith, fewer, g.room);
        done = g.done;
        counted = omega (arith, same, g.counted);
        exhausted = g.exhausted;
        at = subst (λ q. At q (record w { pipeline = l })) (sym p) tt;
      }

  -- The other workers only take items out.
  pub others-Good :
      (w : Worker) (cs : List (Call FileWorkItem))
      → pushed cs ≡ []
      → Good w
      → Accounted cfg.queue_depth files
          (elsewhere + length (run w.queue cs).0)
          (record w { queue = (run w.queue cs).1 })
  others-Good w cs h g =
      let (out, q) = run w.queue cs in
      let all : out ++ q.queue ≡ w.queue.queue =
        run-fifo w.queue cs ∙ ap (λ x. w.queue.queue ++ x) h ∙ append-nil w.queue.queue in
      let parts : length out + length q.queue ≡ length w.queue.queue =
        sym (length-append out q.queue) ∙ ap length all in
      record {
        sound = g.sound;
        room = g.room;
        done = run-done w.queue cs g.done;
        counted = omega (arith, parts, g.counted);
        exhausted = elim g.exhausted [
          | inl e ↦ inl e
          | inr e ↦ inr (length-zero q.queue (omega (arith, parts, ap length e)))
        ];
        at = still w.point w q g.at;
      }
