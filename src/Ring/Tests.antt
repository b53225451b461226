-- ===== src/Ring/Tests.antt =====
-- include/ring.hpp: a ring with one entry, and completions that have arrived.
use uring_sync.Base.{
  ℕ, ◌≡◌, refl, ap, List, [], ◌∷◌, ◌++◌, Bool, true, false, Option, none, some, arith, length,
}
use uring_sync.Base.Int.{ℤ, pos, negsuc}
use uring_sync.Ring.{Op, Entry, Uring, wait_and_process}
use uring_sync.Ring.Submission.{Orderly, prepares, submits, call_each, call_each-in_order}
use uring_sync.Ring.Completion.{Arrives, wait_and_process-all}

record One : Type 0 where
  waiting : List Entry
  gone : List Entry
  arrived : List (ℕ × ℤ)

abbrev is_free : List Entry → Bool
is_free [] = true
is_free (e ∷ es) = false

abbrev with_arrived : One → List (ℕ × ℤ) → Option ((ℕ × ℤ) × One)
with_arrived s [] = none
with_arrived s (c ∷ cs) = some (c, record s { arrived = cs })

abbrev one : Uring
one = record {
  State = One;
  room = λ s. is_free s.waiting;
  add = λ e s. record s { waiting = s.waiting ++ e ∷ [] };
  submit = λ s. (pos (length s.waiting), record s { gone = s.gone ++ s.waiting; waiting = [] });
  wait = λ s. with_arrived s s.arrived;
  peek = λ s. with_arrived s s.arrived;
  queued = λ s. s.waiting;
  given = λ s. s.gone;
  ready = λ s. s.arrived;
}

one-Orderly : Orderly one
one-Orderly = record { adds = λ e s h. (refl, refl); submits = λ s. (refl, refl, refl) }

one-Arrives : Arrives one
one-Arrives = record {
  empty = λ s e. ap (with_arrived s) e;
  peeks = λ s c cs e. (record s { arrived = cs }, ap (with_arrived s) e, refl);
  waits = λ s c cs e. (record s { arrived = cs }, ap (with_arrived s) e, refl);
}

abbrev closing : ℕ → Entry
closing fd = record { op = Op.close (pos fd); user_data = fd; link = false }

abbrev empty_ring : One
empty_ring = record { waiting = []; gone = []; arrived = [] }

call_each-in_order_example :
    (t : One) × (call_each one
        (prepares (closing 3) ∷ prepares (closing 4) ∷ submits ∷ [])
        empty_ring
      ≡ some t)
    × (t.gone ++ t.waiting ≡ closing 3 ∷ closing 4 ∷ [])
call_each-in_order_example =
    call_each-in_order one one-Orderly (prepares (closing 3) ∷ prepares (closing 4) ∷ submits ∷ [])
      empty_ring

-- The callback notes its calls.
abbrev note : ℕ → ℤ → List (ℕ × ℤ) × One → List (ℕ × ℤ) × One
note ctx res (w, s) = (w ++ (ctx, res) ∷ [], s)

wait_and_process-all_example :
    (v : List (ℕ × ℤ)) × (t : One) × (wait_and_process one note 5
        ([], record empty_ring { arrived = (1, pos 0) ∷ (2, negsuc 4) ∷ [] })
      ≡ some (2, (v, t)))
    × (v ≡ (1, pos 0) ∷ (2, negsuc 4) ∷ [])
    × (t.arrived ≡ [])
wait_and_process-all_example =
    wait_and_process-all one one-Arrives note (λ w. w) (λ ctx res w s. (refl, refl)) (1, pos 0)
      ((2, negsuc 4) ∷ []) 5 [] (record empty_ring { arrived = (1, pos 0) ∷ (2, negsuc 4) ∷ [] })
      refl (omega arith)
