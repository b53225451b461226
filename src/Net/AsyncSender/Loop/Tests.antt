-- ===== src/Net/AsyncSender/Loop/Tests.antt =====
-- src/net_uring.cpp, `AsyncSender::run`: three files, of which the second cannot be opened.
use uring_sync.Base.{ℕ, ◌≡◌, refl, List, [], ◌∷◌, ◌++◌, true, false, inr, length, arith}
use uring_sync.Base.Int.{pos, negsuc}
use uring_sync.Net.Socket.{Socket}
use uring_sync.Net.AsyncSender.{SendContext}
use uring_sync.Net.AsyncSender.Loop.{Run, Completion, no_file, prepare_round, process_all}
use uring_sync.Net.AsyncSender.Loop.Deadlock.{Stuck}

-- A socket that takes all bytes; the state is what went out.
abbrev sink : Socket
sink = record {
  State = List ℕ;
  send = λ buf s. (pos (length buf), s ++ buf);
  recv = λ len s. (pos 0, [], s);
  sent = λ s. s;
  pending = λ s. [];
}

abbrev named : ℕ → SendContext
named name = record no_file { src_path = name ∷ []; rel_path = name ∷ [] }

-- Two buffers.
abbrev new : Run sink
new = record {
  files = named 97 ∷ named 98 ∷ named 99 ∷ [];
  sock = [];
  outstanding = [];
  free_buffers = 1 ∷ 0 ∷ [];
  next_to_open = 0;
  next_to_send = 0;
  in_flight = 0;
  completed = 0;
  sending_active = false;
  closed = [];
}

abbrev goes : ℕ → Completion
goes i = record { index = i; result = pos 5; stored = []; stx = record { size = 0; mode = 0o644 } }

abbrev fails : ℕ → Completion
fails i = record {
  index = i;
  result = negsuc 1;
  stored = [];
  stx = record { size = 0; mode = 0o644 };
}

abbrev round : List Completion → Run sink → Run sink
round cs r = process_all sink 4096 true cs (prepare_round sink 4096 true r)

-- The first file, which is empty, is opened and statted and closed; the second fails to open meanwhile;
-- then the third is opened and statted.
abbrev reached : Run sink
reached = round (goes 2 ∷ []) (
    round (goes 2 ∷ [])
      (round (goes 0 ∷ []) (round (goes 0 ∷ []) (round (goes 0 ∷ fails 1 ∷ []) new))))

third_is_ready : (reached.completed ≡ 2) × (reached.in_flight ≡ 1) × (reached.next_to_send ≡ 1)
unfolding process_all prepare_round
third_is_ready = (refl, refl, refl)

reached-Stuck : Stuck sink 4096 true reached
unfolding process_all prepare_round
reached-Stuck = record {
  turn_failed = refl;
  idle = refl;
  quiet = refl;
  waiting = omega arith;
  left = omega arith;
  none_to_open = inr (omega arith);
}
