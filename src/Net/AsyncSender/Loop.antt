-- ===== src/Net/AsyncSender/Loop.antt =====
-- src/net_uring.cpp, `AsyncSender::run`: the loop over all files.
pub mod Deadlock
mod Tests
use uring_sync.Base.{
  ℕ, zero, suc, ◌+◌, ◌-◌, ◌≡◌, ◌≢◌, ◌<◌, List, [], ◌∷◌, ◌++◌, map, Bool, true, false, ◌&&◌, not,
  ◌==◌, ltb, if◌then◌else◌, length, get_or, set,
}
use uring_sync.Base.Int.{ℤ, pos, negsuc}
use uring_sync.FileCopy.Types.{Statx}
use uring_sync.Net.Socket.{Socket}
use uring_sync.Net.AsyncSender.{
  SendState, SendOp, SendContext, SendRequest, AsyncSender, pending, opening, ready, done, failed,
  advance_open_state, start_sending_file, continue_sending_file,
}

-- The variables of `run` and the members of the object. The head of `free_buffers` is the back of the
-- vector; `outstanding` are the requests that the kernel was given or will be given by the next
-- submit, each with the index of its file.
pub record Run (k : Socket) : Type 0 where
  pub files : List SendContext
  pub sock : k.State
  pub outstanding : List (ℕ × SendRequest)
  pub free_buffers : List ℕ
  pub next_to_open : ℕ
  pub next_to_send : ℕ
  pub in_flight : ℕ
  pub completed : ℕ
  pub sending_active : Bool
  pub closed : List ℤ

-- A completion: the file, the result, and what the kernel stored into the buffer or into `stx`.
pub record Completion : Type 0 where
  pub index : ℕ
  pub result : ℤ
  pub stored : List ℕ
  pub stx : Statx

-- What `files_[i]` is read as out of range, which never happens.
abbrev pub no_file : SendContext
no_file = record {
  src_path = [];
  rel_path = [];
  state = pending;
  current_op = SendOp.open_file;
  fd = negsuc 0;
  stx = record { size = 0; mode = 0 };
  file_size = 0;
  offset = 0;
  buffer = [];
  buf_size = 0;
  buffer_idx = 0;
  last_read = 0;
}

abbrev pub is_ready : SendState → Bool
is_ready ready = true
is_ready _ = false

abbrev pub is_ended : SendState → Bool
is_ended done = true
is_ended failed = true
is_ended _ = false

abbrev pub is_read : SendOp → Bool
is_read SendOp.read = true
is_read _ = false

-- `cfg.chunk_size`, and whether `io_uring_get_sqe` gives an entry.
module _ (k : Socket) (chunk_size : ℕ) (room : Bool) where
  abbrev pub file_at : ℕ → Run k → SendContext
  file_at i r = get_or r.files i no_file

  -- The requests of file `i`.
  abbrev tagged : ℕ → List SendRequest → List (ℕ × SendRequest)
  tagged i [] = []
  tagged i (request ∷ requests) = (i, request) ∷ tagged i requests

  -- One step of file `i`.
  abbrev pub on_file : ℕ → (AsyncSender k → Bool × AsyncSender k) → Run k → Bool × Run k
  on_file i step r =
      let m : AsyncSender k = record {
        ctx = file_at i r;
        sock = r.sock;
        prepared = [];
        closed = r.closed;
      } in
      let (ok, n) = step m in
      (
        ok,
        record r {
          files = set r.files i n.ctx;
          sock = n.sock;
          outstanding = r.outstanding ++ tagged i n.prepared;
          closed = n.closed;
        },
      )

  abbrev opened : ℕ → ℕ → SendContext → SendContext
  opened buf_idx chunk c = record c { buffer = []; buf_size = chunk; buffer_idx = buf_idx }

  -- `while (!free_buffers_.empty() && next_to_open < files_.size())`; each round takes a free buffer.
  -- Where the ring has no entry the buffer is taken all the same.
  open_each : List ℕ → Run k → Run k
  open_each [] r = r
  open_each (buf_idx ∷ free) r =
      let i = r.next_to_open in
      let c = opened buf_idx chunk_size (file_at i r) in
      let taken = record r { files = set r.files i c; free_buffers = free } in
      let started = record taken {
        files = set r.files i (record c { state = opening; current_op = SendOp.open_file });
        outstanding = r.outstanding ++ (i, SendRequest.open_file c.src_path) ∷ [];
        next_to_open = i + 1;
        in_flight = r.in_flight + 1;
      } in
      let more = open_each free started in
      if ltb i (length r.files) then (if room then more else taken) else r

  unfoldable pub open_files : Run k → Run k
  unfolding open_each
  open_files r = open_each r.free_buffers r

  abbrev pub fail_file : ℕ → Run k → Run k
  fail_file i r = record r { files = set r.files i (record (file_at i r) { state = failed }) }

  abbrev started_next : ℕ → Bool × Run k → Run k
  started_next i (true, r) = record r { sending_active = true }
  started_next i (false, r) =
      let q = fail_file i r in
      record q {
        free_buffers = (file_at i q).buffer_idx ∷ q.free_buffers;
        completed = q.completed + 1;
        in_flight = q.in_flight - 1;
        next_to_send = q.next_to_send + 1;
      }

  unfoldable pub start_next : Run k → Run k
  unfolding start_sending_file
  start_next r =
      let i = r.next_to_send in
      if not r.sending_active && (ltb i (length r.files) && is_ready (file_at i r).state)
      then started_next i (on_file i (start_sending_file k room) r)
      else r

  -- A round up to the wait.
  unfoldable pub prepare_round : Run k → Run k
  unfolding open_files start_next
  prepare_round r = start_next (open_files r)

  abbrev pub take_out : ℕ → List (ℕ × SendRequest) → List (ℕ × SendRequest)
  take_out i [] = []
  take_out i ((j, request) ∷ rest) = if j == i then rest else (j, request) ∷ take_out i rest

  abbrev checked : ℕ → Bool × Run k → Run k
  checked i (true, r) = r
  checked i (false, r) = fail_file i r

  abbrev pub settled : ℕ → Run k → Run k
  settled i r =
      let q = record r {
        completed = r.completed + 1;
        in_flight = r.in_flight - 1;
        free_buffers = (file_at i r).buffer_idx ∷ r.free_buffers;
      } in
      if is_ended (file_at i r).state
      then (if i == r.next_to_send
          then record q { sending_active = false; next_to_send = r.next_to_send + 1 }
          else q)
      else r

  abbrev stored_in : SendOp → Completion → SendContext → SendContext
  stored_in SendOp.read c ctx = record ctx { buffer = c.stored }
  stored_in SendOp.statx c ctx = record ctx { stx = c.stx }
  stored_in _ c ctx = ctx

  -- The body of `io_uring_for_each_cqe`.
  unfoldable pub process : Completion → Run k → Run k
  unfolding continue_sending_file advance_open_state
  process c r =
      let i = c.index in
      let op = (file_at i r).current_op in
      let filled = record r {
        files = set r.files i (stored_in op c (file_at i r));
        outstanding = take_out i r.outstanding;
      } in
      let step =
        (if is_read op
          then continue_sending_file k room c.result
          else advance_open_state k room c.result) in
      settled i (checked i (on_file i step filled))

  unfoldable pub process_all : List Completion → Run k → Run k
  unfolding process
  process_all [] r = r
  process_all (c ∷ cs) r = process_all cs (process c r)
