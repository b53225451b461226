-- ===== src/Net/AsyncReceiver/Loop.antt =====
-- src/net_uring.cpp, `AsyncReceiver::run`: the loop over all files.
pub mod Rounds
pub mod Arriving
pub mod Pieces
pub mod Storing
pub mod Requests
pub mod Confined
pub mod Faults
use uring_sync.Base.{
  ℕ, zero, suc, ◌+◌, ◌%◌, List, [], ◌∷◌, ◌++◌, Bool, true, false, Option, none, some, ◌==◌, ltb,
  ◌||◌, if◌then◌else◌, length, get_or, set, replicate,
}
use uring_sync.Base.Int.{ℤ, negsuc}
use uring_sync.Base.Maps.{erase}
use uring_sync.Paths.{join}
use uring_sync.Protocol.Codec.{
  MsgType, file_hdr, all_done, msg_header_size, max_path_len, parse_header,
}
use uring_sync.Protocol.Parsers.{FileHdrMsg, parse_file_hdr}
use uring_sync.Protocol.SafePath.{is_safe_path}
use uring_sync.Net.Socket.{Socket}
use uring_sync.Net.AsyncReceiver.{
  RecvState, RecvOp, RecvContext, Request, Receiver, recv_hdr, opening, done, failed, recv_exact,
  stored, advance_recv_state,
}

-- The kernel and the file system. They are not part of the program: what they do is an argument.
-- `parents` is `fs::create_directories` of the parent of a path, `none` where it throws. `wait` has the
-- requests that are on their way, each with the index of its context, and gives the completions that
-- arrived, or `none` where `io_uring_wait_cqe` fails.
pub record Kernel : Type 1 where
  pub State : Type 0
  pub parents : List ℕ → State → Option State
  pub wait : List (ℕ × Request) → State → Option (List (ℕ × ℤ)) × State

-- The variables of `run` and the members of the object. `current` is the index of its context: the
-- pointer is null only behind the loop, where it is not read any more.
pub record Run (k : Socket) (n : Kernel) : Type 0 where
  pub contexts : List RecvContext
  pub sock : k.State
  pub disk : n.State
  pub outstanding : List (ℕ × Request)
  pub current : ℕ
  pub ctx_idx : ℕ
  pub files_completed : ℕ
  pub closed : List ℤ

-- How `run` ends, with the file system: `complete` for true, with the number of files, and `refused`
-- for false; `thrown` where an exception leaves it; `overrun` where `recv` stored more bytes into
-- `meta_buf_` than it has; and `unfinished` where the rounds ran out.
pub data Ended {ℓ} (D : Type ℓ) : Type ℓ where
  complete : ℕ → D → Ended D
  refused thrown overrun unfinished : D → Ended D

-- What the next header leads to.
pub data Header {ℓ} (S : Type ℓ) : Type ℓ where
  last : S → Header S
  file : FileHdrMsg → S → Header S
  bad too_long : Header S

-- What the part of a round before the wait leads to.
pub data Begun (R E : Type 0) : Type 0 where
  going last : R → Begun R E
  stopped : E → Begun R E

-- The size of `meta_buf_`.
abbrev pub meta_size : ℕ
meta_size = 8 + 4 + 2 + max_path_len

abbrev pub fresh : ℕ → RecvContext
fresh chunk_size = record {
  state = recv_hdr;
  current_op = RecvOp.recv;
  path = [];
  fd = negsuc 0;
  file_size = 0;
  mode = 0;
  received = 0;
  buffer = [];
  buf_size = chunk_size;
  last_recv = 0;
}

abbrev pub is_hdr : RecvState → Bool
is_hdr recv_hdr = true
is_hdr _ = false

abbrev pub is_ended : RecvState → Bool
is_ended done = true
is_ended failed = true
is_ended _ = false

abbrev pub is_pending : RecvState → Bool
is_pending state = if is_ended state || is_hdr state then false else true

abbrev pub any_pending : List RecvContext → Bool
any_pending [] = false
any_pending (c ∷ cs) = is_pending c.state || any_pending cs

-- `room`: `io_uring_get_sqe` gives an entry of the ring when it has one free.
module _ (k : Socket) (room : Bool) where
  abbrev pub checked : Option FileHdrMsg → k.State → Header k.State
  checked none s = bad
  checked (some hdr) s = if is_safe_path hdr.path then file hdr s else bad

  abbrev pub with_payload : ℕ → Option (List ℕ × k.State) → Header k.State
  with_payload len none = bad
  with_payload len (some (payload, s)) = checked (parse_file_hdr payload len) s

  -- The payload is stored into `meta_buf_`, with no test that it fits: it runs over when more bytes
  -- arrive than the buffer has.
  abbrev pub by_type : MsgType → ℕ → k.State → Header k.State
  by_type all_done len s = last s
  by_type file_hdr len s =
      if ltb meta_size (length (stored k room len s).0)
      then too_long
      else with_payload len (recv_exact k room len s)
  by_type _ len s = bad

  abbrev parsed : MsgType × ℕ → k.State → Header k.State
  parsed (type, len) s = by_type type len s

  abbrev pub with_header : Option (List ℕ × k.State) → Header k.State
  with_header none = bad
  with_header (some (bytes, s)) = parsed (parse_header bytes) s

  unfoldable pub receive_header : k.State → Header k.State
  unfolding recv_exact stored
  receive_header s = with_header (recv_exact k room msg_header_size s)

  module _ (n : Kernel) (chunk_size : ℕ) (dst_path : List ℕ) where
    -- What `contexts_[i]` is read as out of range, which never happens.
    abbrev pub context_at : ℕ → Run k n → RecvContext
    context_at i r = get_or r.contexts i (fresh chunk_size)

    abbrev pub tagged : ℕ → List Request → List (ℕ × Request)
    tagged i [] = []
    tagged i (request ∷ requests) = (i, request) ∷ tagged i requests

    abbrev pub located : FileHdrMsg → RecvContext → RecvContext
    located hdr c = record c {
      path = join dst_path hdr.path;
      file_size = hdr.size;
      mode = hdr.mode;
      received = 0;
    }

    abbrev pub submit_open : ℕ → RecvContext → Run k n → Begun (Run k n) (Ended n.State)
    submit_open i c r =
        if room
        then going (record r {
          contexts = set r.contexts i (record c { state = opening; current_op = RecvOp.opened });
          outstanding = r.outstanding ++ (i, Request.openat c.path (c.mode % 512)) ∷ [];
        })
        else stopped (refused r.disk)

    abbrev pub with_parents :
        ℕ → RecvContext → Run k n → Option n.State → Begun (Run k n) (Ended n.State)
    with_parents i c r none = stopped (thrown r.disk)
    with_parents i c r (some d) = submit_open i c (record r { disk = d })

    abbrev pub on_header : ℕ → Run k n → Header k.State → Begun (Run k n) (Ended n.State)
    on_header i r bad = stopped (refused r.disk)
    on_header i r too_long = stopped (overrun r.disk)
    on_header i r (last s) = last (record r { sock = s })
    on_header i r (file hdr s) =
        let c = located hdr (context_at i r) in
        with_parents i c (record r { sock = s }) (n.parents c.path r.disk)

    -- A round up to `io_uring_submit`.
    unfoldable pub begin : Run k n → Begun (Run k n) (Ended n.State)
    unfolding receive_header
    begin r =
        if is_hdr (context_at r.current r).state
        then on_header r.current r (receive_header r.sock)
        else going r

    -- One call of `advance_recv_state` for context `i`.
    abbrev pub on_context : ℕ → ℤ → Run k n → Bool × Run k n
    on_context i result r =
        let m : Receiver k = record {
          ctx = context_at i r;
          sock = r.sock;
          prepared = [];
          closed = r.closed;
        } in
        let (ok, m') = advance_recv_state k room result m in
        (
          ok,
          record r {
            contexts = set r.contexts i m'.ctx;
            sock = m'.sock;
            outstanding = r.outstanding ++ tagged i m'.prepared;
            closed = m'.closed;
          },
        )

    abbrev pub fail_context : ℕ → Bool × Run k n → Run k n
    fail_context i (true, r) = r
    fail_context i (false, r) = record r {
      contexts = set r.contexts i (record (context_at i r) { state = failed });
    }

    abbrev pub recycle : Run k n → Run k n
    recycle r =
        let next = (r.ctx_idx + 1) % length r.contexts in
        record r {
          contexts =
              set r.contexts next (record (context_at next r) { state = recv_hdr; fd = negsuc 0 });
          current = next;
          ctx_idx = next;
        }

    abbrev pub settled : ℕ → Run k n → Run k n
    settled i r =
        let q = record r { files_completed = r.files_completed + 1 } in
        if is_ended (context_at i r).state then (if i == r.current then recycle q else q) else r

    -- The body of `io_uring_for_each_cqe`.
    unfoldable pub process : ℕ × ℤ → Run k n → Run k n
    process (i, result) r =
        settled i
          (fail_context i (on_context i result (record r { outstanding = erase i r.outstanding })))

    unfoldable pub process_all : List (ℕ × ℤ) → Run k n → Run k n
    unfolding process
    process_all [] r = r
    process_all (c ∷ cs) r = process_all cs (process c r)

    -- The same in the loop behind ALL_DONE, where the result of `advance_recv_state` is not looked at.
    abbrev pub counted : ℕ → Run k n → Run k n
    counted i r =
        if is_ended (context_at i r).state
        then record r { files_completed = r.files_completed + 1 }
        else r

    unfoldable pub process_late : List (ℕ × ℤ) → Run k n → Run k n
    process_late [] r = r
    process_late ((i, result) ∷ cs) r =
        process_late cs
          (counted i (on_context i result (record r { outstanding = erase i r.outstanding })).1)

    unfoldable pub drain : ℕ → Run k n → Ended n.State
    drain zero r = unfinished r.disk
    drain (suc rounds) r = elim (any_pending r.contexts) [
      | false ↦ complete r.files_completed r.disk
      | true ↦
          let (arrived, d) = n.wait r.outstanding r.disk in
          elim arrived [
            | none ↦ complete r.files_completed d
            | some cs ↦ drain rounds (process_late cs (record r { disk = d }))
          ]
    ]

    -- `while (!done)`, and the loop behind it.
    unfoldable pub run_from : ℕ → Run k n → Ended n.State
    run_from zero r = unfinished r.disk
    run_from (suc rounds) r = elim (begin r) [
      | stopped e ↦ e
      | last r' ↦ drain (suc rounds) r'
      | going r' ↦
          let (arrived, d) = n.wait r'.outstanding r'.disk in
          elim arrived [
            | none ↦ refused d
            | some cs ↦ run_from rounds (process_all cs (record r' { disk = d }))
          ]
    ]

    -- The constructor, and `run` up to its loop.
    unfoldable pub started : ℕ → k.State → n.State → Run k n
    started queue_depth s d = record {
      contexts = replicate queue_depth (fresh chunk_size);
      sock = s;
      disk = d;
      outstanding = [];
      current = 0;
      ctx_idx = 0;
      files_completed = 0;
      closed = [];
    }
