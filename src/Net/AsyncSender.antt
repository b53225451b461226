-- ===== src/Net/AsyncSender.antt =====
-- src/net_uring.cpp, `AsyncSender`: the steps of one file that is sent.
pub mod Sends
pub mod Loop
use uring_sync.Base.{
  ℕ, ◌+◌, ◌%◌, min, List, [], ◌∷◌, ◌++◌, Bool, true, false, leb, ◌==◌, if◌then◌else◌, take,
}
use uring_sync.Base.Int.{ℤ, pos, negsuc}
use uring_sync.Protocol.Messages.{make_file_hdr}
use uring_sync.FileCopy.Types.{Statx, add64, sub64}
use uring_sync.FileCopy.Advance.{close_if_open}
use uring_sync.Net.Socket.{Socket}

pub data SendState : Type 0 where
  pending opening stating ready reading closing done failed : SendState

pub data SendOp : Type 0 where
  open_file statx read send close : SendOp

-- The buffer is the list of the bytes that the kernel read into it last.
pub record SendContext : Type 0 where
  pub src_path : List ℕ
  pub rel_path : List ℕ
  pub state : SendState
  pub current_op : SendOp
  pub fd : ℤ
  pub stx : Statx
  pub file_size : ℕ
  pub offset : ℕ
  pub buffer : List ℕ
  pub buf_size : ℕ
  pub buffer_idx : ℕ
  pub last_read : ℕ

-- A request with its arguments: for an open the path, for a read the descriptor, the length and the offset.
pub data SendRequest : Type 0 where
  open_file : List ℕ → SendRequest
  statx : ℤ → SendRequest
  read : ℤ → ℕ → ℕ → SendRequest
  close : ℤ → SendRequest

-- The context, the socket, the requests prepared so far, and the descriptors closed directly.
pub record AsyncSender (k : Socket) : Type 0 where
  pub ctx : SendContext
  pub sock : k.State
  pub prepared : List SendRequest
  pub closed : List ℤ

-- `io_uring_get_sqe` gives an entry of the ring when it has one free: `room`.
module _ (k : Socket) (room : Bool) where
  abbrev submit : AsyncSender k → SendState → SendOp → SendRequest → Bool × AsyncSender k
  submit m state op request =
      if room
      then (
        true,
        record m {
          ctx = record m.ctx { state = state; current_op = op };
          prepared = m.prepared ++ request ∷ [];
        },
      )
      else (false, m)

  -- The `switch` of `advance_open_state`, for a result that is not negative.
  unfoldable pub switch_open : SendState → ℕ → AsyncSender k → Bool × AsyncSender k
  switch_open opening result m =
      submit (record m { ctx = record m.ctx { fd = pos result } }) stating SendOp.statx
        (SendRequest.statx (pos result))
  switch_open stating result m =
      (true, record m { ctx = record m.ctx { file_size = m.ctx.stx.size; state = ready } })
  switch_open closing result m =
      (true, record m { ctx = record m.ctx { fd = negsuc 0; state = done } })
  switch_open _ result m = (false, m)

  unfoldable pub advance_open_state : ℤ → AsyncSender k → Bool × AsyncSender k
  unfolding switch_open
  advance_open_state (negsuc e) m =
      (false, record m { closed = m.closed ++ close_if_open m.ctx.fd })
  advance_open_state (pos r) m = switch_open m.ctx.state r m

  abbrev submit_close : AsyncSender k → Bool × AsyncSender k
  submit_close m = submit m closing SendOp.close (SendRequest.close m.ctx.fd)

  abbrev submit_read : AsyncSender k → SendState → Bool × AsyncSender k
  submit_read m state = submit m state SendOp.read (
      SendRequest.read m.ctx.fd (min (sub64 m.ctx.file_size m.ctx.offset) m.ctx.buf_size)
        m.ctx.offset)

  abbrev header_sent : ℤ → AsyncSender k → Bool × AsyncSender k
  header_sent (negsuc e) m = (false, m)
  header_sent (pos n) m = if m.ctx.file_size == 0 then submit_close m else submit_read m reading

  -- After the test that the state is READY; the result of `send` is only tested for an error. The
  -- flag MSG_MORE is left out here and below.
  unfoldable pub start_ready : SendState → AsyncSender k → Bool × AsyncSender k
  start_ready ready m =
      let (n, s) =
        k.send (make_file_hdr m.ctx.file_size (m.ctx.stx.mode % 512) m.ctx.rel_path) m.sock in
      header_sent n (record m { sock = s })
  start_ready _ m = (false, m)

  unfoldable pub start_sending_file : AsyncSender k → Bool × AsyncSender k
  unfolding start_ready
  start_sending_file m = start_ready m.ctx.state m

  -- While the file is read on, the state stays as it is.
  abbrev data_sent : ℤ → ℕ → AsyncSender k → Bool × AsyncSender k
  data_sent (negsuc e) result m = (false, m)
  data_sent (pos n) result m =
      let moved = record m { ctx = record m.ctx { offset = add64 m.ctx.offset result } } in
      if leb moved.ctx.file_size moved.ctx.offset
      then submit_close moved
      else submit_read moved m.ctx.state

  unfoldable pub continue_sending_file : ℤ → AsyncSender k → Bool × AsyncSender k
  continue_sending_file (negsuc e) m = (false, m)
  continue_sending_file (pos result) m =
      let (n, s) = k.send (take result m.ctx.buffer) m.sock in
      data_sent n result (record m { sock = s })
