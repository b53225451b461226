-- ===== src/Net/Tests/Async.antt =====
-- src/net_uring.cpp: the asynchronous receiver and sender over the same wire.
use uring_sync.Base.{◌≡◌, refl, [], ◌∷◌, true, arith}
use uring_sync.Base.Int.{pos}
use uring_sync.Net.Tests.{wire, wire-Delivers, quiet, bytes}
use uring_sync.Net.AsyncReceiver.{RecvState, RecvOp, Receiver, advance_recv_state}
use uring_sync.Net.AsyncReceiver.Progress.{GoesOn, writing-GoesOn}
use uring_sync.Net.AsyncSender.{SendState, SendOp, AsyncSender}

-- A file of three bytes, of which two are being written.
abbrev receiving : Receiver wire
receiving = record {
  ctx = record {
    state = RecvState.writing;
    current_op = RecvOp.write;
    path = 97 ∷ [];
    fd = pos 5;
    file_size = 3;
    mode = 0o644;
    received = 0;
    buffer = 8 ∷ 9 ∷ [];
    buf_size = 2;
    last_recv = 2;
  };
  sock = quiet;
  prepared = [];
  closed = [];
}

writing-GoesOn_example :
    let n = advance_recv_state wire true (pos 2) receiving in
    (n.0 ≡ true) × GoesOn wire receiving (pos 5) 2 n.1
writing-GoesOn_example =
    writing-GoesOn wire wire-Delivers receiving 2 refl (omega arith) (omega arith) (omega arith)

abbrev just_opened : Receiver wire
just_opened = record receiving {
  ctx = record receiving.ctx { state = RecvState.opening; last_recv = 0 };
}

-- Three bytes were read; the wire takes two of them.
abbrev sending : AsyncSender wire
sending = record {
  ctx = record {
    src_path = 97 ∷ [];
    rel_path = 97 ∷ [];
    state = SendState.reading;
    current_op = SendOp.read;
    fd = pos 5;
    stx = record { size = 3; mode = 0o644 };
    file_size = 3;
    offset = 0;
    buffer = bytes;
    buf_size = 4;
    buffer_idx = 0;
    last_read = 0;
  };
  sock = quiet;
  prepared = [];
  closed = [];
}
