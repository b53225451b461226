-- ===== src/Net/AsyncReceiver/Progress.antt =====
-- src/net_uring.cpp, `AsyncReceiver::advance_recv_state`: the data goes on, piece by piece.
use uring_sync.Base.{
  ℕ, ◌+◌, ◌-◌, ◌<◌, ◌≤◌, ◌≡◌, refl, min, [], ◌∷◌, ◌++◌, true, arith, length, take, drop, ◌⊎◌, inl,
  inr, Bool-cases, leb, leb→le, ◌==◌,
}
use uring_sync.Base.Int.{ℤ, pos}
use uring_sync.FileCopy.Types.{add64, sub64, word}
use uring_sync.Net.Socket.{Socket, Delivers, recv_all-receives}
use uring_sync.Net.AsyncReceiver.{
  Request, Receiver, opening, writing, closing, recv_exact, submit_close, receive_more, switch_recv,
  advance_recv_state,
}

module _ (k : Socket) where
  -- `n` follows `m`, where `done` bytes of the file are written and `fd` is its descriptor: with all
  -- bytes written the descriptor is being closed; and else the next piece of the stream, at most a
  -- buffer and at most the rest of the file, is being written at its offset, and is gone from the
  -- stream.
  abbrev pub GoesOn : Receiver k → ℤ → ℕ → Receiver k → Type 0
  GoesOn m fd written n =
      ((m.ctx.file_size ≤ written)
        × (n.ctx.state ≡ closing)
        × (n.prepared ≡ m.prepared ++ Request.close fd ∷ [])
        × (k.pending n.sock ≡ k.pending m.sock))
      ⊎ (let len = min (m.ctx.file_size - written) m.ctx.buf_size in
          (written < m.ctx.file_size)
          × (n.ctx.state ≡ writing)
          × (n.ctx.received ≡ written)
          × (n.ctx.last_recv ≡ len)
          × (n.prepared
              ≡ m.prepared ++ Request.write fd (take len (k.pending m.sock)) len written ∷ [])
          × (k.pending n.sock ≡ drop len (k.pending m.sock)))

module _ (k : Socket) (d : Delivers k) where
  receive_more-GoesOn :
      (m : Receiver k)
      → m.ctx.received < m.ctx.file_size
      → m.ctx.file_size < word
      → m.ctx.file_size - m.ctx.received ≤ length (k.pending m.sock)
      → ((receive_more k true m).0 ≡ true)
        × GoesOn k m m.ctx.fd m.ctx.received (receive_more k true m).1
  unfolding receive_more recv_exact
  receive_more-GoesOn m more w have =
      let same : sub64 m.ctx.file_size m.ctx.received ≡ m.ctx.file_size - m.ctx.received =
        omega arith in
      let len = min (m.ctx.file_size - m.ctx.received) m.ctx.buf_size in
      let (t, got, left, _) = recv_all-receives k d len m.sock (omega arith) in
      rw (same, got) (refl, inr (more, refl, refl, refl, refl, left))

  -- In OPENING, with a size below 2 ^ 64, nothing received yet, room in the ring, a peer that has the file to give, and the descriptor as the
  -- result: the call returns true, and an empty file is closed, and any other goes on with its first
  -- piece.
  pub opening-GoesOn :
      (m : Receiver k) (r : ℕ)
      → m.ctx.state ≡ opening
      → m.ctx.received ≡ 0
      → m.ctx.file_size < word
      → m.ctx.file_size ≤ length (k.pending m.sock)
      → let n = advance_recv_state k true (pos r) m in
        (n.0 ≡ true) × GoesOn k m (pos r) m.ctx.received n.1
  unfolding advance_recv_state switch_recv submit_close
  opening-GoesOn m r e z w have = elim (Bool-cases (m.ctx.file_size == 0)) [
    | inl f ↦ rw (e, f) (refl, inl (ground arith, refl, refl, refl))
    | inr f ↦
        rw (e, f)
          (receive_more-GoesOn (record m { ctx = record m.ctx { state = opening; fd = pos r } })
            (ground arith) w (omega arith))
  ]

  -- In WRITING, with a size below 2 ^ 64, a last piece inside it, room in the ring and a peer that has the rest of the file to give, whatever the
  -- result is that is not negative: the call returns true, the last piece counts as written, and the
  -- file is closed when all its bytes are written, and else goes on with the next piece.
  pub writing-GoesOn :
      (m : Receiver k) (r : ℕ)
      → m.ctx.state ≡ writing
      → m.ctx.received + m.ctx.last_recv ≤ m.ctx.file_size
      → m.ctx.file_size < word
      → m.ctx.file_size - (m.ctx.received + m.ctx.last_recv) ≤ length (k.pending m.sock)
      → let n = advance_recv_state k true (pos r) m in
        (n.0 ≡ true) × GoesOn k m m.ctx.fd (m.ctx.received + m.ctx.last_recv) n.1
  unfolding advance_recv_state switch_recv submit_close
  writing-GoesOn m r e fits w have =
      let written = m.ctx.received + m.ctx.last_recv in
      let whole : add64 m.ctx.received m.ctx.last_recv ≡ written = omega arith in
      elim (Bool-cases (leb m.ctx.file_size written)) [
        | inl f ↦ rw (e, whole, f) (refl, inl (leb→le m.ctx.file_size written f, refl, refl, refl))
        | inr f ↦
            rw (e, whole, f)
              (receive_more-GoesOn
                (record m { ctx = record m.ctx { state = writing; received = written } })
                (ground arith) w have)
      ]
