-- ===== src/Net/AsyncReceiver.antt =====
-- src/net_uring.cpp, `AsyncReceiver::advance_recv_state`: one completion of the file that is received.
pub mod Progress
pub mod Loop
use mathlib.Core.Option.{some-injective, none-ne-some}
use uring_sync.Base.{
  ◌⊎◌, inl, inr, Bool-cases, refl, sym, ◌∙◌, ℕ, zero, suc, ltb, ◌≡◌, ◌+◌, ◌-◌, ◌%◌, ◌^◌, min, List,
  [], ◌∷◌, ◌++◌, Bool, true, false, Option, none, some, leb, ◌==◌, if◌then◌else◌,
}
use uring_sync.Base.Int.{ℤ, pos, negsuc}
use uring_sync.FileCopy.Types.{add64, sub64}
use uring_sync.FileCopy.Advance.{close_if_open}
use uring_sync.Net.Socket.{Socket, recv_from, recv_all}

pub data RecvState : Type 0 where
  recv_hdr recv_meta opening receiving writing closing done failed : RecvState

pub data RecvOp : Type 0 where
  recv opened write close : RecvOp

-- The buffer is the list of the bytes that it was filled with last.
pub record RecvContext : Type 0 where
  pub state : RecvState
  pub current_op : RecvOp
  pub path : List ℕ
  pub fd : ℤ
  pub file_size : ℕ
  pub mode : ℕ
  pub received : ℕ
  pub buffer : List ℕ
  pub buf_size : ℕ
  pub last_recv : ℕ

-- A request with its arguments: for an open the path and the mode, for a write the descriptor, the
-- bytes, their number and the offset.
pub data Request : Type 0 where
  openat : List ℕ → ℕ → Request
  write : ℤ → List ℕ → ℕ → ℕ → Request
  close : ℤ → Request

-- The context, the socket, the requests prepared so far, and the descriptors closed directly.
pub record Receiver (k : Socket) : Type 0 where
  pub ctx : RecvContext
  pub sock : k.State
  pub prepared : List Request
  pub closed : List ℤ

abbrev pub is_done : RecvState → Bool
is_done done = true
is_done _ = false

-- `io_uring_get_sqe` gives an entry of the ring when it has one free: `room`.
module _ (k : Socket) (room : Bool) where
  -- The loop of `recv_exact` is that of `recv_all` in src/net.cpp.
  unfoldable pub recv_exact : ℕ → k.State → Option (List ℕ × k.State)
  unfolding recv_all
  recv_exact len s = recv_all k len s

  -- The same loop for what it leaves, also where it fails: the bytes that it stored, and the socket.
  stored_from : ℕ → ℕ → List ℕ → ℕ → k.State → List ℕ × k.State
  stored_from zero len buf received s = (buf, s)
  stored_from (suc rounds) len buf received s = elim (ltb received len) [
    | false ↦ (buf, s)
    | true ↦
        let (n, bytes, s') = k.recv (len - received) s in
        elim n [
          | pos zero ↦ (buf, s')
          | pos (suc m) ↦ stored_from rounds len (buf ++ bytes) (received + suc m) s'
          | negsuc e ↦ (buf, s')
        ]
  ]

  unfoldable pub stored : ℕ → k.State → List ℕ × k.State
  unfolding stored_from
  stored len s = stored_from len len [] 0 s

  moves : (z : ℤ) → ((m : ℕ) × (z ≡ pos (suc m))) ⊎ ((z ≡ pos 0) ⊎ ((e : ℕ) × (z ≡ negsuc e)))
  moves (pos zero) = inr (inl refl)
  moves (pos (suc m)) = inl (m, refl)
  moves (negsuc e) = inr (inr (e, refl))

  stored_from-recv_from :
      (rounds len : ℕ) (buf : List ℕ) (received : ℕ) (s : k.State)
      → (recv_from k rounds len buf received s ≡ none)
        ⊎ (recv_from k rounds len buf received s ≡ some (stored_from rounds len buf received s))
  unfolding stored_from recv_from
  stored_from-recv_from zero len buf received s = elim (Bool-cases (ltb received len)) [
    | inl e ↦ inl (rw e refl)
    | inr e ↦ inr (rw e refl)
  ]
  stored_from-recv_from (suc rounds) len buf received s = elim (Bool-cases (ltb received len)) [
    | inr e ↦ inr (rw (e, recv_from, stored_from) refl)
    | inl e ↦
        let r = k.recv (len - received) s in
        elim (moves r.0) [
          | inr (inl z) ↦ inl (rw (e, recv_from) (rw (z, recv_from) refl))
          | inr (inr (x, z)) ↦ inl (rw (e, recv_from) (rw (z, recv_from) refl))
          | inl (m, z) ↦
              elim (stored_from-recv_from rounds len (buf ++ r.1) (received + suc m) r.2) [
                | inl h ↦ inl (rw (e, recv_from) (rw (z, recv_from) h))
                | inr h ↦ inr (rw (e, recv_from, stored_from) (rw (z, recv_from, stored_from) h))
              ]
        ]
  ]

  -- Where `recv_exact` succeeds, that is what it gives.
  pub stored-recv_all :
      (len : ℕ) (s : k.State) (r : List ℕ × k.State) → recv_all k len s ≡ some r → stored len s ≡ r
  unfolding stored recv_all
  stored-recv_all len s r h = elim (stored_from-recv_from len len [] 0 s) [
    | inl e ↦ absurd (none-ne-some r (sym e ∙ h))
    | inr e ↦ some-injective (stored_from len len [] 0 s) r (sym e ∙ h)
  ]

  unfoldable pub submit_close : Receiver k → Bool × Receiver k
  submit_close m =
      if room
      then (
        true,
        record m {
          ctx = record m.ctx { state = closing; current_op = RecvOp.close };
          prepared = m.prepared ++ Request.close m.ctx.fd ∷ [];
        },
      )
      else (false, m)

  -- With the data in the buffer; in WRITING the state stays as it is.
  abbrev pub submit_write : Receiver k → ℕ → List ℕ → k.State → Bool × Receiver k
  submit_write m to_recv bytes s =
      let filled = record m {
        ctx = record m.ctx { buffer = bytes; last_recv = to_recv };
        sock = s;
      } in
      if room
      then (
        true,
        record filled {
          ctx = record filled.ctx { state = writing; current_op = RecvOp.write };
          prepared = m.prepared ++ Request.write m.ctx.fd bytes to_recv m.ctx.received ∷ [];
        },
      )
      else (false, filled)

  -- What arrived before a failure is in the buffer, and gone from the connection.
  abbrev pub with_data : Receiver k → ℕ → Option (List ℕ × k.State) → Bool × Receiver k
  with_data m to_recv none = (
    false,
    record m {
      ctx = record m.ctx { buffer = (stored to_recv m.sock).0 };
      sock = (stored to_recv m.sock).1;
    },
  )
  with_data m to_recv (some (bytes, s)) = submit_write m to_recv bytes s

  unfoldable pub receive_more : Receiver k → Bool × Receiver k
  unfolding recv_exact stored
  receive_more m =
      let to_recv = min (sub64 m.ctx.file_size m.ctx.received) m.ctx.buf_size in
      with_data m to_recv (recv_exact to_recv m.sock)

  -- The `switch`, for a result that is not negative.
  unfoldable pub switch_recv : RecvState → ℕ → Receiver k → Bool × Receiver k
  unfolding submit_close receive_more
  switch_recv opening result m =
      let n = record m { ctx = record m.ctx { fd = pos result } } in
      if n.ctx.file_size == 0 then submit_close n else receive_more n
  switch_recv writing result m =
      let n = record m { ctx = record m.ctx { received = add64 m.ctx.received m.ctx.last_recv } } in
      if leb n.ctx.file_size n.ctx.received then submit_close n else receive_more n
  switch_recv closing result m =
      (true, record m { ctx = record m.ctx { fd = negsuc 0; state = done } })
  switch_recv _ result m = (false, m)

  -- On the result false the caller makes the state FAILED.
  unfoldable pub advance_recv_state : ℤ → Receiver k → Bool × Receiver k
  unfolding switch_recv
  advance_recv_state (negsuc e) m =
      if is_done m.ctx.state
      then switch_recv done 0 m
      else (false, record m { closed = m.closed ++ close_if_open m.ctx.fd })
  advance_recv_state (pos r) m = switch_recv m.ctx.state r m
