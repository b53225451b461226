-- ===== src/Net/Transfer.antt =====
-- src/net.cpp: `run_sender` and `run_receiver` together, after the handshake.
use uring_sync.Base.{
  ℕ, suc, ◌+◌, ◌≡◌, refl, ap, sym, ◌∙◌, List, ◌++◌, arith, length, drop, drop-append, All, false,
}
use uring_sync.Base.Int.{ℤ}
use uring_sync.Net.Socket.{Socket, Delivers}
use uring_sync.Net.Stream.{SourceFile, Fits, stream}
use uring_sync.Net.Sender.{Host, sent}
use uring_sync.Net.Sender.Sending.{Works}
use uring_sync.Net.Sender.Run.{ServesAll, paths, send_files, send_files-sends}
use uring_sync.Net.Receiver.{Disk, complete, receive_files}
use uring_sync.Net.Receiver.Storing.{Stored, Stores, log_after, receive_files-stores}

append_cancel : (xs ys zs : List ℕ) → xs ++ ys ≡ xs ++ zs → ys ≡ zs
append_cancel xs ys zs e =
    sym (drop-append (length xs) xs ys refl)
    ∙ ap (drop (length xs)) e
    ∙ drop-append (length xs) xs zs refl

-- A sender without splice on a host that works, whose files can all be opened and fit the protocol,
-- and a receiver on a disk that works: when the connection hands the receiver the bytes that the
-- sender gave it, the sender ends with exit code 0, the receiver ends with exit code 0 and the number
-- of files, and the receiver's disk holds exactly the sender's files below the destination.
pub transfer_copies :
    (h : Host) (v : Works h) (retries : ℕ) (pipe_read_fd pipe_write_fd : ℤ) (base_path : List ℕ)
    (fs : List SourceFile) (s : h.sock.State) (k : Socket) (d : Delivers k) (disk : Disk)
    (log : disk.State → List Stored) (newest : disk.State → ℕ) (o : Stores disk log newest)
    (dst_path : List ℕ) (r : k.State) (w : disk.State)
    → ServesAll h base_path fs
    → All Fits fs
    → ((t : h.sock.State)
        → send_files h retries pipe_read_fd pipe_write_fd false base_path (paths fs) s ≡ sent t
        → h.sock.sent t ≡ h.sock.sent s ++ k.pending r)
    → (t : h.sock.State) × (send_files h retries pipe_read_fd pipe_write_fd false base_path
          (paths fs)
          s
        ≡ sent t)
      × (e : disk.State) × (receive_files k disk dst_path (suc (length fs)) 0 r w
          ≡ complete (length fs) e)
      × (log e ≡ log_after dst_path fs (log w))
transfer_copies h v retries prf pwf base_path fs s k d disk log newest o dst_path r w opens fits
      wire =
    let (t, ran, out) = send_files-sends h v retries prf pwf base_path fs s opens in
    let arrived : k.pending r ≡ stream fs =
      append_cancel (h.sock.sent s) (k.pending r) (stream fs) (sym (wire t ran) ∙ out) in
    let (e, done, kept) =
      receive_files-stores k d disk log newest o dst_path fs (suc (length fs)) 0 r w fits
        (omega arith) arrived in
    let count : 0 + length fs ≡ length fs = omega arith in
    (t, ran, e, done ∙ ap (λ n. complete n e) count, kept)
