-- ===== src/Net/Sender/Sending.antt =====
-- src/net.cpp, `send_file`: what goes out where the calls work, on the path that reads.
use uring_sync.Base.{
  ℕ, zero, suc, ◌-◌, ◌%◌, ◌<◌, ◌≤◌, ◌≡◌, refl, ap, ap₂, sym, ◌∙◌, min, List, [], ◌∷◌, ◌++◌, false,
  some, ◌==◌, arith, length, take, drop, length-drop, append_assoc, append-nil, take-append-drop,
}
use uring_sync.Base.Int.{ℤ, pos}
use uring_sync.Protocol.Messages.{make_file_hdr}
use uring_sync.Protocol.SafePath.{slash}
use uring_sync.Net.Socket.{Delivers, send_all, send_msg, send_all-sends, send_all-keeps}
use uring_sync.Net.Sender.{Host, sent, read_and_send, send_file}

-- A host that works: `fstat` gives the size and the mode of the open file, and `read` its next bytes,
-- at least one; no call but `send` gives bytes to the peer.
pub record Works (h : Host) : Type 0 where
  pub delivers : Delivers h.sock
  pub stats :
      (fd : ℕ) (s : h.sock.State)
      → let r = h.fstat fd s in
        (n : ℕ) × (r.0 ≡ pos n)
        × (r.1 ≡ record { size = length (h.opened s).0; mode = (h.opened s).1 })
        × (h.rest r.2 ≡ h.rest s)
        × (h.sock.sent r.2 ≡ h.sock.sent s)
  pub reads :
      (fd len : ℕ) (s : h.sock.State)
      → 0 < len
      → len ≤ length (h.rest s)
      → let r = h.read fd len s in
        (n : ℕ) × (r.0 ≡ pos (suc n))
        × (suc n ≤ len)
        × (take (suc n) r.1 ≡ take (suc n) (h.rest s))
        × (h.rest r.2 ≡ drop (suc n) (h.rest s))
        × (h.sock.sent r.2 ≡ h.sock.sent s)
  pub keeps : (buf : List ℕ) (s : h.sock.State) → h.rest (h.sock.send buf s).1 ≡ h.rest s
  pub closes : (fd : ℕ) (s : h.sock.State) → h.sock.sent (h.close fd s) ≡ h.sock.sent s

-- The file at `path` can be opened, and has the bytes `content` and the `st_mode` `mode`.
abbrev pub Serves : Host → List ℕ → List ℕ → ℕ → Type 0
Serves h path content mode =
    (s : h.sock.State)
    → let r = h.open_file path s in
      (n : ℕ) × (r.0 ≡ pos n)
      × (h.rest r.1 ≡ content)
      × (h.opened r.1 ≡ (content, mode))
      × (h.sock.sent r.1 ≡ h.sock.sent s)

module _ (h : Host) where
  read_and_send-step :
      (rounds buf_size fd remaining : ℕ) (s t : h.sock.State) (n : ℕ)
      → 0 < remaining
      → let r = h.read fd (min remaining buf_size) s in
        r.0 ≡ pos (suc n)
        → send_all h.sock (take (suc n) r.1) r.2 ≡ some t
        → read_and_send h (suc rounds) buf_size fd remaining s
          ≡ read_and_send h rounds buf_size fd (remaining - suc n) t
  unfolding read_and_send
  read_and_send-step rounds buf_size fd remaining s t n more e out =
      let busy : (remaining == 0) ≡ false = ground arith in
      rw (busy, read_and_send) (rw (e, read_and_send) (rw (out, read_and_send)))

  read_and_send-end :
      (rounds buf_size fd : ℕ) (s : h.sock.State)
      → read_and_send h rounds buf_size fd 0 s ≡ sent (h.close fd s)
  unfolding read_and_send
  read_and_send-end zero buf_size fd s = refl
  read_and_send-end (suc rounds) buf_size fd s = refl

  module _ (v : Works h) where
    read_and_send-sends :
        (rounds buf_size fd remaining : ℕ) (s : h.sock.State)
        → 0 < buf_size
        → remaining ≡ length (h.rest s)
        → remaining ≤ rounds
        → (t : h.sock.State) × (read_and_send h rounds buf_size fd remaining s ≡ sent t)
          × (h.sock.sent t ≡ h.sock.sent s ++ h.rest s)
    read_and_send-sends rounds buf_size fd zero s b e r = (
      h.close fd s,
      read_and_send-end rounds buf_size fd s,
      v.closes fd s
          ∙ sym (ap (λ x. h.sock.sent s ++ x) (nothing (h.rest s) e) ∙ append-nil (h.sock.sent s)),
    )
      where
        nothing : (xs : List ℕ) → 0 ≡ length xs → xs ≡ []
        nothing [] e = refl
        nothing (x ∷ xs) e = absurd (omega (arith, e))
    read_and_send-sends zero buf_size fd (suc remaining) s b e r = absurd (omega arith)
    read_and_send-sends (suc rounds) buf_size fd (suc m) s b e r =
        let remaining = suc m in
        let len = min remaining buf_size in
        let (n, moved, fits, bytes, left, same) = v.reads fd len s (omega arith) (omega arith) in
        let u = (h.read fd len s).2 in
        let part = take (suc n) (h.read fd len s).1 in
        let (t, ran, out, _) = send_all-sends h.sock v.delivers part u in
        let kept = send_all-keeps h.sock h.rest v.keeps part u t ran ∙ left in
        let (w, done, all) =
          read_and_send-sends rounds buf_size fd (remaining - suc n) t b
            (omega (arith, ap length kept, length-drop (suc n) (h.rest s))) (omega arith) in
        (
          w,
          read_and_send-step rounds buf_size fd remaining s t n (omega arith) moved ran ∙ done,
          all
              ∙ ap₂ (λ x y. x ++ y) (out ∙ ap₂ (λ x y. x ++ y) same bytes) kept
              ∙ append_assoc (h.sock.sent s) (take (suc n) (h.rest s)) (drop (suc n) (h.rest s))
              ∙ ap (λ x. h.sock.sent s ++ x) (take-append-drop (suc n) (h.rest s)),
        )

    -- Without splice, on a host that works, for a file that can be opened and with a buffer that is not
    -- empty, `send_file` returns true and the peer gets exactly the FILE_HDR message of the file and
    -- then its bytes, whatever pieces `read` and `send` move.
    pub send_file-sends :
        (retries : ℕ) (pipe_read_fd pipe_write_fd : ℤ) (buf_size : ℕ) (base_path rel_path : List ℕ)
        (content : List ℕ) (mode : ℕ) (s : h.sock.State)
        → 0 < buf_size
        → Serves h (base_path ++ slash ∷ rel_path) content mode
        → (t : h.sock.State) × (send_file h retries pipe_read_fd pipe_write_fd false buf_size
              base_path rel_path s
            ≡ sent t)
          × (h.sock.sent t
              ≡ h.sock.sent s ++ (make_file_hdr (length content) (mode % 512) rel_path ++ content))
    unfolding send_file send_msg
    send_file-sends retries pipe_read_fd pipe_write_fd buf_size base_path rel_path content mode s b
          o =
        let path = base_path ++ slash ∷ rel_path in
        let hdr = make_file_hdr (length content) (mode % 512) rel_path in
        let (fd, opened, whole, file, same₁) = o s in
        let s₁ = (h.open_file path s).1 in
        let (z, statted, st, rest₂, same₂) = v.stats fd s₁ in
        let st = st ∙ ap (λ f. record { size = length f.0; mode = f.1 }) file in
        let s₂ = (h.fstat fd s₁).2 in
        let (s₃, ran, out, _) = send_all-sends h.sock v.delivers hdr s₂ in
        let here : h.rest s₃ ≡ content =
          send_all-keeps h.sock h.rest v.keeps hdr s₂ s₃ ran ∙ rest₂ ∙ whole in
        let (t, done, all) =
          read_and_send-sends (length content) buf_size fd (length content) s₃ b
            (sym (ap length here)) (omega arith) in
        (
          t,
          rw (opened, send_file) (rw (statted, send_file) (rw (st, ran, send_file) (rw st done))),
          all
              ∙ ap₂ (λ x y. x ++ y) (out ∙ ap (λ x. x ++ hdr) (same₂ ∙ same₁)) here
              ∙ append_assoc (h.sock.sent s) hdr content,
        )
