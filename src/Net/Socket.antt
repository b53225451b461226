-- ===== src/Net/Socket.antt =====
-- src/net.cpp, "Network Helpers": whole buffers over a stream socket.
use uring_sync.Base.{
  ℕ, zero, suc, ◌+◌, ◌-◌, ◌<◌, ◌≤◌, ◌≡◌, refl, ap, sym, ◌∙◌, List, [], ◌++◌, true, false, Option,
  none, some, if◌then◌else◌, ltb, arith, length, take, drop, length-drop, take-add, drop-drop,
  append-nil, append_assoc, ltb-false, lt→ltb, dec_lt, Bool-cases, inl, inr, drop_all,
  take-append-drop, ap₂,
}
use mathlib.Core.Option.{some-injective, none-ne-some}
use uring_sync.Base.Int.{ℤ, pos, negsuc, ℤ-cases}
use uring_sync.Protocol.Codec.{MsgType, msg_header_size, parse_header}

-- A connected socket. `send` and `recv` are not part of the program: what they do is an argument.
-- `recv len` gives its result, the bytes that it stored, and the state after it. `sent` and
-- `pending` are what the peer was given so far, and what the peer has still to give.
pub record Socket : Type 1 where
  pub State : Type 0
  pub send : List ℕ → State → ℤ × State
  pub recv : ℕ → State → ℤ × List ℕ × State
  pub sent : State → List ℕ
  pub pending : State → List ℕ

-- While the connection stands: a call of `send` takes some of the bytes, at least one, and a call
-- of `recv` gives the next bytes of the stream, at least one and at most what was asked for.
pub record Delivers (k : Socket) : Type 0 where
  pub sends :
      (buf : List ℕ) (s : k.State)
      → 0 < length buf
      → let r = k.send buf s in
        (n : ℕ) × (r.0 ≡ pos (suc n))
        × (suc n ≤ length buf)
        × (k.sent r.1 ≡ k.sent s ++ take (suc n) buf)
        × (k.pending r.1 ≡ k.pending s)
  pub receives :
      (len : ℕ) (s : k.State)
      → 0 < len
      → len ≤ length (k.pending s)
      → let r = k.recv len s in
        (n : ℕ) × (r.0 ≡ pos (suc n))
        × (suc n ≤ len)
        × (r.1 ≡ take (suc n) (k.pending s))
        × (k.pending r.2 ≡ drop (suc n) (k.pending s))
        × (k.sent r.2 ≡ k.sent s)

module _ (k : Socket) where
  -- `while (sent < len)`. Each round fails or moves a byte, so `len` rounds are enough. `none` is the
  -- result false; the caller closes the socket then.
  send_from : ℕ → List ℕ → ℕ → k.State → Option k.State
  send_from zero buf sent s = if ltb sent (length buf) then none else some s
  send_from (suc rounds) buf sent s = elim (ltb sent (length buf)) [
    | false ↦ some s
    | true ↦
        let (n, s') = k.send (drop sent buf) s in
        elim n [
          | pos zero ↦ none
          | pos (suc m) ↦ send_from rounds buf (sent + suc m) s'
          | negsuc e ↦ none
        ]
  ]

  unfoldable pub send_all : List ℕ → k.State → Option k.State
  unfolding send_from
  send_all buf s = send_from (length buf) buf 0 s

  unfoldable pub recv_from : ℕ → ℕ → List ℕ → ℕ → k.State → Option (List ℕ × k.State)
  recv_from zero len buf received s = if ltb received len then none else some (buf, s)
  recv_from (suc rounds) len buf received s = elim (ltb received len) [
    | false ↦ some (buf, s)
    | true ↦
        let (n, bytes, s') = k.recv (len - received) s in
        elim n [
          | pos zero ↦ none
          | pos (suc m) ↦ recv_from rounds len (buf ++ bytes) (received + suc m) s'
          | negsuc e ↦ none
        ]
  ]

  unfoldable pub recv_all : ℕ → k.State → Option (List ℕ × k.State)
  unfolding recv_from
  recv_all len s = recv_from len len [] 0 s

  -- The flag MSG_MORE only delays the last packet, and is left out.
  unfoldable pub send_msg : List ℕ → k.State → Option k.State
  unfolding send_all
  send_msg msg s = send_all msg s

  abbrev with_header : Option (List ℕ × k.State) → Option ((MsgType × ℕ) × k.State)
  with_header none = none
  with_header (some (header, s)) = some (parse_header header, s)

  unfoldable pub recv_header : k.State → Option ((MsgType × ℕ) × k.State)
  unfolding recv_all
  recv_header s = with_header (recv_all msg_header_size s)

  -- One round of each loop, where the call moves bytes.
  send_from-step :
      (rounds : ℕ) (buf : List ℕ) (sent : ℕ) (s : k.State) (n : ℕ)
      → sent < length buf
      → (k.send (drop sent buf) s).0 ≡ pos (suc n)
      → send_from (suc rounds) buf sent s
        ≡ send_from rounds buf (sent + suc n) (k.send (drop sent buf) s).1
  unfolding send_from
  send_from-step rounds buf sent s n h e =
      rw (lt→ltb sent (length buf) h, send_from) (rw (e, send_from))

  recv_from-step :
      (rounds len : ℕ) (buf : List ℕ) (received : ℕ) (s : k.State) (n : ℕ)
      → received < len
      → (k.recv (len - received) s).0 ≡ pos (suc n)
      → let r = k.recv (len - received) s in
        recv_from (suc rounds) len buf received s
        ≡ recv_from rounds len (buf ++ r.1) (received + suc n) r.2
  unfolding recv_from
  recv_from-step rounds len buf received s n h e =
      rw (lt→ltb received len h, recv_from) (rw (e, recv_from))

  -- The loop ends by its test.
  send_from-end :
      (rounds : ℕ) (buf : List ℕ) (sent : ℕ) (s : k.State)
      → length buf ≤ sent
      → send_from rounds buf sent s ≡ some s
  unfolding send_from
  send_from-end zero buf sent s h = rw (ltb-false sent (length buf) h)
  send_from-end (suc rounds) buf sent s h = rw (ltb-false sent (length buf) h, send_from)

  recv_from-end :
      (rounds len : ℕ) (buf : List ℕ) (received : ℕ) (s : k.State)
      → len ≤ received
      → recv_from rounds len buf received s ≡ some (buf, s)
  unfolding recv_from
  recv_from-end zero len buf received s h = rw (ltb-false received len h)
  recv_from-end (suc rounds) len buf received s h = rw (ltb-false received len h, recv_from)

  -- What no call of `send` changes, `send_all` does not change.
  send_from-keeps :
      (view : k.State → List ℕ)
      → ((buf : List ℕ) (s : k.State) → view (k.send buf s).1 ≡ view s)
      → (rounds : ℕ) (buf : List ℕ) (sent : ℕ) (s t : k.State)
      → send_from rounds buf sent s ≡ some t
      → view t ≡ view s
  unfolding send_from
  send_from-keeps view keep zero buf sent s t e = elim (Bool-cases (ltb sent (length buf))) [
    | inl l ↦ absurd (none-ne-some t (rw l at e))
    | inr l ↦ sym (ap view (some-injective s t (rw l at e)))
  ]
  send_from-keeps view keep (suc rounds) buf sent s t e =
      elim (Bool-cases (ltb sent (length buf))) [
        | inr l ↦ sym (ap view (some-injective s t (rw (l, send_from) at e)))
        | inl l ↦
            let r = k.send (drop sent buf) s in
            elim (ℤ-cases r.0) [
              | inr (n, q) ↦ absurd (none-ne-some t (rw (q, send_from) at (rw (l, send_from) at e)))
              | inl (zero, q) ↦
                  absurd (none-ne-some t (rw (q, send_from) at (rw (l, send_from) at e)))
              | inl (suc n, q) ↦
                  send_from-keeps view keep rounds buf (sent + suc n) r.1 t
                    (rw (q, send_from) at (rw (l, send_from) at e))
                  ∙ keep (drop sent buf) s
            ]
      ]

  pub send_all-keeps :
      (view : k.State → List ℕ)
      → ((buf : List ℕ) (s : k.State) → view (k.send buf s).1 ≡ view s)
      → (buf : List ℕ) (s t : k.State) → send_all buf s ≡ some t
      → view t ≡ view s
  unfolding send_all
  send_all-keeps view keep buf s t e = send_from-keeps view keep (length buf) buf 0 s t e

module _ (k : Socket) (d : Delivers k) where
  send_from-sends :
      (rounds : ℕ) (buf : List ℕ) (sent : ℕ) (s : k.State)
      → sent ≤ length buf
      → length buf ≤ sent + rounds
      → (t : k.State) × (send_from k rounds buf sent s ≡ some t)
        × (k.sent t ≡ k.sent s ++ drop sent buf)
        × (k.pending t ≡ k.pending s)
  send_from-sends zero buf sent s h e = (
    s,
    send_from-end k zero buf sent s (omega arith),
    sym (ap (λ b. k.sent s ++ b) (drop_all sent buf (omega arith)) ∙ append-nil (k.sent s)),
    refl,
  )
  send_from-sends (suc rounds) buf sent s h e = elim (dec_lt sent (length buf)) [
    | no end ↦ (
      s,
      send_from-end k (suc rounds) buf sent s (omega arith),
      sym (ap (λ b. k.sent s ++ b) (drop_all sent buf (omega arith)) ∙ append-nil (k.sent s)),
      refl,
    )
    | yes more ↦
        let left = drop sent buf in
        let (n, moved, fits, out, same) = d.sends left s (omega (arith, length-drop sent buf)) in
        let (t, run, out_t, same_t) =
          send_from-sends rounds buf (sent + suc n) (k.send left s).1
            (omega (arith, length-drop sent buf)) (omega arith) in
        let rest : drop (sent + suc n) buf ≡ drop (suc n) left = sym (drop-drop (suc n) sent buf) in
        (
          t,
          send_from-step k rounds buf sent s n more moved ∙ run,
          out_t
              ∙ ap (λ b. b ++ drop (sent + suc n) buf) out
              ∙ append_assoc (k.sent s) (take (suc n) left) (drop (sent + suc n) buf)
              ∙ ap (λ b. k.sent s ++ (take (suc n) left ++ b)) rest
              ∙ ap (λ b. k.sent s ++ b) (take-append-drop (suc n) left),
          same_t ∙ same,
        )
  ]

  -- While the connection stands, `send_all` succeeds, whatever pieces the socket takes, and the peer gets exactly the buffer.
  pub send_all-sends :
      (buf : List ℕ) (s : k.State)
      → (t : k.State) × (send_all k buf s ≡ some t)
        × (k.sent t ≡ k.sent s ++ buf)
        × (k.pending t ≡ k.pending s)
  unfolding send_all
  send_all-sends buf s = send_from-sends (length buf) buf 0 s (omega arith) (omega arith)

  recv_from-receives :
      (rounds len : ℕ) (buf : List ℕ) (received : ℕ) (s : k.State)
      → received ≤ len
      → len ≤ received + rounds
      → len - received ≤ length (k.pending s)
      → (t : k.State) × (recv_from k rounds len buf received s
          ≡ some (buf ++ take (len - received) (k.pending s), t))
        × (k.pending t ≡ drop (len - received) (k.pending s))
        × (k.sent t ≡ k.sent s)
  recv_from-receives zero len buf received s h e a =
      let none_left : len - received ≡ 0 = omega arith in
      (
        s,
        rw (none_left, append-nil) (recv_from-end k zero len buf received s (omega arith)),
        rw none_left,
        refl,
      )
  recv_from-receives (suc rounds) len buf received s h e a = elim (dec_lt received len) [
    | no end ↦
        let none_left : len - received ≡ 0 = omega arith in
        (
          s,
          rw (none_left, append-nil)
              (recv_from-end k (suc rounds) len buf received s (omega arith)),
          rw none_left,
          refl,
        )
    | yes more ↦
        let want = len - received in
        let (n, moved, fits, bytes, after, same) = d.receives want s (omega arith) a in
        let s' = (k.recv want s).2 in
        let (t, run, after_t, same_t) =
          recv_from-receives rounds len (buf ++ (k.recv want s).1) (received + suc n) s'
            (omega arith) (omega arith)
            (omega (arith, ap length after, length-drop (suc n) (k.pending s))) in
        let split : suc n + (len - (received + suc n)) ≡ want = omega arith in
        (
          t,
          recv_from-step k rounds len buf received s n more moved
              ∙ run
              ∙ ap (λ b. some (b, t))
                  (joined buf n (len - (received + suc n)) want s s' bytes after split),
          after_t
              ∙ ap (λ b. drop (len - (received + suc n)) b) after
              ∙ drop-drop (len - (received + suc n)) (suc n) (k.pending s)
              ∙ ap (λ i. drop i (k.pending s)) split,
          same_t ∙ same,
        )
  ]
    where
      joined :
          (buf : List ℕ) (n rest want : ℕ) (s s' : k.State)
          → (k.recv want s).1 ≡ take (suc n) (k.pending s)
          → k.pending s' ≡ drop (suc n) (k.pending s)
          → suc n + rest ≡ want
          → (buf ++ (k.recv want s).1) ++ take rest (k.pending s') ≡ buf ++ take want (k.pending s)
      joined buf n rest want s s' bytes after split =
          append_assoc buf (k.recv want s).1 (take rest (k.pending s'))
          ∙ ap₂ (λ x y. buf ++ (x ++ take rest y)) bytes after
          ∙ ap (λ b. buf ++ b) (take-add (suc n) rest (k.pending s))
          ∙ ap (λ i. buf ++ take i (k.pending s)) split

  -- While the connection stands, `recv_all` of no more than what the peer has to give succeeds, whatever pieces arrive, and stores
  -- exactly the next bytes of the stream.
  pub recv_all-receives :
      (len : ℕ) (s : k.State)
      → len ≤ length (k.pending s)
      → (t : k.State) × (recv_all k len s ≡ some (take len (k.pending s), t))
        × (k.pending t ≡ drop len (k.pending s))
        × (k.sent t ≡ k.sent s)
  unfolding recv_all
  recv_all-receives len s h =
      let all : len - 0 ≡ len = omega arith in
      rw all at (recv_from-receives len len [] 0 s (omega arith) (omega arith) (omega arith))
