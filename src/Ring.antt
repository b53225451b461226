-- ===== src/Ring.antt =====
-- include/ring.hpp, `RingManager`: requests go into the submission queue, completions come back.
pub mod Submission
pub mod Completion
mod Tests
use uring_sync.Base.{
  ℕ, zero, suc, ◌+◌, List, [], ◌∷◌, Bool, true, false, Option, none, some, if◌then◌else◌,
}
use uring_sync.Base.Int.{ℤ, pos, negsuc}

-- What an entry asks for, with the arguments of `io_uring_prep_*`; a pointer is a number.
pub data Op : Type 0 where
  openat : ℤ → List ℕ → ℕ → ℕ → Op
  statx : ℤ → List ℕ → ℕ → ℕ → ℕ → Op
  close : ℤ → Op
  read write : ℤ → ℕ → ℕ → ℕ → Op
  splice : ℤ → ℤ → ℤ → ℤ → ℕ → ℕ → Op
  mkdirat : ℤ → List ℕ → ℕ → Op
  connect : ℤ → ℕ → ℕ → Op
  accept : ℤ → ℕ → ℕ → ℕ → Op
  send recv : ℤ → ℕ → ℕ → ℕ → Op
  shutdown : ℤ → ℕ → Op

-- `data` is the pointer of `io_uring_sqe_set_data`, `link` the flag IOSQE_IO_LINK.
pub record Entry : Type 0 where
  pub op : Op
  pub user_data : ℕ
  pub link : Bool

-- liburing is not part of the program. `room` is whether `io_uring_get_sqe` gives an entry, `add` is
-- that call with the entry filled in, `submit` is `io_uring_submit`; `wait` is `io_uring_wait_cqe`
-- and `peek` is `io_uring_peek_cqe`, each with the completion that they give taken out by
-- `io_uring_cqe_seen`. `queued` are the entries that are not submitted, `given` those that were, and
-- `ready` the completions that have arrived.
pub record Uring : Type 1 where
  pub State : Type 0
  pub room : State → Bool
  pub add : Entry → State → State
  pub submit : State → ℤ × State
  pub wait : State → Option ((ℕ × ℤ) × State)
  pub peek : State → Option ((ℕ × ℤ) × State)
  pub queued : State → List Entry
  pub given : State → List Entry
  pub ready : State → List (ℕ × ℤ)

module _ (u : Uring) where
  abbrev retried : u.State → Option u.State
  retried s = if u.room s then some s else none

  -- `none` is the exception "Submission Queue is full!".
  unfoldable pub get_sqe : u.State → Option u.State
  get_sqe s = if u.room s then some s else retried (u.submit s).1

  abbrev filled : Entry → Option u.State → Option u.State
  filled e none = none
  filled e (some s) = some (u.add e s)

  -- What the functions `prepare_*` have in common.
  unfoldable pub prepare : Entry → u.State → Option u.State
  unfolding get_sqe
  prepare e s = filled e (get_sqe s)

  pub prepare_openat : ℤ → List ℕ → ℕ → ℕ → ℕ → Bool → u.State → Option u.State
  unfolding prepare
  prepare_openat dirfd path flags mode ctx link =
      prepare (record { op = openat dirfd path flags mode; user_data = ctx; link = link })

  pub prepare_statx : ℤ → List ℕ → ℕ → ℕ → ℕ → ℕ → Bool → u.State → Option u.State
  unfolding prepare
  prepare_statx dirfd path flags mask statxbuf ctx link =
      prepare (record { op = statx dirfd path flags mask statxbuf; user_data = ctx; link = link })

  pub prepare_close : ℤ → ℕ → Bool → u.State → Option u.State
  unfolding prepare
  prepare_close fd ctx link = prepare (record { op = close fd; user_data = ctx; link = link })

  pub prepare_read : ℤ → ℕ → ℕ → ℕ → ℕ → Bool → u.State → Option u.State
  unfolding prepare
  prepare_read fd buffer len offset ctx link =
      prepare (record { op = read fd buffer len offset; user_data = ctx; link = link })

  pub prepare_write : ℤ → ℕ → ℕ → ℕ → ℕ → Bool → u.State → Option u.State
  unfolding prepare
  prepare_write fd buffer len offset ctx link =
      prepare (record { op = write fd buffer len offset; user_data = ctx; link = link })

  pub prepare_splice : ℤ → ℤ → ℤ → ℤ → ℕ → ℕ → ℕ → Bool → u.State → Option u.State
  unfolding prepare
  prepare_splice fd_in off_in fd_out off_out len flags ctx link =
      prepare
        (record { op = splice fd_in off_in fd_out off_out len flags; user_data = ctx; link = link })

  pub prepare_mkdirat : ℤ → List ℕ → ℕ → ℕ → u.State → Option u.State
  unfolding prepare
  prepare_mkdirat dirfd path mode ctx =
      prepare (record { op = mkdirat dirfd path mode; user_data = ctx; link = false })

  pub prepare_connect : ℤ → ℕ → ℕ → ℕ → u.State → Option u.State
  unfolding prepare
  prepare_connect sockfd addr addrlen ctx =
      prepare (record { op = connect sockfd addr addrlen; user_data = ctx; link = false })

  pub prepare_accept : ℤ → ℕ → ℕ → ℕ → ℕ → u.State → Option u.State
  unfolding prepare
  prepare_accept sockfd addr addrlen flags ctx =
      prepare (record { op = accept sockfd addr addrlen flags; user_data = ctx; link = false })

  pub prepare_send : ℤ → ℕ → ℕ → ℕ → ℕ → u.State → Option u.State
  unfolding prepare
  prepare_send sockfd buf len flags ctx =
      prepare (record { op = send sockfd buf len flags; user_data = ctx; link = false })

  pub prepare_recv : ℤ → ℕ → ℕ → ℕ → ℕ → u.State → Option u.State
  unfolding prepare
  prepare_recv sockfd buf len flags ctx =
      prepare (record { op = recv sockfd buf len flags; user_data = ctx; link = false })

  pub prepare_shutdown : ℤ → ℕ → ℕ → u.State → Option u.State
  unfolding prepare
  prepare_shutdown sockfd how ctx =
      prepare (record { op = shutdown sockfd how; user_data = ctx; link = false })

  -- A call of `wait_one`: the context and the result, or `none` for `nullptr`.
  unfoldable pub wait_one : u.State → Option ((ℕ × ℤ) × u.State)
  wait_one s = u.wait s

  -- The callback works on a state of its own, and may prepare requests.
  module _ {W : Type 0} (callback : ℕ → ℤ → W × u.State → W × u.State) where
    -- `while (io_uring_peek_cqe(&ring, &cqe) == 0)`. The number is `processed`.
    process_completions : ℕ → W × u.State → ℕ × (W × u.State)
    process_completions zero (w, s) = (0, (w, s))
    process_completions (suc rounds) (w, s) = elim (u.peek s) [
      | none ↦ (0, (w, s))
      | some ((ctx, res), t) ↦
          let (processed, r) = process_completions rounds (callback ctx res (w, t)) in
          (processed + 1, r)
    ]

    -- `none` is the result -1.
    unfoldable pub wait_and_process : ℕ → W × u.State → Option (ℕ × (W × u.State))
    unfolding process_completions
    wait_and_process rounds (w, s) = elim (u.wait s) [
      | none ↦ none
      | some ((ctx, res), t) ↦
          let (processed, r) = process_completions rounds (callback ctx res (w, t)) in
          some (processed + 1, r)
    ]
