-- ===== src/Net/AsyncSender/Loop/Deadlock.antt =====
-- src/net_uring.cpp, `AsyncSender::run`: a file that fails before its turn.
use uring_sync.Base.{
  ℕ, ◌≡◌, ◌<◌, ◌≤◌, refl, ap, ◌∙◌, Bool, List, [], ◌∷◌, true, false, ◌⊎◌, inl, inr, ltb, ltb-false,
  length, not, ◌&&◌,
}
use uring_sync.Net.Socket.{Socket}
use uring_sync.Net.AsyncSender.{failed}
use uring_sync.Net.AsyncSender.Loop.{
  Run, file_at, open_each, open_files, start_next, prepare_round, is_ready,
}

-- The file whose turn it is has failed, no file is being sent, no request is on its way, files are
-- left, and no further file can be opened: there is no free buffer or no unopened file.
pub record Stuck (k : Socket) (chunk_size : ℕ) (room : Bool) (r : Run k) : Type 0 where
  pub turn_failed : (file_at k chunk_size room r.next_to_send r).state ≡ failed
  pub idle : r.sending_active ≡ false
  pub quiet : r.outstanding ≡ []
  pub waiting : 0 < r.in_flight
  pub left : r.completed < length r.files
  pub none_to_open : (r.free_buffers ≡ []) ⊎ (length r.files ≤ r.next_to_open)

module _ (k : Socket) (chunk_size : ℕ) (room : Bool) where
  open_each-none :
      (free : List ℕ) (r : Run k)
      → (free ≡ []) ⊎ (length r.files ≤ r.next_to_open)
      → open_each k chunk_size room free r ≡ r
  unfolding open_each
  open_each-none [] r h = refl
  open_each-none (b ∷ free) r (inl e) = cc
  open_each-none (b ∷ free) r (inr h) = rw (ltb-false r.next_to_open (length r.files) h)

  start_next-none :
      (r : Run k)
      → is_ready (file_at k chunk_size room r.next_to_send r).state ≡ false
      → start_next k chunk_size room r ≡ r
  unfolding start_next
  start_next-none r e =
      rw (e, both_false (not r.sending_active) (ltb r.next_to_send (length r.files)))
    where
      both_false : (a b : Bool) → (a && (b && false)) ≡ false
      both_false true true = refl
      both_false true false = refl
      both_false false b = refl

  -- In a `Stuck` state the start of a round changes nothing.
  prepare_round-Stuck :
      (r : Run k) → Stuck k chunk_size room r → prepare_round k chunk_size room r ≡ r
  unfolding prepare_round open_files
  prepare_round-Stuck r s =
      ap (start_next k chunk_size room) (open_each-none r.free_buffers r s.none_to_open)
      ∙ start_next-none r (ap is_ready s.turn_failed)
