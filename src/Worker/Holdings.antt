-- ===== src/Worker/Holdings.antt =====
-- src/main.cpp, `worker_thread`: what a completion does to the pools, the requests and the files in
-- flight, each on its own.
use mathlib.Core.List.{Permᴰ, Perm}
use mathlib.Core.List.Permᴰ
use mathlib.Core.List.Perm
use mathlib.Core.Logic.{∥∥₁_elim}
use mathlib.Core.HLevel.{⊥_prop}
use mathlib.Core.Option.{some-injective}
use uring_sync.Base.{
  ℕ, ◌≡◌, ◌≢◌, refl, sym, ◌∙◌, List, [], ◌∷◌, Option, none, some, arith, All, Bool-cases,
  Option-cases, inl, inr, subst, ◌==◌,
}
use uring_sync.Base.Int.{ℤ, pos, negsuc}
use uring_sync.Pools.BufferPool.{BufferPool}
use uring_sync.Pools.BufferPool
use uring_sync.Pools.BufferPool.Laws
use uring_sync.Pools.PipePool.{PipePool}
use uring_sync.Pools.PipePool
use uring_sync.Pools.PipePool.Laws as PipeLaws
use uring_sync.Pools.Slots.{free_slot}
use uring_sync.FileCopy.Types.{FileContext, Sqe, Statx}
use uring_sync.FileCopy.Advance.{Machine}
use uring_sync.FileCopy.Kernel.{store_stx}
use uring_sync.FileCopy.Effects.{PipedAt, Piping, stays, takes, lacks}
use uring_sync.Base.Maps.{pointers, lookup, erase}
use uring_sync.Worker.{kept}
use uring_sync.Worker.Entries.{slot_of, All-Permᴰ, lookup-Permᴰ, pointers-Permᴰ}

-- Both pools, after the indices that were given back.
pub release_buffer :
    (p : BufferPool) (z : ℤ) (rest : List ℕ)
    → Laws.IsOwned p (slot_of z rest)
    → Laws.IsOwned (BufferPool.release p z) rest
release_buffer p (pos i) rest o = Laws.release-IsOwned_head p rest i o
release_buffer p (negsuc n) rest o = unfold BufferPool.release free_slot in o

pub release_pipe :
    (p : PipePool) (z : ℤ) (rest : List ℕ)
    → PipeLaws.IsOwned p (slot_of z rest)
    → PipeLaws.IsOwned (PipePool.release p z) rest
release_pipe p (pos i) rest o = PipeLaws.release-IsOwned_head p rest i o
release_pipe p (negsuc n) rest o = unfold PipePool.release free_slot in o

-- The pipe pool after a completion.
pub Piping-IsOwned :
    (m : Machine) (q : PipePool) (pipes : Option PipePool) (z : ℤ) (rest : List ℕ)
    → m.pipes ≡ some q
    → PipedAt m.ctx.state m.ctx.pipe_index
    → PipeLaws.IsOwned q (slot_of m.ctx.pipe_index rest)
    → Piping m pipes z
    → PipeLaws.IsOwned (kept pipes q) (slot_of z rest)
Piping-IsOwned m q pipes z rest e a o (stays p i) = rw (p, e, i) o
Piping-IsOwned m q pipes z rest e a o (takes pool i had state got p j) =
    let same : pool ≡ q = some-injective pool q (sym had ∙ e) in
    let bare = subst (λ s. PipedAt s m.ctx.pipe_index) state a in
    let mine = subst (λ y. PipeLaws.IsOwned q (slot_of y rest)) bare o in
    rw (p, j)
      (subst (λ x. PipeLaws.IsOwned (PipePool.acquire x).1 (i ∷ rest)) (sym same)
        (PipeLaws.acquires-IsOwned q rest i
          (subst (λ x. (PipePool.acquire x).0.index ≡ pos i) same got) mine))
Piping-IsOwned m q pipes z rest e a o (lacks pool k had got p i) =
    let same : pool ≡ q = some-injective pool q (sym had ∙ e) in
    rw (p, i)
      (subst (λ x. PipeLaws.IsOwned (PipePool.acquire x).1 (slot_of m.ctx.pipe_index rest))
        (sym same)
        (PipeLaws.fails-IsOwned q _ k
          (subst (λ x. (PipePool.acquire x).0.index ≡ negsuc k) same got) o))

-- What the kernel stores before the callback concerns none of this.
pub record Stored (m n : Machine) : Type 0 where
  pub buffer : n.ctx.buffer ≡ m.ctx.buffer
  pub index : n.ctx.buffer_index ≡ m.ctx.buffer_index
  pub state : n.ctx.state ≡ m.ctx.state
  pub pipe : n.ctx.pipe_index ≡ m.ctx.pipe_index
  pub rest : (n.pipes ≡ m.pipes) × (n.prepared ≡ m.prepared) × (n.stats ≡ m.stats)

abbrev unchanged : (m : Machine) → Stored m m
unchanged m = record {
  buffer = refl;
  index = refl;
  state = refl;
  pipe = refl;
  rest = (refl, refl, refl);
}

pub store_stx-Stored : (sqe : Sqe) (stx : Statx) (m : Machine) → Stored m (store_stx sqe stx m)
store_stx-Stored (Sqe.statx fd) stx m = record {
  buffer = refl;
  index = refl;
  state = refl;
  pipe = refl;
  rest = (refl, refl, refl);
}
store_stx-Stored (Sqe.openat p f n) stx m = unchanged m
store_stx-Stored (Sqe.close fd) stx m = unchanged m
store_stx-Stored (Sqe.read fd b n o) stx m = unchanged m
store_stx-Stored (Sqe.write fd b n o) stx m = unchanged m
store_stx-Stored (Sqe.splice a b c d n) stx m = unchanged m

missing :
    {A : Type 0} (p : ℕ) (es : List (ℕ × A)) → lookup p es ≡ none → All (λ q. q ≢ p) (pointers es)
missing p [] h = tt
missing p ((q, a) ∷ es) h = elim (Bool-cases (q == p)) [
  | inl e ↦ absurd (ground arith)
  | inr e ↦ ((λ s. absurd (ground arith)), missing p es (ground arith))
]

-- A pointer with a request belongs to a file in flight.
pub requested-flying :
    (rs : List (ℕ × Sqe)) (fs : List (ℕ × FileContext)) (p : ℕ) (sqe : Sqe)
    → Perm (pointers rs) (pointers fs)
    → lookup p rs ≡ some sqe
    → (c : FileContext) × (lookup p fs ≡ some c)
requested-flying rs fs p sqe h r = elim (Option-cases (lookup p fs)) [
  | inl e ↦ absurd (
      ∥∥₁_elim h ⊥_prop (λ d.
        (All-Permᴰ (λ q. q ≢ p)
            (Permᴰ.trans (Permᴰ.symm d) (pointers-Permᴰ (lookup-Permᴰ p rs sqe r)))
            (missing p fs e)).0
          refl))
  | inr w ↦ w
]

pub requests_leave :
    (rs : List (ℕ × Sqe)) (fs : List (ℕ × FileContext)) (p : ℕ) (sqe : Sqe) (c : FileContext)
    → Perm (pointers rs) (pointers fs)
    → lookup p rs ≡ some sqe
    → lookup p fs ≡ some c
    → Perm (pointers (erase p rs)) (pointers (erase p fs))
requests_leave rs fs p sqe c h r f = Perm.cons_inv (
    Perm.trans ∣ Permᴰ.symm (pointers-Permᴰ (lookup-Permᴰ p rs sqe r)) ∣₁
      (Perm.trans h ∣ pointers-Permᴰ (lookup-Permᴰ p fs c f) ∣₁))
