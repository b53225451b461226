-- ===== src/Pools/PipePool/Laws.antt =====
-- include/common.hpp, `PipePool`: no descriptor leaks, and no pipe has two users.
use mathlib.Core.List.{Perm}
use mathlib.Core.List.Permᴰ
use mathlib.Core.List.Perm
use uring_sync.Base.{
  map, ℕ, zero, suc, ◌+◌, ◌<◌, ◌≡◌, refl, List, [], ◌∷◌, ◌++◌, Option, none, some, get_or, length,
  arith, ◌⊎◌, inl, inr, Option-cases, lt→ltb, append-nil, append_assoc, subst, length-append,
}
use uring_sync.Base.Int.{ℤ, pos, negsuc}
use uring_sync.Pools.Slots.{first_free, free_slot, first_free_sound, first_free-none}
use uring_sync.Pools.Owners.{
  Owned, Holds, remove, new-Owned, acquire-Owned, release-Owned, held_inside, remove_head,
}
use uring_sync.Pools.PipePool.{
  Pipe, PipePool, Built, built, thrown, close_pipes, make_from, new, acquire, release, no_pipe,
}

abbrev pub IsOwned : PipePool → List ℕ → Type 0
IsOwned p held = Owned p.count p.available held

-- The pipes that the first `n` calls of `pipe` from call `i` on gave.
abbrev pub opened : (ℕ → Option Pipe) → ℕ → ℕ → List Pipe
opened sys i zero = []
opened sys i (suc n) = elim (sys i) [ none ↦ [] | some p ↦ p ∷ opened sys (suc i) n ]

-- The descriptors of the pipes: all that are read from, then all that are written to.
abbrev pub ends : List Pipe → List ℤ
ends pipes = map (λ p. p.read_fd) pipes ++ map (λ p. p.write_fd) pipes

close_pipes-Perm : (pipes : List Pipe) → Perm (close_pipes pipes) (ends pipes)
unfolding close_pipes
close_pipes-Perm [] = Perm.nil
close_pipes-Perm (p ∷ pipes) = Perm.cons p.read_fd (
    Perm.trans (Perm.cons p.write_fd (close_pipes-Perm pipes)) (
      Perm.symm
        ∣ Permᴰ.middle p.write_fd (map (λ q. q.read_fd) pipes) (map (λ q. q.write_fd) pipes) ∣₁))

-- What a finished constructor must have done, given the pipes that were opened.
abbrev pub Accounts : ℕ → List Pipe → Built → Type 0
Accounts count pipes (built p) = (p.pipes ≡ pipes) × (length pipes ≡ count) × IsOwned p []
Accounts count pipes (thrown closed) = Perm closed (ends pipes) × (length pipes < count)

make_from-Accounts :
    (sys : ℕ → Option Pipe) (count : ℕ) (made : List Pipe) (i n : ℕ)
    → length made + n ≡ count
    → Accounts count (made ++ opened sys i n) (make_from sys count made i n)
unfolding make_from
make_from-Accounts sys count made i zero e = rw append-nil (refl, omega arith, new-Owned count)
make_from-Accounts sys count made i (suc n) e = elim (Option-cases (sys i)) [
  | inl h ↦ rw (h, opened, make_from, append-nil) (close_pipes-Perm made, omega arith)
  | inr (p, h) ↦
      rw (h, opened, make_from)
        (subst (λ t. Accounts count t (make_from sys count (made ++ p ∷ []) (suc i) n))
          (append_assoc made (p ∷ []) (opened sys (suc i) n))
          (make_from-Accounts sys count (made ++ p ∷ []) (suc i) n
            (omega (arith, length-append made (p ∷ [])))))
]

-- The constructor either holds exactly the pipes that it opened, one for each slot and all free, or
-- throws after it closed, once each, the reading and the writing end of every pipe that it had
-- opened, and nothing else.
pub new-Accounts :
    (sys : ℕ → Option Pipe) (count : ℕ) → Accounts count (opened sys 0 count) (new sys count)
unfolding new
new-Accounts sys count = make_from-Accounts sys count [] 0 count (omega arith)

-- `acquire` hands a pipe that nobody holds to its caller, or says that there is none when all pipes
-- are held; either way the owners stay apart.
pub acquire-IsOwned :
    (p : PipePool) (held : List ℕ)
    → IsOwned p held
    → ((i : ℕ) × ((acquire p).0 ≡ record {
      read_fd = (get_or p.pipes i no_pipe).read_fd;
      write_fd = (get_or p.pipes i no_pipe).write_fd;
      index = pos i;
    })
        × IsOwned (acquire p).1 (i ∷ held))
      ⊎ (((acquire p).0.index ≡ negsuc 0) × (length held ≡ p.count) × IsOwned (acquire p).1 held)
unfolding acquire
acquire-IsOwned p held o = elim (Option-cases (first_free p.count 0 p.available)) [
  | inl e ↦
      inr (rw e, omega (arith, first_free-none p.available p.count o.sized e, o.counted), rw e o)
  | inr (i, e) ↦
      let (free, _, inside) = first_free_sound p.count 0 p.available i e in
      inl (i, rw e, rw e (acquire-Owned p.count p.available held i o (omega arith) free))
]

-- `release` of a held index ends that hold and no other.
pub release-IsOwned :
    (p : PipePool) (held : List ℕ) (i : ℕ)
    → IsOwned p held
    → Holds i held
    → IsOwned (release p (pos i)) (remove i held)
unfolding release free_slot
release-IsOwned p held i o h =
    rw (lt→ltb i p.count (held_inside p.count p.available held i o h))
      (release-Owned p.count p.available held i o h)

-- `release` of the latest hold.
pub release-IsOwned_head :
    (p : PipePool) (held : List ℕ) (i : ℕ) → IsOwned p (i ∷ held) → IsOwned (release p (pos i)) held
release-IsOwned_head p held i o =
    subst (λ h. IsOwned (release p (pos i)) h) (remove_head i held)
      (release-IsOwned p (i ∷ held) i o (inl refl))

pub acquires-IsOwned :
    (p : PipePool) (held : List ℕ) (i : ℕ)
    → (acquire p).0.index ≡ pos i
    → IsOwned p held
    → IsOwned (acquire p).1 (i ∷ held)
unfolding acquire
acquires-IsOwned p held i h o = elim (Option-cases (first_free p.count 0 p.available)) [
  | inl e ↦ absurd (ground arith)
  | inr (k, e) ↦
      let (free, _, inside) = first_free_sound p.count 0 p.available k e in
      let same : k ≡ i = ground arith in
      rw (e, ← same) (acquire-Owned p.count p.available held k o (omega arith) free)
]

pub fails-IsOwned :
    (p : PipePool) (held : List ℕ) (k : ℕ)
    → (acquire p).0.index ≡ negsuc k
    → IsOwned p held
    → IsOwned (acquire p).1 held
unfolding acquire
fails-IsOwned p held k h o = elim (Option-cases (first_free p.count 0 p.available)) [
  | inl e ↦ rw e o
  | inr (i, e) ↦ absurd (ground arith)
]
