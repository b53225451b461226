-- ===== src/Pools/BufferPool/Laws.antt =====
-- include/common.hpp, `BufferPool`: what each call does, on every branch.
use uring_sync.Base.{
  refl, ap, zero, suc, ℕ, ◌+◌, ◌<◌, ◌≡◌, ◌≢◌, List, [], ◌∷◌, ◌∙◌, true, false, get_or, set, length,
  arith, ◌⊎◌, inl, inr, Option-cases, get_or-set_self, get_or-set_ne, lt→ltb, subst,
}
use uring_sync.Base.Int.{pos, negsuc}
use uring_sync.Pools.Slots.{
  first_free, free_slot, first_free_sound, first_free-none, count_free-eq-free_slots,
  free_slots-set-false,
}
use uring_sync.Pools.Owners.{
  Owned, Holds, remove, new-Owned, acquire-Owned, release-Owned, held_inside, remove_head,
}
use uring_sync.Pools.BufferPool.{BufferPool, alloc_from, new, acquire, release, available_count}

-- Every buffer has its flag.
abbrev pub Sized : BufferPool → Type 0
Sized p = length p.available ≡ p.count

-- The buffer `i` was free, is handed out with its index, and is the only one whose flag changes.
abbrev pub Hands : BufferPool → ℕ → Type 0
Hands p i =
    (i < p.count)
    × (get_or p.available i false ≡ true)
    × ((acquire p).0 ≡ (get_or p.buffers i 0, pos i))
    × (get_or (acquire p).1.available i true ≡ false)
    × ((j : ℕ) → i ≢ j → get_or (acquire p).1.available j false ≡ get_or p.available j false)
    × (available_count (acquire p).1 + 1 ≡ available_count p)

-- A call of `acquire`, on both of its branches: either some buffer is handed out, as `Hands` says, or
-- no buffer is free, the result is {nullptr, -1} and the pool is as before.
pub acquire_lem :
    (p : BufferPool)
    → Sized p
    → ((i : ℕ) × Hands p i) ⊎ ((available_count p ≡ 0) × (acquire p ≡ ((0, negsuc 0), p)))
unfolding acquire available_count
acquire_lem p s = elim (Option-cases (first_free p.count 0 p.available)) [
  | inl e ↦ inr (
    count_free-eq-free_slots p.available 0 ∙ omega (arith, first_free-none p.available p.count s e),
    rw e,
  )
  | inr (i, e) ↦
      let (free, _, inside) = first_free_sound p.count 0 p.available i e in
      inl (
        i,
        (
          omega arith,
          free,
          rw e,
          rw e (get_or-set_self p.available i false true (omega arith)),
          λ j ne. rw e (get_or-set_ne p.available i j false false ne),
          rw
              (
                e,
                count_free-eq-free_slots (set p.available i false) 0,
                count_free-eq-free_slots p.available 0,
              )
              (omega (arith, free_slots-set-false p.available i free)),
        ),
      )
]

-- What a pool's users do, one call at a time: an index that `acquire` returned is held until it is
-- passed to `release`; a user that got none may call `release(-1)`.
pub data Step (p : BufferPool) (held : List ℕ) : BufferPool → List ℕ → Type 0 where
  acquires : (i : ℕ) → (acquire p).0.1 ≡ pos i → Step p held (acquire p).1 (i ∷ held)
  fails : (acquire p).0.1 ≡ negsuc 0 → Step p held (acquire p).1 held
  releases : (i : ℕ) → Holds i held → Step p held (release p (pos i)) (remove i held)
  releases_none : Step p held (release p (negsuc 0)) held

pub data Reach (p : BufferPool) (held : List ℕ) : BufferPool → List ℕ → Type 0 where
  here : Reach p held p held
  next : {q r : BufferPool} {h k : List ℕ} → Reach p held q h → Step q h r k → Reach p held r k

abbrev pub IsOwned : BufferPool → List ℕ → Type 0
IsOwned p held = Owned p.count p.available held

acquires-IsOwned :
    (p : BufferPool) (held : List ℕ) (i : ℕ)
    → (acquire p).0.1 ≡ pos i
    → IsOwned p held
    → IsOwned (acquire p).1 (i ∷ held)
unfolding acquire
acquires-IsOwned p held i h o = elim (Option-cases (first_free p.count 0 p.available)) [
  | inl e ↦ absurd (ground arith)
  | inr (k, e) ↦
      let (free, _, inside) = first_free_sound p.count 0 p.available k e in
      let same : k ≡ i = ground arith in
      rw (e, ← same) (acquire-Owned p.count p.available held k o (omega arith) free)
]

fails-IsOwned :
    (p : BufferPool) (held : List ℕ)
    → (acquire p).0.1 ≡ negsuc 0
    → IsOwned p held
    → IsOwned (acquire p).1 held
unfolding acquire
fails-IsOwned p held h o = elim (Option-cases (first_free p.count 0 p.available)) [
  | inl e ↦ rw e o
  | inr (k, e) ↦ absurd (ground arith)
]

releases-IsOwned :
    (p : BufferPool) (held : List ℕ) (i : ℕ)
    → Holds i held
    → IsOwned p held
    → IsOwned (release p (pos i)) (remove i held)
unfolding release free_slot
releases-IsOwned p held i h o =
    rw (lt→ltb i p.count (held_inside p.count p.available held i o h))
      (release-Owned p.count p.available held i o h)

Step-IsOwned : {p q : BufferPool} {held h : List ℕ} → Step p held q h → IsOwned p held → IsOwned q h
Step-IsOwned {p} {held} (acquires i e) o = acquires-IsOwned p held i e o
Step-IsOwned {p} {held} (fails e) o = fails-IsOwned p held e o
Step-IsOwned {p} {held} (releases i m) o = releases-IsOwned p held i m o
Step-IsOwned (releases_none) o = unfold release free_slot in o

-- No two users ever hold the same buffer, what they hold is marked as taken, and the free buffers
-- and the held ones together are all of the pool, after any sequence of calls on a new pool.
pub Reach-IsOwned :
    (alloc : ℕ → ℕ) (count size : ℕ) {p : BufferPool} {held : List ℕ}
    → Reach (new alloc count size) [] p held
    → IsOwned p held
Reach-IsOwned alloc count size here = unfold new in new-Owned count
Reach-IsOwned alloc count size (next r s) = Step-IsOwned s (Reach-IsOwned alloc count size r)

-- `acquire` of a pool with a free slot.
pub acquire_free :
    (p : BufferPool) (held : List ℕ)
    → IsOwned p held
    → length held < p.count
    → (i : ℕ) × (i < p.count)
      × ((acquire p).0 ≡ (get_or p.buffers i 0, pos i))
      × IsOwned (acquire p).1 (i ∷ held)
      × ((acquire p).1.buffers ≡ p.buffers)
      × ((acquire p).1.count ≡ p.count)
unfolding acquire
acquire_free p held o h = elim (Option-cases (first_free p.count 0 p.available)) [
  | inl e ↦ absurd (omega (arith, first_free-none p.available p.count o.sized e, o.counted))
  | inr (i, e) ↦
      let (free, _, inside) = first_free_sound p.count 0 p.available i e in
      (
        i,
        omega arith,
        rw e,
        rw e (acquire-Owned p.count p.available held i o (omega arith) free),
        rw e,
        rw e,
      )
]

-- `release` of the latest hold.
pub release-IsOwned_head :
    (p : BufferPool) (held : List ℕ) (i : ℕ)
    → IsOwned p (i ∷ held)
    → IsOwned (release p (pos i)) held
release-IsOwned_head p held i o =
    subst (λ h. IsOwned (release p (pos i)) h) (remove_head i held)
      (releases-IsOwned p (i ∷ held) i (inl refl) o)

get_or-alloc_from :
    (alloc : ℕ → ℕ) (i n j : ℕ) → j < n → get_or (alloc_from alloc i n) j 0 ≡ alloc (i + j)
unfolding alloc_from
get_or-alloc_from alloc i zero j h = absurd (omega arith)
get_or-alloc_from alloc i (suc n) zero h = ap alloc (omega arith)
get_or-alloc_from alloc i (suc n) (suc j) h =
    get_or-alloc_from alloc (suc i) n j (omega arith) ∙ ap alloc (omega arith)

-- The buffers of a new pool are those that were allocated.
pub get_or-new :
    (alloc : ℕ → ℕ) (count size j : ℕ)
    → j < count
    → get_or (new alloc count size).buffers j 0 ≡ alloc j
get_or-new alloc count size j h =
    unfold new in get_or-alloc_from alloc 0 count j h ∙ ap alloc (omega arith)
