-- ===== src/Pools/Slots.antt =====
-- include/common.hpp: what both pools do with their `std::vector<bool> available_`.
use uring_sync.Base.{
  ℕ, zero, suc, ◌+◌, ◌<◌, ◌≤◌, ◌≡◌, refl, List, [], ◌∷◌, Bool, true, false, Option, none, some,
  if◌then◌else◌, get_or, set, length, arith, ltb, replicate, ℕ_discrete, dec_lt, get_or_beyond,
}
use uring_sync.Base.Int.{ℤ, pos, negsuc}

-- `for (size_t i = 0; i < count_; i++) if (available_[i])`, from `i` with `n` rounds left.
unfoldable pub first_free : ℕ → ℕ → List Bool → Option ℕ
first_free zero i available = none
first_free (suc n) i available =
    let rest = first_free n (suc i) available in if get_or available i false then some i else rest

-- `if (index >= 0 && index < static_cast<int>(count_)) available_[index] = true;`
unfoldable pub free_slot : ℕ → ℤ → List Bool → List Bool
free_slot count (pos index) available =
    if ltb index count then set available index true else available
free_slot count (negsuc n) available = available

-- `for (bool a : available_) if (a) count++;`
unfoldable pub count_free : List Bool → ℕ → ℕ
count_free [] count = count
count_free (a ∷ rest) count = count_free rest (if a then count + 1 else count)

-- The slots that are free, without the counter.
abbrev pub free_slots : List Bool → ℕ
free_slots [] = 0
free_slots (a ∷ rest) = (if a then 1 else 0) + free_slots rest

pub count_free-eq-free_slots :
    (available : List Bool) (count : ℕ) → count_free available count ≡ count + free_slots available
unfolding count_free
count_free-eq-free_slots [] count = omega arith
count_free-eq-free_slots (true ∷ rest) count =
    omega (arith, count_free-eq-free_slots rest (count + 1))
count_free-eq-free_slots (false ∷ rest) count = omega (arith, count_free-eq-free_slots rest count)

-- The slot that the loop stops at is free, and lies in the range that the loop covers.
pub first_free_sound :
    (n i : ℕ) (available : List Bool) (k : ℕ)
    → first_free n i available ≡ some k
    → (get_or available k false ≡ true) × (i ≤ k) × (k < i + n)
unfolding first_free
first_free_sound zero i available k h = cc
first_free_sound (suc n) i available k h = ground (arith, first_free_sound n (suc i) available k)

-- Where the loop finds nothing, no slot of its range is free.
pub first_free_complete :
    (n i : ℕ) (available : List Bool)
    → first_free n i available ≡ none
    → (k : ℕ) → i ≤ k
    → k < i + n
    → get_or available k false ≡ false
unfolding first_free
first_free_complete zero i available h k p q = absurd (omega arith)
first_free_complete (suc n) i available h k p q = elim (ℕ_discrete k i) [
  | yes e ↦ rw e (ground arith)
  | no e ↦ first_free_complete n (suc i) available (ground arith) k (omega arith) (omega arith)
]

pub in_range :
    (available : List Bool) (k : ℕ) → get_or available k false ≡ true → k < length available
in_range [] k h = cc
in_range (a ∷ rest) zero h = omega arith
in_range (a ∷ rest) (suc k) h = omega (arith, in_range rest k h)

pub no_free-none :
    (available : List Bool)
    → ((k : ℕ) → get_or available k false ≡ false)
    → free_slots available ≡ 0
no_free-none [] h = refl
no_free-none (a ∷ rest) h = ground (arith, h 0, no_free-none rest (λ k. h (suc k)))

pub free_slots-set-false :
    (available : List Bool) (k : ℕ)
    → get_or available k false ≡ true
    → free_slots (set available k false) + 1 ≡ free_slots available
free_slots-set-false [] k h = cc
free_slots-set-false (a ∷ rest) zero h = ground arith
free_slots-set-false (a ∷ rest) (suc k) h = omega (arith, free_slots-set-false rest k h)

pub free_slots-set-true :
    (available : List Bool) (k : ℕ)
    → k < length available
    → get_or available k false ≡ false
    → free_slots (set available k true) ≡ free_slots available + 1
free_slots-set-true [] k h e = absurd (omega arith)
free_slots-set-true (a ∷ rest) zero h e = ground arith
free_slots-set-true (a ∷ rest) (suc k) h e =
    omega (arith, free_slots-set-true rest k (omega arith) e)

pub free_slots-replicate : (n : ℕ) → free_slots (replicate n true) ≡ n
free_slots-replicate zero = refl
free_slots-replicate (suc n) = omega (arith, free_slots-replicate n)

-- Over all of the slots, the loop finds none exactly when none is free.
pub first_free-none :
    (available : List Bool) (count : ℕ)
    → length available ≡ count
    → first_free count 0 available ≡ none
    → free_slots available ≡ 0
first_free-none available count s e = no_free-none available taken
  where
    taken : (k : ℕ) → get_or available k false ≡ false
    taken k = elim (dec_lt k count) [
      | yes h ↦ first_free_complete count 0 available e k (omega arith) (omega arith)
      | no h ↦ get_or_beyond available k false (omega arith)
    ]
