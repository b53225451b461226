-- ===== src/Pools/Owners.antt =====
-- include/common.hpp: who holds which slot of a pool. `held` lists the indices that were handed out
-- and not given back.
use uring_sync.Base.{
  ℕ, ◌+◌, ◌<◌, ◌≡◌, ◌≢◌, refl, ap, sym, List, [], ◌∷◌, Bool, true, false, get_or, set, length,
  arith, All, length-set, get_or-set_self, get_or-set_ne, if◌then◌else◌, ◌==◌, replicate,
  length-replicate, false≢true, ◌∙◌, ◌⊎◌, inl, inr, subst, Bool-cases, ==_iff,
}
use uring_sync.Pools.Slots.{
  free_slots, free_slots-set-false, free_slots-set-true, free_slots-replicate,
}

abbrev pub Fresh : ℕ → List ℕ → Type 0
Fresh k held = All (λ j. j ≢ k) held

abbrev pub Distinct : List ℕ → Type 0
Distinct [] = Unit
Distinct (k ∷ held) = Fresh k held × Distinct held

abbrev pub Holds : ℕ → List ℕ → Type 0
Holds k [] = ⊥
Holds k (j ∷ held) = (j ≡ k) ⊎ Holds k held

abbrev pub remove : ℕ → List ℕ → List ℕ
remove k [] = []
remove k (j ∷ held) = if j == k then held else j ∷ remove k held

pub remove_head : (k : ℕ) (held : List ℕ) → remove k (k ∷ held) ≡ held
remove_head k held = rw ((==_iff k k).1 refl)

abbrev pub Taken : List Bool → ℕ → Type 0
Taken available k = (k < length available) × (get_or available k false ≡ false)

pub record Owned (count : ℕ) (available : List Bool) (held : List ℕ) : Type 0 where
  pub sized : length available ≡ count
  pub taken : All (Taken available) held
  pub distinct : Distinct held
  pub counted : free_slots available + length held ≡ count

-- Every slot of a new pool is free.
pub new-Owned : (n : ℕ) → Owned n (replicate n true) []
new-Owned n = record {
  sized = length-replicate n true;
  taken = tt;
  distinct = tt;
  counted = omega (arith, free_slots-replicate n);
}

Taken-Fresh :
    (available : List Bool) (k : ℕ) (held : List ℕ)
    → get_or available k false ≡ true
    → All (Taken available) held
    → Fresh k held
Taken-Fresh available k [] h t = tt
Taken-Fresh available k (j ∷ held) h t = (
  (λ e. false≢true (sym t.0.1 ∙ ap (λ i. get_or available i false) e ∙ h)),
  Taken-Fresh available k held h t.1,
)

Taken-set :
    (available : List Bool) (k : ℕ) (b : Bool) (held : List ℕ)
    → Fresh k held
    → All (Taken available) held
    → All (Taken (set available k b)) held
Taken-set available k b [] f t = tt
Taken-set available k b (j ∷ held) f t = (
  (
    omega (arith, length-set available k b, t.0.0),
    get_or-set_ne available k j b false (λ e. f.0 (sym e)) ∙ t.0.1,
  ),
  Taken-set available k b held f.1 t.1,
)

pub acquire-Owned :
    (count : ℕ) (available : List Bool) (held : List ℕ) (k : ℕ)
    → Owned count available held
    → k < count
    → get_or available k false ≡ true
    → Owned count (set available k false) (k ∷ held)
acquire-Owned count available held k o h free = record {
  sized = length-set available k false ∙ o.sized;
  taken = (
    (
      omega (arith, length-set available k false, o.sized),
      get_or-set_self available k false false (omega (arith, o.sized)),
    ),
    Taken-set available k false held (Taken-Fresh available k held free o.taken) o.taken,
  );
  distinct = (Taken-Fresh available k held free o.taken, o.distinct);
  counted = omega (arith, free_slots-set-false available k free, o.counted);
}

Fresh-remove : (i k : ℕ) (held : List ℕ) → Fresh i held → Fresh i (remove k held)
Fresh-remove i k [] f = tt
Fresh-remove i k (j ∷ held) f = ground (arith, Fresh-remove i k held)

Distinct-remove : (k : ℕ) (held : List ℕ) → Distinct held → Distinct (remove k held)
Distinct-remove k [] d = tt
Distinct-remove k (j ∷ held) d = ground (arith, Distinct-remove k held, Fresh-remove j k held)

remove-Fresh : (k : ℕ) (held : List ℕ) → Distinct held → Fresh k (remove k held)
remove-Fresh k [] d = tt
remove-Fresh k (j ∷ held) d = elim (Bool-cases (j == k)) [
  | inl e ↦ rw e (subst (λ i. Fresh i held) ((==_iff j k).0 e) d.0)
  | inr e ↦ rw e ((λ p. false≢true (sym e ∙ (==_iff j k).1 p)), remove-Fresh k held d.1)
]

All-remove : (P : ℕ → Type 0) (k : ℕ) (held : List ℕ) → All P held → All P (remove k held)
All-remove P k [] a = tt
All-remove P k (j ∷ held) a = elim (Bool-cases (j == k)) [
  | inl e ↦ rw e (a.1)
  | inr e ↦ rw e (a.0, All-remove P k held a.1)
]

length-remove : (k : ℕ) (held : List ℕ) → Holds k held → length (remove k held) + 1 ≡ length held
length-remove k [] h = absurd h
length-remove k (j ∷ held) h = ground (arith, length-remove k held)

Holds-All : (P : ℕ → Type 0) (k : ℕ) (held : List ℕ) → Holds k held → All P held → P k
Holds-All P k [] h a = absurd h
Holds-All P k (j ∷ held) (inl e) a = subst P e a.0
Holds-All P k (j ∷ held) (inr h) a = Holds-All P k held h a.1

pub release-Owned :
    (count : ℕ) (available : List Bool) (held : List ℕ) (k : ℕ)
    → Owned count available held
    → Holds k held
    → Owned count (set available k true) (remove k held)
release-Owned count available held k o h =
    let t = Holds-All (Taken available) k held h o.taken in
    record {
      sized = length-set available k true ∙ o.sized;
      taken =
          Taken-set available k true (remove k held) (remove-Fresh k held o.distinct)
            (All-remove (Taken available) k held o.taken);
      distinct = Distinct-remove k held o.distinct;
      counted =
          omega (arith, free_slots-set-true available k t.0 t.1, o.counted, length-remove k held h);
    }

-- A held index is in the range that `release` accepts.
pub held_inside :
    (count : ℕ) (available : List Bool) (held : List ℕ) (k : ℕ)
    → Owned count available held
    → Holds k held
    → k < count
held_inside count available held k o h =
    omega (arith, (Holds-All (Taken available) k held h o.taken).0, o.sized)
