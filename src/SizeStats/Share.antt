-- ===== src/SizeStats/Share.antt =====
-- include/common.hpp, `SizeStats`: the chunk size, from the share of small files among the samples.
use uring_sync.Base.{
  ℕ, zero, suc, ◌*◌, ◌<◌, ◌≤◌, ◌≡◌, refl, ap, ◌∙◌, List, [], ◌∷◌, Bool, false, leb, ltb, length,
  get_or, arith, All, if◌then◌else◌, Bool-cases, inl, inr,
}
use uring_sync.SizeStats.{SizeStats, percentile, pick_chunk_size, chunk_for, no_samples}
use uring_sync.SizeStats.Sorting.{IsSorted, sort, sort-IsSorted, length-sort, at_most, at_most-sort}
use uring_sync.SizeStats.Bounds.{rank, rank_inside, percentile-rank}

none_below : (t x : ℕ) (xs : List ℕ) → t < x → All (λ y. x ≤ y) xs → at_most t xs ≡ 0
none_below t x [] h a = refl
none_below t x (y ∷ ys) h a =
    let less : leb y t ≡ false = ground (arith, a.0) in
    let rest = none_below t x ys h a.1 in rw less (omega (arith, rest))

-- In a sorted list the items up to a bound are those in front.
leb-get_or :
    (t : ℕ) (xs : List ℕ) (i : ℕ)
    → IsSorted xs
    → i < length xs
    → leb (get_or xs i 0) t ≡ ltb i (at_most t xs)
leb-get_or t [] i s h = absurd (omega arith)
leb-get_or t (x ∷ xs) zero s h = elim (Bool-cases (leb x t)) [
  | inl e ↦ rw e (ground arith)
  | inr e ↦ let none = none_below t x xs (ground arith) s.0 in rw (e, none) refl
]
leb-get_or t (x ∷ xs) (suc i) s h =
    let ih = leb-get_or t xs i s.1 (omega arith) in
    elim (Bool-cases (leb x t)) [
      | inl e ↦ rw (e, ih) (ground arith)
      | inr e ↦ let none = none_below t x xs (ground arith) s.0 in rw (e, ih, none) (ground arith)
    ]

-- More than nine in ten of the items are at most `t`.
abbrev pub nine_in_ten : ℕ → List ℕ → Bool
nine_in_ten t xs = ltb (9 * length xs) (10 * at_most t xs)

-- The chunk size that the shares ask for, without an order of the samples.
abbrev pub chunk_by_share : List ℕ → ℕ
chunk_by_share xs =
    if no_samples xs
    then 131072
    else if nine_in_ten 32768 xs
    then 65536
    else if nine_in_ten 131072 xs
    then 131072
    else if nine_in_ten 524288 xs
    then 262144
    else if nine_in_ten 2097152 xs
    then 524288
    else 1048576

ninety : (n c : ℕ) → 0 < n → ltb (rank n 90) c ≡ ltb (9 * n) (10 * c)
ninety n c h = ground arith

-- The 90th percentile is at most `t` exactly if more than nine in ten samples are.
leb-percentile :
    (s : SizeStats) (t : ℕ)
    → no_samples s.samples ≡ false
    → leb (percentile s 90) t ≡ nine_in_ten t s.samples
leb-percentile s t h =
    let xs = s.samples in
    let i = rank (length xs) 90 in
    let (e, some_sample) = percentile-rank s 90 h in
    let inside : i < length (sort xs) =
      omega (arith, length-sort xs, rank_inside (length xs) 90 some_sample) in
    let same : ltb i (at_most t xs) ≡ nine_in_ten t xs =
      ninety (length xs) (at_most t xs) some_sample in
    let found = leb-get_or t (sort xs) i (sort-IsSorted xs) inside in
    ap (λ p. leb p t) e ∙ found ∙ ap (ltb i) (at_most-sort t xs) ∙ same

from_percentile :
    (s : SizeStats) → no_samples s.samples ≡ false → pick_chunk_size s ≡ chunk_for (percentile s 90)
unfolding pick_chunk_size percentile
from_percentile s h = rw h refl

from_shares :
    (s : SizeStats)
    → no_samples s.samples ≡ false
    → chunk_for (percentile s 90) ≡ chunk_by_share s.samples
from_shares s h =
    rw
      (
        h,
        leb-percentile s 32768 h,
        leb-percentile s 131072 h,
        leb-percentile s 524288 h,
        leb-percentile s 2097152 h,
      )
      refl

-- The chunk size is the smallest of the ladder, 64, 128, 256 and 512 KiB, for which more than nine in
-- ten of the samples are at most 32 KiB, 128 KiB, 512 KiB and 2 MiB, and 1 MiB if there is none; without
-- samples it is 128 KiB.
pub pick_chunk_size_lem : (s : SizeStats) → pick_chunk_size s ≡ chunk_by_share s.samples
unfolding pick_chunk_size
pick_chunk_size_lem s = elim (Bool-cases (no_samples s.samples)) [
  | inl e ↦ rw e refl
  | inr e ↦ from_percentile s e ∙ from_shares s e
]
