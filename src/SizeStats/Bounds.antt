-- ===== src/SizeStats/Bounds.antt =====
-- include/common.hpp, `SizeStats`: memory stays bounded, and the chosen sizes are sensible.
use uring_sync.Base.{
  ℕ, suc, ◌+◌, ◌-◌, ◌*◌, ◌/◌, ◌%◌, ◌<◌, ◌≤◌, ◌≡◌, ap, sym, ◌∙◌, subst, max, min, List, [], ◌∷◌,
  ◌++◌, true, false, length, take, take-nil, length-take, get_or, leb, ltb, ◌==◌, if◌then◌else◌,
  arith, All, Bool-cases, inl, inr, append_assoc, append-nil, length-append, dec_le,
}
use uring_sync.SizeStats.{
  SizeStats, new, observe, observe_all, percentile, pick_chunk_size, no_samples, chunk_for,
}
use uring_sync.SizeStats.Sorting.{
  sort, sort-IsSorted, All-sort, length-sort, All-get_or, IsSorted-get_or,
}

-- The sampling test passes at file numbers 21 to 200.
sampled : (n : ℕ) → 20 < n → n ≤ 200 → (n % max 1 (n / 100) == 0) ≡ true
sampled n h k = elim (dec_le n 199) [
  | yes l ↦ let one : max 1 (n / 100) ≡ 1 = omega arith in rw one (ground arith)
  | no l ↦ let last : n ≡ 200 = omega arith in rw last
]

-- One file: it is sampled exactly while fewer than 200 were seen.
observe-samples :
    (s : SizeStats) (size : ℕ)
    → length s.samples ≡ min s.file_count 200
    → observe s size ≡ record {
      samples = if ltb s.file_count 200 then s.samples ++ size ∷ [] else s.samples;
      file_count = s.file_count + 1;
    }
unfolding observe
observe-samples s size h = elim (dec_le (s.file_count + 1) 20) [
  | yes l ↦ ground arith
  | no l ↦ elim (dec_le (s.file_count + 1) 200) [
    | yes k ↦ ground (arith, sampled (s.file_count + 1))
    | no k ↦ ground arith
  ]
]

-- The state after the first file of a scan that starts at `s` leads to the right end.
abbrev Scanned : SizeStats → List ℕ → SizeStats → Type 0
Scanned s [] t = Unit
Scanned s (size ∷ sizes) t =
    ((observe_all t sizes).samples ≡ s.samples ++ take (200 - s.file_count) (size ∷ sizes))
    × ((observe_all t sizes).file_count ≡ s.file_count + suc (length sizes))

observe_all-from :
    (s : SizeStats) (sizes : List ℕ)
    → length s.samples ≡ min s.file_count 200
    → ((observe_all s sizes).samples ≡ s.samples ++ take (200 - s.file_count) sizes)
      × ((observe_all s sizes).file_count ≡ s.file_count + length sizes)
unfolding observe_all
observe_all-from s [] h = (rw (take-nil, append-nil), omega arith)
observe_all-from s (size ∷ sizes) h = elim (Bool-cases (ltb s.file_count 200)) [
  | inl e ↦
      let t : SizeStats = record {
        samples = s.samples ++ size ∷ [];
        file_count = s.file_count + 1;
      } in
      let next : observe s size ≡ t = observe-samples s size h ∙ (rw e) in
      let left : 200 - s.file_count ≡ suc (200 - (s.file_count + 1)) = ground arith in
      let ih = observe_all-from t sizes (ground (arith, length-append s.samples (size ∷ []))) in
      subst (Scanned s (size ∷ sizes)) (sym next) (
        rw left (ih.0 ∙ append_assoc s.samples (size ∷ []) (take (200 - (s.file_count + 1)) sizes)),
        omega (arith, ih.1),
      )
  | inr e ↦
      let t : SizeStats = record { samples = s.samples; file_count = s.file_count + 1 } in
      let next : observe s size ≡ t = observe-samples s size h ∙ (rw e) in
      let none : 200 - s.file_count ≡ 0 = ground arith in
      let later : 200 - (s.file_count + 1) ≡ 0 = ground arith in
      let ih = observe_all-from t sizes (ground arith) in
      subst (Scanned s (size ∷ sizes)) (sym next)
        (rw none (rw later at (ih.0)), omega (arith, ih.1))
]

-- After a scan the samples are the sizes of the first 200 files, in order, and no others, and
-- `file_count` is the number of files. So never more than 200 samples are kept.
pub observe_all-samples :
    (sizes : List ℕ)
    → ((observe_all new sizes).samples ≡ take 200 sizes)
      × ((observe_all new sizes).file_count ≡ length sizes)
      × (length (observe_all new sizes).samples ≤ 200)
unfolding new
observe_all-samples sizes =
    let (first, counted) = observe_all-from new sizes (omega arith) in
    (first, omega (arith, counted), omega (arith, ap length first, length-take 200 sizes))

-- The index that `percentile` reads.
abbrev pub rank : ℕ → ℕ → ℕ
rank n pct = if leb n (n * pct / 100) then n - 1 else n * pct / 100

pub rank_inside : (n pct : ℕ) → 0 < n → rank n pct < n
rank_inside n pct h = ground arith

rank_mono : (n p q : ℕ) → p ≤ q → rank n p ≤ rank n q
rank_mono n p q h = let more : n * p ≤ n * q = grind arith in ground arith

nonempty : (xs : List ℕ) → no_samples xs ≡ false → 0 < length xs
nonempty [] h = cc
nonempty (x ∷ xs) h = omega arith

pub percentile-rank :
    (s : SizeStats) (pct : ℕ)
    → no_samples s.samples ≡ false
    → (percentile s pct ≡ get_or (sort s.samples) (rank (length s.samples) pct) 0)
      × (0 < length s.samples)
unfolding percentile
percentile-rank s pct h = (rw (h, length-sort s.samples), nonempty s.samples h)

-- With at least one sample, a percentile has every property that all samples have.
pub percentile-All :
    (P : ℕ → Type 0) (s : SizeStats) (pct : ℕ)
    → no_samples s.samples ≡ false
    → All P s.samples
    → P (percentile s pct)
percentile-All P s pct h a =
    let (e, some_sample) = percentile-rank s pct h in
    rw e (
      All-get_or P (sort s.samples) (rank (length s.samples) pct) 0 (All-sort P s.samples a)
        (omega (arith, length-sort s.samples, rank_inside (length s.samples) pct)))

-- A higher percentile is not smaller.
pub percentile_mono : (s : SizeStats) (p q : ℕ) → p ≤ q → percentile s p ≤ percentile s q
unfolding percentile
percentile_mono s p q h = elim (Bool-cases (no_samples s.samples)) [
  | inl e ↦ rw e (omega arith)
  | inr e ↦
      rw (e, length-sort s.samples)
        (IsSorted-get_or (sort s.samples) (rank (length s.samples) p) (rank (length s.samples) q) 0
          (sort-IsSorted s.samples) (rank_mono (length s.samples) p q h)
          (omega (
            arith,
            length-sort s.samples,
            rank_inside (length s.samples) q (nonempty s.samples e),
          )))
]

chunk_for_mono : (a b : ℕ) → a ≤ b → chunk_for a ≤ chunk_for b
chunk_for_mono a b h = ground arith

-- The chosen chunk size is a multiple of 64 KiB from 64 KiB to 1 MiB.
pub pick_chunk_size_bounds :
    (s : SizeStats)
    → (64 * 1024 ≤ pick_chunk_size s)
      × (pick_chunk_size s ≤ 1024 * 1024)
      × (pick_chunk_size s % (64 * 1024) ≡ 0)
unfolding pick_chunk_size
pick_chunk_size_bounds s = ground arith
