-- ===== src/SizeStats/Tests.antt =====
-- include/common.hpp, `SizeStats`: its properties on a small scan.
use uring_sync.Base.{refl, ℕ, ◌≡◌, ◌≤◌, List, [], ◌∷◌, length}
use uring_sync.SizeStats.{SizeStats, new, observe_all, pick_chunk_size}
use uring_sync.SizeStats.Share.{chunk_by_share, pick_chunk_size_lem}
use uring_sync.SizeStats.Bounds.{observe_all-samples}

abbrev sizes : List ℕ
sizes = 4096 ∷ 70000 ∷ 10 ∷ []

observe_all-samples_example :
    ((observe_all new sizes).samples ≡ sizes)
    × ((observe_all new sizes).file_count ≡ 3)
    × (length (observe_all new sizes).samples ≤ 200)
observe_all-samples_example = observe_all-samples sizes

-- Nine of ten samples are small, which is not more than nine in ten.
abbrev scanned : SizeStats
scanned = record {
  samples = 10 ∷ 20 ∷ 30 ∷ 40 ∷ 50 ∷ 60 ∷ 70 ∷ 80 ∷ 90 ∷ 200000 ∷ [];
  file_count = 10;
}

pick_chunk_size_lem_example : pick_chunk_size scanned ≡ chunk_by_share scanned.samples
pick_chunk_size_lem_example = pick_chunk_size_lem scanned

not_enough_are_small : chunk_by_share scanned.samples ≡ 262144
not_enough_are_small = refl
