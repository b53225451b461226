-- ===== src/Main/Local/Options.antt =====
-- src/main.cpp: the options, and the sizes that they leave.

use uring_sync.Base.{
  ℕ, zero, suc, ◌^◌, ◌<◌, ◌≡◌, refl, List, [], ◌∷◌, true, ◌&&◌, not, ◌==◌, arith, Bool-cases, inl,
  inr, ◌⊎◌,
}
use uring_sync.Base.Int.{ℤ, pos, negsuc}
use uring_sync.SizeStats.{SizeStats, no_samples}
use uring_sync.SizeStats.Bounds.{pick_chunk_size_bounds}
use uring_sync.FileCopy.Types.{Config}
use uring_sync.Main.Numbers.{atoi, atoi-bounds}
use uring_sync.Main.Local.{
  Opt, Configured, configured, returns, jobs, chunk_size, queue_depth, defaults, checked, option,
  options, tuned, manned,
}

-- Sizes that the pools, the ring and the copy can use: positive numbers of 31 bits.
pub record IsValid (cfg : Config) : Type 0 where
  pub workers : (0 < cfg.num_workers) × (cfg.num_workers < 2 ^ 31)
  pub depth : (0 < cfg.queue_depth) × (cfg.queue_depth < 2 ^ 31)
  pub chunk : (0 < cfg.chunk_size) × (cfg.chunk_size < 2 ^ 31)

abbrev pub ValidConfigured : Configured → Type 0
ValidConfigured (configured cfg) = IsValid cfg
ValidConfigured (returns code) = Unit

pub defaults-IsValid : IsValid defaults
defaults-IsValid = record {
  workers = (omega arith, omega arith);
  depth = (omega arith, omega arith);
  chunk = (omega arith, omega arith);
}

checked-Valid :
    (with_value : ℕ → Config) (z : ℤ)
    → ((n : ℕ) → z ≡ pos n → n < 2 ^ 31)
    → ((n : ℕ) → 0 < n → n < 2 ^ 31 → IsValid (with_value n))
    → ValidConfigured (checked with_value z)
checked-Valid with_value (negsuc n) small valid = tt
checked-Valid with_value (pos zero) small valid = tt
checked-Valid with_value (pos (suc n)) small valid =
    valid (suc n) (omega arith) (small (suc n) refl)

option-Valid : (opt : Opt) (cfg : Config) → IsValid cfg → ValidConfigured (option opt cfg)
option-Valid (jobs arg) cfg v =
    checked-Valid (λ n. record cfg { num_workers = n }) (atoi arg) (atoi-bounds arg)
      (λ n p s. record { workers = (p, s); depth = v.depth; chunk = v.chunk })
option-Valid (chunk_size arg) cfg v =
    checked-Valid (λ n. record cfg { chunk_size = n; chunk_size_set = true }) (atoi arg)
      (atoi-bounds arg) (λ n p s. record { workers = v.workers; depth = v.depth; chunk = (p, s) })
option-Valid (queue_depth arg) cfg v =
    checked-Valid (λ n. record cfg { queue_depth = n }) (atoi arg) (atoi-bounds arg)
      (λ n p s. record { workers = v.workers; depth = (p, s); chunk = v.chunk })
option-Valid Opt.help cfg v = tt
option-Valid Opt.unknown cfg v = tt
option-Valid _ cfg v = record { workers = v.workers; depth = v.depth; chunk = v.chunk }

Configured-cases :
    (o : Configured) → ((cfg : Config) × (o ≡ configured cfg)) ⊎ ((code : ℕ) × (o ≡ returns code))
Configured-cases (configured cfg) = inl (cfg, refl)
Configured-cases (returns code) = inr (code, refl)

pub options-Valid :
    (opts : List Opt) (cfg : Config) → IsValid cfg → ValidConfigured (options opts cfg)
unfolding options
options-Valid [] cfg v = v
options-Valid (opt ∷ opts) cfg v =
    let next = option-Valid opt cfg v in
    elim (Configured-cases (option opt cfg)) [
      | inl (cfg', e) ↦ rw (e, options) (options-Valid opts cfg' (rw e at next))
      | inr (code, e) ↦ rw (e, options) tt
    ]

pub with_paths-IsValid :
    (src dst : List ℕ) (cfg : Config)
    → IsValid cfg
    → IsValid (record cfg { src_path = src; dst_path = dst })
with_paths-IsValid src dst cfg v = record { workers = v.workers; depth = v.depth; chunk = v.chunk }

pub tuned-IsValid : (stats : SizeStats) (cfg : Config) → IsValid cfg → IsValid (tuned stats cfg)
tuned-IsValid stats cfg v =
    elim (Bool-cases (not cfg.chunk_size_set && not (no_samples stats.samples))) [
      | inl e ↦
          let (low, high, _) = pick_chunk_size_bounds stats in
          rw e (record { workers = v.workers; depth = v.depth; chunk = (omega arith, omega arith) })
      | inr e ↦ rw e v
    ]

pub manned-IsValid : (cfg : Config) → IsValid cfg → IsValid (manned cfg)
manned-IsValid cfg v = elim (Bool-cases (cfg.num_workers == 0)) [
  | inl e ↦ rw e (record { workers = (omega arith, omega arith); depth = v.depth; chunk = v.chunk })
  | inr e ↦ rw e v
]
