-- ===== src/Platform.antt =====
-- src/platform/: resource limits and the unit of the memory that a process used.
-- `src/platform/memory_limit_linux.c` and `src/platform/memory_limit_darwin.c` are the two ways to
-- build the program. A hard limit of RLIM_INFINITY is `none`.
use embla.Prelude.{
  ℕ, ◌≤◌, ◌≡◌, ◌⊎◌, Bool, true, false, Option, none, some, arith, ltb, if◌then◌else◌, ℤ, scale,
}

pub data Platform : Type 0 where
  linux darwin : Platform

-- The limit that `platform_apply_rlimit` asks for, from the hard limit that is in force.
unfoldable pub effective : (requested : ℕ) → (current_max : Option ℕ) → ℕ
effective requested none = requested
effective requested (some most) = if ltb most requested then most else requested

unfoldable pub memory_limit_supported : Platform → Bool
memory_limit_supported linux = true
memory_limit_supported darwin = false

unfoldable pub normalize_max_rss : Platform → ℤ → ℤ
normalize_max_rss linux raw = scale raw 1024
normalize_max_rss darwin raw = raw

-- A limit is never above what was asked for nor above the hard limit in force, and it is one of
-- the two.
effective_bounds :
    (requested most : ℕ)
    → (effective requested (some most) ≤ requested)
      × (effective requested (some most) ≤ most)
      × ((effective requested (some most) ≡ requested) ⊎ (effective requested (some most) ≡ most))
unfolding effective
effective_bounds requested most = ground arith
