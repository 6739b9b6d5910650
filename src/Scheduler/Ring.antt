-- ===== src/Scheduler/Ring.antt =====
-- The segment of a ring of sixteen slots that starts at a position, oldest first.
use embla.Prelude.{
  ℕ, zero, suc, ◌+◌, ◌%◌, ◌<◌, ◌≡◌, refl, ap, ap₂, ◌∙◌, ◌≢◌, List, [], ◌∷◌, ◌++◌, arith, update,
  update_ne, zero-add, add-zero, suc-add,
}

-- `n` entries from position `a` on; positions are taken modulo 16.
abbrev pub ring : (ℕ → ℕ) → ℕ → ℕ → List ℕ
ring q a zero = []
ring q a (suc n) = q (a % 16) ∷ ring q (suc a) n

pub ring-append : (q : ℕ → ℕ) (a m n : ℕ) → ring q a (m + n) ≡ ring q a m ++ ring q (a + m) n
ring-append q a zero n = simp (zero-add, add-zero)
ring-append q a (suc m) n = rw suc-add (
    ap (◌∷◌ (q (a % 16)))
      (ring-append q (suc a) m n ∙ ap (λ b. ring q (suc a) m ++ ring q b n) (omega arith)))

-- A write to a slot that the segment does not cover leaves it alone.
pub ring-update :
    (q : ℕ → ℕ) (a n j v : ℕ)
    → ((k : ℕ) → k < n → j ≢ (a + k) % 16)
    → ring (update q j v) a n ≡ ring q a n
ring-update q a zero j v h = refl
ring-update q a (suc n) j v h =
    ap₂ ◌∷◌ (update_ne q j (a % 16) v (omega (arith, h 0)))
      (ring-update q (suc a) n j v (λ k lt. omega (arith, h (suc k) (omega arith))))

pub ring-mod : (q : ℕ → ℕ) (a b n : ℕ) → a % 16 ≡ b % 16 → ring q a n ≡ ring q b n
ring-mod q a b zero h = refl
ring-mod q a b (suc n) h = ap₂ ◌∷◌ (ap q h) (ring-mod q (suc a) (suc b) n (omega arith))

-- Sixteen consecutive positions fall on different slots.
pub slots_differ : (a j k : ℕ) → j < 16 → k < 16 → j ≢ k → (a + j) % 16 ≢ (a + k) % 16
slots_differ a j k hj hk ne = omega arith
