-- ===== src/AuthGate/Attempts/Backoff.antt =====
-- How long a lockout lasts.
use native.Mathlib.Nat.{mul_comm, mul_assoc}
use native.Mathlib.Omega.{pow_step}
use router_docker.Prelude.{
  ℕ, zero, suc, ◌-◌, ◌*◌, ◌^◌, ◌%◌, ◌≤◌, ◌<◌, ◌≡◌, refl, sym, ltb, if◌then◌else◌, arith, min,
  Bool-cases, inl, inr,
}
use router_docker.AuthGate.Attempts.{lockout_base, lockout_max, int64_ltb, doubled, backoff_of}

int64_ltb-small : (a b : ℕ) → a < 2 ^ 63 → b < 2 ^ 63 → int64_ltb a b ≡ ltb a b
unfolding int64_ltb
int64_ltb-small a b ha hb = ground arith

doubled-suc :
    (k b : ℕ)
    → b < 2 * lockout_max
    → doubled (suc k) b ≡ (if ltb b lockout_max then doubled k (b * 2) else b)
unfolding doubled
doubled-suc k b h =
    let low : b < 2 ^ 63 = omega arith in
    let exact : b * 2 % 2 ^ 64 ≡ b * 2 = omega arith in
    rw (int64_ltb-small b lockout_max low (omega arith)) (rw exact refl)

pow-pos : (k : ℕ) → 1 ≤ 2 ^ k
pow-pos zero = omega arith
pow-pos (suc k) = omega (arith, pow_step 2 k, pow-pos k)

grown : (b q : ℕ) → 1 ≤ q → b ≤ b * q
grown b zero h = absurd (omega arith)
grown b (suc q) h = ground (arith, mul_comm b (suc q))

-- the loop doubles until the limit is reached
doubled-min :
    (k b : ℕ)
    → 1 ≤ b
    → b < 2 * lockout_max
    → min (doubled k b) lockout_max ≡ min (b * 2 ^ k) lockout_max
unfolding doubled
doubled-min zero b h1 h2 = omega arith
doubled-min (suc k) b h1 h2 = elim (Bool-cases (ltb b lockout_max)) [
  | inl more ↦ rw (doubled-suc k b h2) (
      rw more (
        rw (pow_step 2 k)
          (rw (sym (mul_assoc b 2 (2 ^ k))) (doubled-min k (b * 2) (omega arith) (ground arith)))))
  | inr enough ↦
      let big = grown b (2 ^ suc k) (pow-pos (suc k)) in
      rw (doubled-suc k b h2) (rw enough (ground arith))
]

doubled-below : (k b : ℕ) → 1 ≤ b → b < 2 * lockout_max → doubled k b < 2 * lockout_max
doubled-below zero b h1 h2 = unfold doubled in h2
doubled-below (suc k) b h1 h2 = elim (Bool-cases (ltb b lockout_max)) [
  | inl more ↦
      rw (doubled-suc k b h2) (rw more (doubled-below k (b * 2) (omega arith) (ground arith)))
  | inr enough ↦ rw (doubled-suc k b h2) (rw enough h2)
]

-- The backoff after any number of failures is five seconds, doubled once for each failure beyond
-- the fifth, and five minutes at most: nothing overflows on the way.
pub backoff_of-eq :
    (failures : ℕ) → backoff_of failures ≡ min (lockout_base * 2 ^ (failures - 5)) lockout_max
unfolding backoff_of
backoff_of-eq failures =
    let k = failures - 5 in
    let b = doubled k lockout_base in
    let below : b < 2 * lockout_max = doubled-below k lockout_base (omega arith) (omega arith) in
    rw (int64_ltb-small b lockout_max (omega arith) (omega arith))
      (ground (arith, doubled-min k lockout_base (omega arith) (omega arith)))

pub backoff_of-bounds : (n : ℕ) → (lockout_base ≤ backoff_of n) × (backoff_of n ≤ lockout_max)
backoff_of-bounds n =
    let big = grown lockout_base (2 ^ (n - 5)) (pow-pos (n - 5)) in
    rw (backoff_of-eq n) (omega arith, omega arith)
