-- ===== src/NetGate/Outbound/Prefix.antt =====
-- Networks as prefixes: a longer prefix in a shorter one, and two that do not overlap.
use router_docker.Prelude.{
  ℕ, zero, suc, ◌+◌, ◌-◌, ◌/◌, ◌≤◌, ◌≡◌, sym, ap, ◌∙◌, inl, inr, true, false, leb, arith,
  Bool-cases,
}
use router_docker.Net.Cidr.{IpNet}
use router_docker.NetGate.Outbound.{v4_base, v4_ones, shift_right, contains, overlaps}

pub shift_right-add : (j k v : ℕ) → shift_right (j + k) v ≡ shift_right k (shift_right j v)
unfolding shift_right
shift_right-add zero k v =
    let same : 0 + k ≡ k = omega arith in ap (λ (n : ℕ). shift_right n v) same
shift_right-add (suc j) k v =
    let step : suc j + k ≡ suc (j + k) = omega arith in
    ap (λ (n : ℕ). shift_right n v) step ∙ shift_right-add j k (v / 2)

-- agreeing on a longer prefix is agreeing on a shorter one
pub shift_right_mono :
    (p q a b : ℕ) → q ≤ p → shift_right q a ≡ shift_right q b → shift_right p a ≡ shift_right p b
shift_right_mono p q a b le e =
    let sum : p ≡ q + (p - q) = omega arith in
    ap (λ (k : ℕ). shift_right k a) sum
    ∙ shift_right-add q (p - q) a
    ∙ ap (shift_right (p - q)) e
    ∙ sym (shift_right-add q (p - q) b)
    ∙ ap (λ (k : ℕ). shift_right k b) (sym sum)

pub contains-eq :
    (n : IpNet) (v : ℕ)
    → contains n v ≡ true
    → shift_right (32 - v4_ones n) (v4_base n) ≡ shift_right (32 - v4_ones n) v
unfolding contains
contains-eq n v h = ground arith

pub eq-contains :
    (n : IpNet) (v : ℕ)
    → shift_right (32 - v4_ones n) (v4_base n) ≡ shift_right (32 - v4_ones n) v
    → contains n v ≡ true
unfolding contains
eq-contains n v h = ground arith

pub narrower-contains :
    (outer inner : IpNet) (v : ℕ)
    → v4_ones outer ≤ v4_ones inner
    → contains outer (v4_base inner) ≡ true
    → contains inner v ≡ true
    → contains outer v ≡ true
narrower-contains outer inner v le ho hi = eq-contains outer v (
    contains-eq outer (v4_base inner) ho
    ∙ shift_right_mono (32 - v4_ones outer) (32 - v4_ones inner) (v4_base inner) v (omega arith)
        (contains-eq inner v hi))

pub disjoint :
    (a b : IpNet) (v : ℕ) → overlaps a b ≡ false → contains a v ≡ true → contains b v ≡ true → ⊥
unfolding overlaps
disjoint a b v h ha hb = elim (Bool-cases (leb (v4_ones a) (v4_ones b))) [
  | inl le ↦ absurd (
      ground (
        arith,
        eq-contains a (v4_base b) (
            contains-eq a v ha
            ∙ shift_right_mono (32 - v4_ones a) (32 - v4_ones b) v (v4_base b) (ground arith)
                (sym (contains-eq b v hb))),
      ))
  | inr gt ↦ absurd (
      ground (
        arith,
        eq-contains b (v4_base a) (
            contains-eq b v hb
            ∙ shift_right_mono (32 - v4_ones b) (32 - v4_ones a) v (v4_base a) (ground arith)
                (sym (contains-eq a v ha))),
      ))
]
