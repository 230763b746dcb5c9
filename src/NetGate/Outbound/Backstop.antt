-- ===== src/NetGate/Outbound/Backstop.antt =====
-- What an accepted outbound list lets through, read as a filter whose first matching rule decides.
use router_docker.Prelude.{
  ℕ, ◌≡◌, refl, ap, ◌⊎◌, inl, inr, Bool, true, false, not, Option, none, some, List, [], ◌∷◌,
  if◌then◌else◌, leb, Result, ok, err, validation, guard, guard-eq-ok, for_each, for_each-All,
  arith, Bool-cases, All, and_right,
}
use router_docker.Net.Cidr.{IpNet}
use router_docker.NetGate.Config.{OutboundRule}
use router_docker.NetGate.Outbound.{
  private_v4, fixed_block_v4, rule_net, v4_ones, contains, covers, overlaps, is_allow, covered,
  scan, check_private, check_fixed_of, check_fixed, both, check_v4_backstop, require_blocked,
}
use router_docker.NetGate.Outbound.Prefix.{narrower-contains, disjoint}

-- whether a rule applies to an address
abbrev in_net : Option IpNet → ℕ → Bool
in_net none v = false
in_net (some n) v = contains n v

unfoldable pub matches : OutboundRule → ℕ → Bool
matches r v = in_net (rule_net r.cidr) v

-- What becomes of an address: `some true` if the first rule that applies to it allows it, `none`
-- if no rule applies.
abbrev pub verdict : List OutboundRule → ℕ → Option Bool
verdict [] v = none
verdict (r ∷ rs) v = if matches r v then some (is_allow r) else verdict rs v

-- Some allow rule of the list applies to the address, and does not cover the range.
abbrev pub Excepted : IpNet → List OutboundRule → ℕ → Type 0
Excepted priv [] v = ⊥
Excepted priv (r ∷ rs) v =
    ((is_allow r ≡ true) × (matches r v ≡ true) × (covered priv (rule_net r.cidr) ≡ false))
    ⊎ Excepted priv rs v

covered-in_net :
    (priv : IpNet) (o : Option IpNet) (v : ℕ)
    → v4_ones priv ≡ priv.ones
    → contains priv v ≡ true
    → covered priv o ≡ true
    → in_net o v ≡ true
unfolding covered covers
covered-in_net priv none v e h c = cc
covered-in_net priv (some n) v e h c =
    narrower-contains n priv v (ground arith) (and_right (leb n.ones priv.ones) _ c) h

scan-verdict :
    (priv : IpNet) (rules : List OutboundRule) (v : ℕ) (blocked : Bool)
    → v4_ones priv ≡ priv.ones
    → contains priv v ≡ true
    → scan priv rules blocked ≡ ok true
    → (blocked ≡ true) ⊎ ((verdict rules v ≡ some false) ⊎ Excepted priv rules v)
unfolding scan matches
scan-verdict priv [] v blocked e h s = inl (ground arith)
scan-verdict priv (r ∷ rs) v blocked e h s = elim (Bool-cases (covered priv (rule_net r.cidr))) [
  | inl c ↦
      let m : matches r v ≡ true = covered-in_net priv (rule_net r.cidr) v e h c in
      elim (Bool-cases (is_allow r)) [
        | inl a ↦ absurd (ground (arith, a, c, s))
        | inr a ↦ inr (inl (rw m (ap some a)))
      ]
  | inr c ↦ elim (Bool-cases (matches r v)) [
    | inl m ↦ elim (Bool-cases (is_allow r)) [
      | inl a ↦ inr (inr (inl (a, m, c)))
      | inr a ↦ inr (inl (rw m (ap some a)))
    ]
    | inr m ↦ elim (scan-verdict priv rs v blocked e h (rw c at s)) [
      | inl kept ↦ inl kept
      | inr (inl decided) ↦ inr (inl (rw m decided))
      | inr (inr excepted) ↦ inr (inr (inr excepted))
    ]
  ]
]

both-eq-ok : (x y : Result (Unit {0})) → both x y ≡ ok tt → (x ≡ ok tt) × (y ≡ ok tt)
both-eq-ok (ok tt) y h = (refl, h)
both-eq-ok (err x) y h = cc

require_blocked-eq-ok : (x : Result Bool) → require_blocked x ≡ ok tt → x ≡ ok true
require_blocked-eq-ok (ok true) h = refl
require_blocked-eq-ok (ok false) h = cc
require_blocked-eq-ok (err x) h = cc

decided :
    (priv : IpNet) (rules : List OutboundRule) (v : ℕ)
    → v4_ones priv ≡ priv.ones
    → check_private rules priv ≡ ok tt
    → contains priv v ≡ true
    → (verdict rules v ≡ some false) ⊎ Excepted priv rules v
unfolding check_private
decided priv rules v e h inside =
    elim (scan-verdict priv rules v false e inside
      (require_blocked-eq-ok (scan priv rules false) h)) [
        | inl never ↦ absurd (ground (arith, never))
        | inr d ↦ d
      ]

apart :
    (fixeds : List IpNet) (n : IpNet) (v : ℕ)
    → All (λ fixed. guard (not (overlaps n fixed)) validation ≡ ok tt) fixeds
    → All (λ fixed. contains fixed v ≡ true → contains n v ≡ false) fixeds
apart [] n v h = tt
apart (fixed ∷ fixeds) n v h =
    let other = guard-eq-ok (not (overlaps n fixed)) validation h.0 in
    (
      (λ inside. elim (Bool-cases (contains n v)) [
        | inl c ↦ absurd (disjoint n fixed v (ground arith) c inside)
        | inr c ↦ c
      ]),
      apart fixeds n v h.1,
    )

apart_net :
    (o : Option IpNet) (v : ℕ)
    → check_fixed_of o ≡ ok tt
    → All (λ fixed. contains fixed v ≡ true → in_net o v ≡ false) fixed_block_v4
unfolding check_fixed_of
apart_net none v h = ((λ _. refl), ((λ _. refl), ((λ _. refl), tt)))
apart_net (some n) v h =
    apart fixed_block_v4 n v
      (for_each-All (λ fixed. guard (not (overlaps n fixed)) validation) fixed_block_v4 h)

apart_rules :
    (rules : List OutboundRule) (v : ℕ)
    → All (λ r. check_fixed r ≡ ok tt) rules
    → All
        (λ r.
          is_allow r ≡ true
          → All (λ fixed. contains fixed v ≡ true → matches r v ≡ false) fixed_block_v4)
        rules
unfolding check_fixed matches
apart_rules [] v h = tt
apart_rules (r ∷ rs) v h =
    ((λ a. apart_net (rule_net r.cidr) v (rw a at h.0)), apart_rules rs v h.1)

-- No allow rule of an outbound list that the backstop accepts applies to an address of a range that
-- is always blocked.
pub check_v4_backstop-fixed :
    (rules : List OutboundRule) (v : ℕ)
    → check_v4_backstop rules ≡ ok tt
    → All
        (λ r.
          is_allow r ≡ true
          → All (λ fixed. contains fixed v ≡ true → matches r v ≡ false) fixed_block_v4)
        rules
unfolding check_v4_backstop
check_v4_backstop-fixed rules v h =
    let (_, second) =
      both-eq-ok (for_each (check_private rules) private_v4) (for_each check_fixed rules) h in
    apart_rules rules v (for_each-All check_fixed rules second)
