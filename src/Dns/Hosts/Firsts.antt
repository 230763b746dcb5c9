-- ===== src/Dns/Hosts/Firsts.antt =====
-- What `dedupe` makes of `lowerHosts`, described on the hosts that were given: each of them in lower
-- case, where it comes first.
use router_docker.Prelude.{
  ◌≡◌, ◌↔◌, sym, ◌∙◌, inl, inr, true, false, List, [], ◌∷◌, arith, Bool-cases, subst,
}
use router_docker.Text.{Bytes, equal, contains, to_lower}
use router_docker.Text.Laws.{equal_iff}
use router_docker.Text.Folded.{folds, folds-to_lower, to_lower_of_folds}
use router_docker.Dns.Hosts.{lower_hosts, dedupe_from, dedupe}
use router_docker.Dns.Hosts.Distinct.{dedupe_from-old, dedupe_from-new, contains-dedupe}

-- With the hosts seen before, these hosts come to those: a host that was seen in lower case is left
-- out, every other one stands in lower case in its place.
pub data Firsts : List Bytes → List Bytes → List Bytes → Type 0 where
  done : (seen : List Bytes) → Firsts seen [] []
  again :
      {seen hs ks : List Bytes} (h k : Bytes)
      → folds h k ≡ true
      → contains seen k ≡ true
      → Firsts seen hs ks
      → Firsts seen (h ∷ hs) ks
  first :
      {seen hs ks : List Bytes} (h k : Bytes)
      → folds h k ≡ true
      → contains seen k ≡ false
      → Firsts (k ∷ seen) hs ks
      → Firsts seen (h ∷ hs) (k ∷ ks)

dedupe_from-Firsts : (seen hs : List Bytes) → Firsts seen hs (dedupe_from seen (lower_hosts hs))
unfolding lower_hosts
dedupe_from-Firsts seen [] = unfold dedupe_from in done seen
dedupe_from-Firsts seen (h ∷ hs) = elim (Bool-cases (contains seen (to_lower h))) [
  | inl old ↦
      rw (dedupe_from-old seen (to_lower h) (lower_hosts hs) old)
        (again h (to_lower h) (folds-to_lower h) old (dedupe_from-Firsts seen hs))
  | inr new ↦
      rw (dedupe_from-new seen (to_lower h) (lower_hosts hs) new)
        (first h (to_lower h) (folds-to_lower h) new (dedupe_from-Firsts (to_lower h ∷ seen) hs))
]

pub Firsts-dedupe : (hs : List Bytes) → Firsts [] hs (dedupe (lower_hosts hs))
unfolding dedupe
Firsts-dedupe hs = dedupe_from-Firsts [] hs

-- a host is among these in lower case
pub data IsAmong (k : Bytes) : List Bytes → Type 0 where
  here : {hs : List Bytes} (h : Bytes) → folds h k ≡ true → IsAmong k (h ∷ hs)
  there : {hs : List Bytes} (h : Bytes) → IsAmong k hs → IsAmong k (h ∷ hs)

IsAmong-lower : (k : Bytes) (hs : List Bytes) → contains (lower_hosts hs) k ≡ true → IsAmong k hs
unfolding contains lower_hosts
IsAmong-lower k [] c = cc
IsAmong-lower k (h ∷ hs) c = elim (Bool-cases (equal (to_lower h) k)) [
  | inl same ↦
      here h (subst (λ x. folds h x ≡ true) ((equal_iff (to_lower h) k).0 same) (folds-to_lower h))
  | inr other ↦ there h (IsAmong-lower k hs (ground (arith, other, c)))
]

lower-IsAmong : {k : Bytes} {hs : List Bytes} → IsAmong k hs → contains (lower_hosts hs) k ≡ true
unfolding contains lower_hosts
lower-IsAmong {k} (here h f) =
    ground (arith, (equal_iff (to_lower h) k).1 (sym (to_lower_of_folds h k f)))
lower-IsAmong (there h a) = ground (arith, lower-IsAmong a)

pub IsAmong-dedupe :
    (k : Bytes) (hs : List Bytes) → (contains (dedupe (lower_hosts hs)) k ≡ true) ↔ IsAmong k hs
IsAmong-dedupe k hs = (
  (λ c. IsAmong-lower k hs (sym (contains-dedupe (lower_hosts hs) k) ∙ c)),
  (λ a. contains-dedupe (lower_hosts hs) k ∙ lower-IsAmong a),
)
