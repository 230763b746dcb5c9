-- ===== src/Dns/Hosts/Distinct.antt =====
-- `dedupe` keeps every host once.
use router_docker.Prelude.{◌≡◌, refl, inl, inr, true, false, List, [], ◌∷◌, All, arith, Bool-cases}
use router_docker.Text.{Bytes, contains}
use router_docker.Text.Laws.{equal_iff, equal_refl}
use router_docker.Fragments.Normalize.{is_distinct}
use router_docker.Dns.Hosts.{dedupe_from, dedupe}

pub dedupe_from-old :
    (seen : List Bytes) (h : Bytes) (hs : List Bytes)
    → contains seen h ≡ true
    → dedupe_from seen (h ∷ hs) ≡ dedupe_from seen hs
unfolding dedupe_from
dedupe_from-old seen h hs e = rw (e, dedupe_from) refl

pub dedupe_from-new :
    (seen : List Bytes) (h : Bytes) (hs : List Bytes)
    → contains seen h ≡ false
    → dedupe_from seen (h ∷ hs) ≡ h ∷ dedupe_from (h ∷ seen) hs
unfolding dedupe_from
dedupe_from-new seen h hs e = rw (e, dedupe_from) refl

contains-dedupe_from_seen :
    (seen hs : List Bytes) (x : Bytes)
    → contains seen x ≡ true
    → contains (dedupe_from seen hs) x ≡ false
unfolding contains
contains-dedupe_from_seen seen [] x s = unfold dedupe_from in refl
contains-dedupe_from_seen seen (h ∷ hs) x s = elim (Bool-cases (contains seen h)) [
  | inl old ↦ rw (dedupe_from-old seen h hs old) (contains-dedupe_from_seen seen hs x s)
  | inr new ↦
      rw (dedupe_from-new seen h hs new)
        (ground (arith, contains-dedupe_from_seen (h ∷ seen) hs x, equal_iff h x, s, new))
]

contains-dedupe_from :
    (seen hs : List Bytes) (x : Bytes)
    → contains seen x ≡ false
    → contains (dedupe_from seen hs) x ≡ contains hs x
unfolding contains
contains-dedupe_from seen [] x s = unfold dedupe_from in refl
contains-dedupe_from seen (h ∷ hs) x s = elim (Bool-cases (contains seen h)) [
  | inl old ↦
      rw (dedupe_from-old seen h hs old)
        (ground (arith, contains-dedupe_from seen hs x s, equal_iff h x, s, old))
  | inr new ↦
      rw (dedupe_from-new seen h hs new) (ground (arith, contains-dedupe_from (h ∷ seen) hs x, s))
]

distinct-dedupe_from : (seen hs : List Bytes) → is_distinct (dedupe_from seen hs) ≡ true
unfolding is_distinct contains
distinct-dedupe_from seen [] = unfold dedupe_from in refl
distinct-dedupe_from seen (h ∷ hs) = elim (Bool-cases (contains seen h)) [
  | inl old ↦ rw (dedupe_from-old seen h hs old) (distinct-dedupe_from seen hs)
  | inr new ↦ rw (dedupe_from-new seen h hs new) (
      ground (
        arith,
        distinct-dedupe_from (h ∷ seen) hs,
        contains-dedupe_from_seen (h ∷ seen) hs h,
        equal_refl h,
      ))
]

All-dedupe_from :
    (P : Bytes → Type 0) (seen hs : List Bytes) → All P hs → All P (dedupe_from seen hs)
All-dedupe_from P seen [] a = unfold dedupe_from in tt
All-dedupe_from P seen (h ∷ hs) a = elim (Bool-cases (contains seen h)) [
  | inl old ↦ rw (dedupe_from-old seen h hs old) (All-dedupe_from P seen hs a.1)
  | inr new ↦ rw (dedupe_from-new seen h hs new) (a.0, All-dedupe_from P (h ∷ seen) hs a.1)
]

pub distinct-dedupe : (hs : List Bytes) → is_distinct (dedupe hs) ≡ true
unfolding dedupe
distinct-dedupe hs = distinct-dedupe_from [] hs

pub contains-dedupe : (hs : List Bytes) (x : Bytes) → contains (dedupe hs) x ≡ contains hs x
unfolding dedupe contains
contains-dedupe hs x = contains-dedupe_from [] hs x refl

pub All-dedupe : (P : Bytes → Type 0) (hs : List Bytes) → All P hs → All P (dedupe hs)
unfolding dedupe
All-dedupe P hs a = All-dedupe_from P [] hs a
