-- ===== src/Dns/Listing/Owners.antt =====
-- Who owns a host, in the map that `List` builds.
use router_docker.Prelude.{
  ◌≡◌, refl, sym, inl, inr, Bool, true, false, ◌&&◌, ◌||◌, List, [], ◌∷◌, ◌++◌, if◌then◌else◌,
  arith, Bool-cases,
}
use router_docker.Text.{Bytes, equal, contains}
use router_docker.Text.Laws.{equal_iff}
use router_docker.Keyed.{has, distinct}
use router_docker.Dns.Listing.{Owners, own, own_all, owned, is_shared, shared_hosts}

abbrev pub host_of : Bytes × List Bytes → Bytes
host_of p = p.0

-- `owners[h]`
unfoldable pub owners_at : Bytes → Owners → List Bytes
unfolding equal
owners_at h [] = []
owners_at h ((k, names) ∷ m) = if equal k h then names else owners_at h m

-- some source of that name lists the host
unfoldable pub owns : List (Bytes × List Bytes) → Bytes → Bytes → Bool
unfolding equal contains
owns [] name h = false
owns ((n, hosts) ∷ ss) name h = (contains hosts h && equal n name) || owns ss name h

contains-append_one :
    (ns : List Bytes) (n x : Bytes) → contains (ns ++ n ∷ []) x ≡ (contains ns x || equal n x)
unfolding contains
contains-append_one [] n x = ground arith
contains-append_one (y ∷ ns) n x = ground (arith, contains-append_one ns n x)

contains-own :
    (n h k x : Bytes) (m : Owners)
    → contains (owners_at k (own n h m)) x
      ≡ (contains (owners_at k m) x || (equal h k && equal n x))
unfolding owners_at own contains
contains-own n h k x [] = ground arith
contains-own n h k x ((j, names) ∷ m) = ground (
  arith,
  contains-own n h k x m,
  contains-append_one names n x,
  equal_iff j h,
  equal_iff j k,
  equal_iff h k,
)

contains-own_all :
    (n k x : Bytes) (hs : List Bytes) (m : Owners)
    → contains (owners_at k (own_all n hs m)) x
      ≡ (contains (owners_at k m) x || (contains hs k && equal n x))
unfolding own_all contains
contains-own_all n k x [] m = ground arith
contains-own_all n k x (h ∷ hs) m =
    ground (arith, contains-own_all n k x hs (own n h m), contains-own n h k x m)

pub contains-owned :
    (k x : Bytes) (ss : List (Bytes × List Bytes)) (m : Owners)
    → contains (owners_at k (owned ss m)) x ≡ (contains (owners_at k m) x || owns ss x k)
unfolding owned owns
contains-owned k x [] m = ground arith
contains-owned k x ((n, hs) ∷ ss) m =
    ground (arith, contains-owned k x ss (own_all n hs m), contains-own_all n k x hs m)

has-own : (n h k : Bytes) (m : Owners) → has host_of k (own n h m) ≡ (has host_of k m || equal h k)
unfolding has own
has-own n h k [] = ground arith
has-own n h k ((j, names) ∷ m) =
    ground (arith, has-own n h k m, equal_iff j h, equal_iff j k, equal_iff h k)

distinct-own :
    (n h : Bytes) (m : Owners) → distinct host_of m ≡ true → distinct host_of (own n h m) ≡ true
unfolding distinct has own
distinct-own n h [] d = refl
distinct-own n h ((j, names) ∷ m) d =
    ground (arith, distinct-own n h m, has-own n h j m, equal_iff j h, equal_iff h j)

distinct-own_all :
    (n : Bytes) (hs : List Bytes) (m : Owners)
    → distinct host_of m ≡ true
    → distinct host_of (own_all n hs m) ≡ true
unfolding own_all
distinct-own_all n [] m d = d
distinct-own_all n (h ∷ hs) m d = distinct-own_all n hs (own n h m) (distinct-own n h m d)

pub distinct-owned :
    (ss : List (Bytes × List Bytes)) (m : Owners)
    → distinct host_of m ≡ true
    → distinct host_of (owned ss m) ≡ true
unfolding owned
distinct-owned [] m d = d
distinct-owned ((n, hs) ∷ ss) m d = distinct-owned ss (own_all n hs m) (distinct-own_all n hs m d)

shared_hosts-absent :
    (k : Bytes) (m : Owners) → has host_of k m ≡ false → contains (shared_hosts m) k ≡ false
unfolding has shared_hosts contains
shared_hosts-absent k [] h = refl
shared_hosts-absent k ((j, names) ∷ m) h = ground (arith, shared_hosts-absent k m)

shared_hosts-none : is_shared [] ≡ false
unfolding is_shared
shared_hosts-none = refl

pub contains-shared_hosts :
    (k : Bytes) (m : Owners)
    → distinct host_of m ≡ true
    → contains (shared_hosts m) k ≡ is_shared (owners_at k m)
unfolding distinct shared_hosts contains owners_at
contains-shared_hosts k [] d = sym shared_hosts-none
contains-shared_hosts k ((j, names) ∷ m) d = elim (Bool-cases (equal j k)) [
  | inl same ↦
      let absent : contains (shared_hosts m) k ≡ false =
        shared_hosts-absent k m (ground (arith, (equal_iff j k).0 same)) in
      ground (arith, same, absent)
  | inr other ↦ ground (arith, other, contains-shared_hosts k m)
]
