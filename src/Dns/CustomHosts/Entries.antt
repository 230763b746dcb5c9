-- ===== src/Dns/CustomHosts/Entries.antt =====
-- What the loop of `SetCustomHosts` makes of the given entries.
use router_docker.Prelude.{
  ◌≡◌, refl, sym, ap, inl, inr, true, false, not, List, [], ◌∷◌, ◌&&◌, and_left, and_right,
  is_empty, All, ok, guard, validation, arith, Bool-cases, >>-eq-ok, >>=-eq-ok, guard-eq-ok,
  not-eq-true, subst,
}
use router_docker.Text.{Bytes, equal, contains, to_lower, is_some}
use router_docker.Text.Folded.{folds, folds-to_lower}
use router_docker.Net.Address.{parse_ip}
use router_docker.NetGate.Forwards.{is_plain_host}
use router_docker.Dns.Hosts.{validate_hostname}
use router_docker.Text.Laws.{equal_iff, contains-true_of_equal}
use router_docker.Keyed.{has, distinct}
use router_docker.Dns.CustomHosts.{HostEntry, folded, validate_host_entry, check_entries}

abbrev pub host_of : HostEntry → Bytes
host_of e = e.host

-- Stored entries have a plain host and an IP address each, and no two name the same host.
abbrev pub IsEntry : HostEntry → Type 0
IsEntry e =
    (is_empty e.host ≡ false) × (is_plain_host e.host ≡ true) × (is_some (parse_ip e.ip) ≡ true)

pub record IsStored (es : List HostEntry) : Type 0 where
  pub checked : All IsEntry es
  pub hosts : distinct host_of es ≡ true

-- The given entries, one by one: the same address, and the host in lower case.
abbrev pub Folded : List HostEntry → List HostEntry → Type 0
Folded [] [] = Unit {0}
Folded (e ∷ es) (f ∷ fs) = (f.ip ≡ e.ip) × (folds e.host f.host ≡ true) × Folded es fs
Folded _ _ = ⊥

ok_injective : {A : Type 0} {a b : A} → ok a ≡ ok b → b ≡ a
ok_injective h = cc

-- a seen text and one that was not are different
unseen :
    (seen : List Bytes) (h k : Bytes)
    → contains seen k ≡ true
    → contains seen h ≡ false
    → equal h k ≡ false
unseen seen h k c f = elim (Bool-cases (equal h k)) [
  | inr other ↦ other
  | inl same ↦ absurd (cc (c, f, ap (contains seen) ((equal_iff h k).0 same)))
]

-- one accepted entry, and the rest of the loop
check_entries-cons :
    (seen : List Bytes) (e : HostEntry) (es out : List HostEntry)
    → check_entries seen (e ∷ es) ≡ ok out
    → (rest : List HostEntry) × (validate_host_entry (folded e) ≡ ok tt)
      × (contains seen (to_lower e.host) ≡ false)
      × (check_entries (to_lower e.host ∷ seen) es ≡ ok rest)
      × (out ≡ folded e ∷ rest)
unfolding check_entries
check_entries-cons seen e es out h =
    let (valid, h1) = >>-eq-ok (validate_host_entry (folded e)) _ h in
    let (fresh, h2) = >>-eq-ok (guard (not (contains seen (to_lower e.host))) validation) _ h1 in
    let (rest, loop, made) = >>=-eq-ok (check_entries (to_lower e.host ∷ seen) es) _ h2 in
    (
      rest,
      valid,
      not-eq-true _ (guard-eq-ok (not (contains seen (to_lower e.host))) validation fresh),
      loop,
      ok_injective made,
    )

nothing_left :
    (seen : List Bytes) (out : List HostEntry) → check_entries seen [] ≡ ok out → out ≡ []
unfolding check_entries
nothing_left seen out h = ok_injective h

contains_more :
    (h k : Bytes) (seen : List Bytes) → contains seen k ≡ true → contains (h ∷ seen) k ≡ true
unfolding contains
contains_more h k seen c = ground (arith, c)

has_more :
    (k : Bytes) (e : HostEntry) (es : List HostEntry)
    → equal e.host k ≡ false
    → has host_of k es ≡ false
    → has host_of k (e ∷ es) ≡ false
unfolding has
has_more k e es o h = rw o h

distinct_more :
    (e : HostEntry) (es : List HostEntry)
    → has host_of e.host es ≡ false
    → distinct host_of es ≡ true
    → distinct host_of (e ∷ es) ≡ true
unfolding distinct
distinct_more e es h d = rw h d

-- a host that was seen is not stored again
check_entries-fresh :
    (k : Bytes) (seen : List Bytes) (es out : List HostEntry)
    → check_entries seen es ≡ ok out
    → contains seen k ≡ true
    → has host_of k out ≡ false
check_entries-fresh k seen [] out h c = rw (nothing_left seen out h) (unfold has in refl)
check_entries-fresh k seen (e ∷ es) out h c =
    let (rest, valid, fresh, loop, made) = check_entries-cons seen e es out h in
    let h' : Bytes = to_lower e.host in
    let later : has host_of k rest ≡ false =
      check_entries-fresh k (h' ∷ seen) es rest loop (contains_more h' k seen c) in
    let other : equal h' k ≡ false = unseen seen h' k c fresh in
    subst (λ o. has host_of k o ≡ false) (sym made) (has_more k (folded e) rest other later)

entry_valid : (e : HostEntry) → validate_host_entry e ≡ ok tt → IsEntry e
unfolding validate_host_entry validate_hostname
entry_valid e h =
    let (name, address) = >>-eq-ok (validate_hostname e.host) _ h in
    let plain = guard-eq-ok (not (is_empty e.host) && is_plain_host e.host) validation name in
    (
      not-eq-true _ (and_left _ _ plain),
      and_right (not (is_empty e.host)) _ plain,
      guard-eq-ok (is_some (parse_ip e.ip)) validation address,
    )

pub check_entries-Folded :
    (seen : List Bytes) (es out : List HostEntry) → check_entries seen es ≡ ok out → Folded es out
check_entries-Folded seen [] out h = subst (Folded []) (sym (nothing_left seen out h)) tt
check_entries-Folded seen (e ∷ es) out h =
    let (rest, valid, fresh, loop, made) = check_entries-cons seen e es out h in
    subst (Folded (e ∷ es)) (sym made)
      (refl, folds-to_lower e.host, check_entries-Folded (to_lower e.host ∷ seen) es rest loop)

pub check_entries-IsStored :
    (seen : List Bytes) (es out : List HostEntry) → check_entries seen es ≡ ok out → IsStored out
check_entries-IsStored seen [] out h =
    subst IsStored (sym (nothing_left seen out h))
      (record { checked = tt; hosts = unfold distinct in refl })
check_entries-IsStored seen (e ∷ es) out h =
    let (rest, valid, fresh, loop, made) = check_entries-cons seen e es out h in
    let later = check_entries-IsStored (to_lower e.host ∷ seen) es rest loop in
    let first : has host_of (to_lower e.host) rest ≡ false =
      check_entries-fresh (to_lower e.host) (to_lower e.host ∷ seen) es rest loop
        (contains-true_of_equal seen (to_lower e.host)) in
    subst IsStored (sym made) (record {
      checked = (entry_valid (folded e) valid, later.checked);
      hosts = distinct_more (folded e) rest first later.hosts;
    })
