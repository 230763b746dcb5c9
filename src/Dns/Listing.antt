-- ===== src/Dns/Listing.antt =====
-- `List` of backend/internal/dns/blocklist.go: the sources with their hosts, and the hosts that more
-- than one of them lists.
pub mod Owners
pub mod Conflicts
use router_docker.Prelude.Exec.{Exec}
use router_docker.Prelude.{
  ℕ, Bool, true, false, not, ◌&&◌, ◌||◌, Option, none, some, List, [], ◌∷◌, ◌++◌, map, length, leb,
  if◌then◌else◌, Result, ok, err,
}
use router_docker.Text.{Bytes, codes, equal, contains, has_suffix, trim_suffix}
use router_docker.Keyed.Order.{sort}
use router_docker.Fragments.Files.{Dir}
use router_docker.Dns.System.{System, join_path, read_file}
use router_docker.Dns.Hosts.{builtin_name, parse_hosts_list, dedupe}
use router_docker.Dns.Sources.{BuiltinStatus, sources_dir, get_builtin_status}

-- the hosts are kept for a custom source only
pub record SourceInfo : Type 0 where
  pub name : Bytes
  pub builtin : Bool
  pub entry_count : ℕ
  pub hosts : List Bytes

pub record ListResult : Type 0 where
  pub sources : List SourceInfo
  pub duplicate_hosts : List Bytes
  pub update_available : Bool

abbrev pub empty_result : ListResult
empty_result = record { sources = []; duplicate_hosts = []; update_available = false }

-- a map from hosts to the names of their owners
abbrev pub Owners : Type 0
Owners = List (Bytes × List Bytes)

-- `owners[h] = append(owners[h], name)`
unfoldable pub own : Bytes → Bytes → Owners → Owners
unfolding equal
own name h [] = (h, name ∷ []) ∷ []
own name h ((k, names) ∷ m) =
    let rest = (k, names) ∷ own name h m in if equal k h then (k, names ++ name ∷ []) ∷ m else rest

-- the loop over the hosts of one source
unfoldable pub own_all : Bytes → List Bytes → Owners → Owners
own_all name [] m = m
own_all name (h ∷ hs) m = own_all name hs (own name h m)

-- the loop over the sources
unfoldable pub owned : List (Bytes × List Bytes) → Owners → Owners
owned [] m = m
owned ((name, hosts) ∷ ss) m = owned ss (own_all name hosts m)

-- more than one owner, where each counts once
unfoldable pub is_shared : List Bytes → Bool
unfolding dedupe
is_shared names = leb 2 (length (dedupe names))

-- the loop over the map
unfoldable pub shared_hosts : Owners → List Bytes
unfolding is_shared
shared_hosts [] = []
shared_hosts ((h, names) ∷ m) =
    let rest = shared_hosts m in if is_shared names then h ∷ rest else rest

unfoldable pub duplicates : Owners → List Bytes
unfolding shared_hosts sort
duplicates m = sort (λ h. h) (shared_hosts m)

unfoldable pub info_of : Bytes × List Bytes → SourceInfo
unfolding equal
info_of (name, hosts) = record {
  name = name;
  builtin = equal name builtin_name;
  entry_count = length hosts;
  hosts = if equal name builtin_name then [] else hosts;
}

-- the built-in source stands before all others, which are in the order of their names
abbrev pub place_of : SourceInfo → Bytes
place_of i = if i.builtin then [] else b'-' ∷ i.name

abbrev pub extra_name : Bytes
extra_name = codes "custom-hosts"

module _ (sys : System) where
  abbrev pub cons_source :
      Bytes → Result Bytes → List (Bytes × List Bytes) → List (Bytes × List Bytes)
  cons_source name (err e) ss = ss
  cons_source name (ok content) ss = (name, parse_hosts_list content) ∷ ss

  -- the sources among the files of the directory; a file that cannot be read is passed over
  unfoldable pub read_sources : List Bytes → Dir → List (Bytes × List Bytes)
  unfolding has_suffix trim_suffix parse_hosts_list
  read_sources [] d = []
  read_sources (f ∷ fs) d =
      let rest = read_sources fs d in
      if has_suffix f (codes ".hosts")
      then cons_source (trim_suffix f (codes ".hosts"))
          (read_file sys (join_path sources_dir f) d).0 rest
      else rest

-- what the built-in source adds: an error means no update
abbrev pub is_available : Result BuiltinStatus → Bool
is_available (err e) = false
is_available (ok st) = st.update_available

module _ (sys : System) (hash : Bytes → Bytes) (env : Bytes) where
  -- `extra` are the hosts of the custom entries; the directory is missing, or has these files
  unfoldable pub list_sources : List Bytes → Result (Option (List Bytes)) → Dir → Result ListResult
  unfolding read_sources duplicates owned own_all info_of sort get_builtin_status
  list_sources extra (err e) d = err e
  list_sources extra (ok none) d = ok empty_result
  list_sources extra (ok (some files)) d =
      let ss = read_sources sys files d in
      ok (record {
        sources = sort place_of (map info_of ss);
        duplicate_hosts = duplicates (owned ss (own_all extra_name extra []));
        update_available = is_available (get_builtin_status sys hash env d).0;
      })
