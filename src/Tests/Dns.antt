-- ===== src/Tests/Dns.antt =====
-- The DNS settings.
use router_docker.Prelude.{
  ◌≡◌, ◌≢◌, refl, inl, true, false, none, some, List, [], ◌∷◌, ◌++◌, All, ok, err, Error, ◌⊎◌,
}
use router_docker.Text.{Bytes, codes, equal, trim_space, split, trim_suffix, cut_suffix, contains}
use router_docker.Text.Lines.{lacks}
use router_docker.Document.{Codec}
use router_docker.Document.Laws.{IsCodec, IsReliable}
use router_docker.Fragments.Files.{Dir, lookup, put, remove}
use router_docker.Dns.System.{System, read_file, exists_file, write_atomic, remove_file}
use router_docker.Dns.Manifest.{manifest_path, load_manifest, save_manifest}
use router_docker.Dns.Hosts.{validate_source_name, validate_hostname}
use router_docker.Dns.Sources.{
  shipped_default_path, builtin_path, custom_path, no_update, write_source, create_source,
  update_source, delete_source, get_builtin_status, builtin_pull, builtin_ignore,
}
use router_docker.Dns.Sources.Kept.{LeavesOthers, source-LeavesOthers}
use router_docker.Dns.Sources.Stored.{Lists, source-Lists}
use router_docker.Dns.Sources.Builtin.{IsOrder, builtin_pull-settles, builtin_ignore-settles}
use router_docker.Dns.Query.{
  fixed_args, query_args, is_domain, is_dns_label, query_type, lookup_args,
}
use router_docker.Dns.Hosts
use router_docker.Dns.Listing.{ListResult}
use router_docker.Dns.Query.Safe.{starts_plain, query_args-safe}
use router_docker.Dns.CustomHosts.{
  HostEntry, HostFiles, ResolverConfig, get_resolver_config, set_resolver_config,
}
use router_docker.Dns.CustomHosts.Resolver.{IsResolver, get_resolver_config-set_resolver_config}

abbrev system : System
system = record {
  stat_ok = λ _. true;
  read_ok = λ _. true;
  write_ok = λ _ _. true;
  remove_ok = λ _. true;
}

abbrev ads : List Bytes
ads = codes "Ads.example.com" ∷ (codes "ads.example.com" ∷ [])

ads_path :
    custom_path (codes "ads") ≡ codes "/var/lib/code-docker-router/dns/blocklist-sources/ads.hosts"
unfolding custom_path
ads_path = refl

ads_created : (create_source system (codes "ads") ads []).0 ≡ ok tt
unfolding create_source validate_source_name validate_hostname exists_file lookup write_source
    write_atomic
ads_created = refl

source-Lists_example : Lists (codes "ads") ads (create_source system (codes "ads") ads []).1
source-Lists_example =
    source-Lists system (codes "ads") ads [] (create_source system (codes "ads") ads []) (inl refl)
      ads_created

-- a live copy and a newer shipped content, which are their own hashes
abbrev shipped : Bytes
shipped = codes "0.0.0.0 a"

abbrev shipped_path : Bytes
shipped_path = codes "/list"

abbrev disk : Dir
disk = (builtin_path, codes "0.0.0.0 b") ∷ ((shipped_path, shipped) ∷ [])

-- the reserved name is not the only one for the built-in source
builtin_deleted :
    delete_source system (codes "./builtin") disk ≡ (ok tt, (shipped_path, shipped) ∷ [])
unfolding delete_source exists_file lookup builtin_path custom_path remove remove_file equal
builtin_deleted = refl

source-LeavesOthers_example :
    LeavesOthers (codes "ads") disk (create_source system (codes "ads") ads disk).1
    × LeavesOthers (codes "ads") disk (update_source system (codes "ads") ads disk).1
source-LeavesOthers_example = source-LeavesOthers system (codes "ads") ads disk

abbrev hash : Bytes → Bytes
hash b = codes "h"

hash-lacks : (b : Bytes) → lacks b'\n' (hash b) ≡ true
unfolding lacks
hash-lacks b = refl

same-IsOrder : IsOrder (λ m. m)
same-IsOrder = record { keeps = λ m v. v; lookup-order = λ k m v. refl }

not_manifest : shipped_default_path shipped_path ≢ manifest_path
unfolding shipped_default_path
not_manifest e = cc e

not_builtin : shipped_default_path shipped_path ≢ builtin_path
unfolding shipped_default_path builtin_path
not_builtin e = cc e

shipped_read : (read_file system (shipped_default_path shipped_path) disk).0 ≡ ok shipped
unfolding read_file shipped_default_path lookup builtin_path
shipped_read = refl

pulled : (builtin_pull system hash shipped_path (λ m. m) disk).0 ≡ ok tt
unfolding builtin_pull read_file lookup equal builtin_path shipped_default_path write_atomic
    load_manifest put save_manifest
pulled = refl

ignored : (builtin_ignore system hash shipped_path (λ m. m) disk).0 ≡ ok tt
unfolding builtin_ignore read_file lookup equal builtin_path shipped_default_path load_manifest
    save_manifest write_atomic
ignored = refl

builtin_pull-settles_example :
    (let e = (builtin_pull system hash shipped_path (λ m. m) disk).1 in
      ((get_builtin_status system hash shipped_path e).0 ≡ ok no_update)
      × (lookup builtin_path e ≡ some shipped))
builtin_pull-settles_example =
    builtin_pull-settles system hash shipped_path (λ m. m) same-IsOrder hash-lacks disk shipped refl
      not_manifest not_builtin shipped_read pulled

builtin_ignore-settles_example :
    (let e = (builtin_ignore system hash shipped_path (λ m. m) disk).1 in
      ((get_builtin_status system hash shipped_path e).0 ≡ ok no_update)
      × (lookup builtin_path e ≡ lookup builtin_path disk))
builtin_ignore-settles_example =
    builtin_ignore-settles system hash shipped_path (λ m. m) same-IsOrder hash-lacks disk shipped
      refl not_manifest shipped_read ignored

abbrev asked : List Bytes
asked = codes "_sip.example.com." ∷ (codes "SRV" ∷ [])

query_accepted : query_args (codes " _sip.example.com.") (codes "srv") ≡ ok (fixed_args ++ asked)
unfolding query_args trim_space is_domain split trim_suffix cut_suffix is_dns_label equal query_type
    contains lookup_args
query_accepted = refl

query_args-safe_example :
    (rest : List Bytes) × (fixed_args ++ asked ≡ fixed_args ++ rest)
    × All (λ a. starts_plain a ≡ true) rest
query_args-safe_example =
    query_args-safe (codes " _sip.example.com.") (codes "srv") (fixed_args ++ asked) query_accepted

abbrev codec : Codec (List HostEntry) (List HostEntry)
codec = record { marshal = λ c. c; unmarshal = λ c. some c; read_ok = true; write_ok = true }

abbrev codec-IsCodec : IsCodec codec
codec-IsCodec = record { unmarshal-marshal = λ _. refl }

abbrev nas : List HostEntry
nas = record { host = codes "NAS"; ip = codes "10.0.0.2" } ∷ []

abbrev no_files : HostFiles (List HostEntry)
no_files = record { config = none; rendered = none }

abbrev resolver_codec : Codec ResolverConfig ResolverConfig
resolver_codec = record {
  marshal = λ c. c;
  unmarshal = λ c. some c;
  read_ok = true;
  write_ok = true;
}

abbrev resolver_codec-IsReliable : IsReliable resolver_codec
resolver_codec-IsReliable = record {
  codec = record { unmarshal-marshal = λ _. refl };
  reads = refl;
  writes = refl;
}

abbrev custom : ResolverConfig
custom = record { mode = codes "custom"; servers = codes "1.1.1.1" ∷ [] }

get_resolver_config-set_resolver_config_example :
    (IsResolver custom
      × ((set_resolver_config resolver_codec custom none).0 ≡ ok tt)
      × ((get_resolver_config resolver_codec (set_resolver_config resolver_codec custom none).1).0
          ≡ ok custom))
    ⊎ ((IsResolver custom → ⊥)
        × ((x : Error) × (set_resolver_config resolver_codec custom none ≡ (err x, none))))
get_resolver_config-set_resolver_config_example =
    get_resolver_config-set_resolver_config resolver_codec custom none resolver_codec-IsReliable

-- two sources, of which the second repeats a host of the first
abbrev listed_disk : Dir
listed_disk =
    (custom_path (codes "ads"), codes "0.0.0.0 a\n0.0.0.0 c\n")
    ∷ ((custom_path (codes "more"), codes "0.0.0.0 b\n0.0.0.0 a\n") ∷ [])

abbrev listed_files : List Bytes
listed_files = codes "ads.hosts" ∷ (codes "notes" ∷ (codes "more.hosts" ∷ []))

abbrev listed_result : ListResult
listed_result = record {
  sources =
      record {
        name = codes "ads";
        builtin = false;
        entry_count = 2;
        hosts = codes "a" ∷ (codes "c" ∷ []);
      }
      ∷ (record {
        name = codes "more";
        builtin = false;
        entry_count = 2;
        hosts = codes "b" ∷ (codes "a" ∷ []);
      }
          ∷ []);
  duplicate_hosts = codes "a" ∷ (codes "b" ∷ []);
  update_available = false;
}
