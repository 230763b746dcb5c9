-- ===== src/Dns/Sources.antt =====
-- backend/internal/dns/blocklist.go: the sources of the block list, and the one that the image
-- ships.
pub mod Kept
pub mod Path
pub mod Stored
pub mod Builtin
use router_docker.Prelude.Exec.{Exec, continue, ◌>>=◌, ◌>>◌, pure, lift, require}
use router_docker.Prelude.{
  ℕ, Bool, true, false, not, ◌&&◌, ◌||◌, Option, none, some, List, [], ◌∷◌, ◌++◌, map, length, leb,
  if◌then◌else◌, is_empty, Result, ok, err, for_each, already_exists, not_found, builtin_immutable,
}
use router_docker.Text.{Bytes, codes, equal, contains, has_suffix, trim_suffix}
use router_docker.Keyed.Order.{sort}
use router_docker.Fragments.Files.{Dir, lookup, put}
use router_docker.Dns.System.{System, join_path, exists_file, read_file, write_atomic, remove_file}
use router_docker.Dns.Manifest.{Manifest, load_manifest, save_manifest}
use router_docker.Dns.Hosts.{
  builtin_name, validate_source_name, validate_hostname, render_hosts_file, parse_hosts_list,
  lower_hosts, dedupe, sample_strings,
}

abbrev pub sources_dir : Bytes
sources_dir = codes "/var/lib/code-docker-router/dns/blocklist-sources"

-- with the value of `DNS_BUILTIN_BLOCKLIST_SOURCE`
unfoldable pub shipped_default_path : Bytes → Bytes
shipped_default_path v = if is_empty v then codes "/etc/router/dns/blocklist.default.hosts" else v

unfoldable pub custom_path : Bytes → Bytes
unfolding join_path
custom_path name = join_path sources_dir (name ++ codes ".hosts")

unfoldable pub builtin_path : Bytes
unfolding custom_path
builtin_path = custom_path builtin_name

module _ (sys : System) where
  -- what `CreateSource` and `UpdateSource` write
  unfoldable pub write_source : Bytes → List Bytes → Exec Dir (Unit {0})
  write_source name hosts =
      write_atomic sys (custom_path name) (render_hosts_file (dedupe (lower_hosts hosts)))

  unfoldable pub create_source : Bytes → List Bytes → Exec Dir (Unit {0})
  create_source name hosts d =
      (do
        lift (validate_source_name name)
        lift (for_each validate_hostname hosts)
        require (not (exists_file sys (custom_path name) d)) already_exists
        write_source name hosts)
        d

  unfoldable pub update_source : Bytes → List Bytes → Exec Dir (Unit {0})
  update_source name hosts d =
      (do
        lift (validate_source_name name)
        lift (for_each validate_hostname hosts)
        require (exists_file sys (custom_path name) d) not_found
        write_source name hosts)
        d

  unfoldable pub delete_source : Bytes → Exec Dir (Unit {0})
  delete_source name d =
      (do
        require (not (equal name builtin_name)) builtin_immutable
        require (exists_file sys (custom_path name) d) not_found
        remove_file sys (custom_path name))
        d

pub record BuiltinStatus : Type 0 where
  pub update_available : Bool
  pub live_diverged : Bool
  pub added_count : ℕ
  pub removed_count : ℕ
  pub added_sample : List Bytes
  pub removed_sample : List Bytes

abbrev pub no_update : BuiltinStatus
no_update = record {
  update_available = false;
  live_diverged = false;
  added_count = 0;
  removed_count = 0;
  added_sample = [];
  removed_sample = [];
}

abbrev pub diff_sample_limit : ℕ
diff_sample_limit = 50

-- the hosts of one list that another does not have
unfoldable pub missing_from : List Bytes → List Bytes → List Bytes
unfolding contains
missing_from other [] = []
missing_from other (h ∷ hs) =
    let rest = missing_from other hs in if contains other h then rest else h ∷ rest

-- what is added and what is removed, each host once and sorted
unfoldable pub diff_host_lists : List Bytes → List Bytes → List Bytes × List Bytes
unfolding missing_from dedupe sort
diff_host_lists old new =
    (sort (λ h. h) (missing_from old (dedupe new)), sort (λ h. h) (missing_from new (dedupe old)))

-- with the live copy, if it can be read
unfoldable pub pending_status : (Bytes → Bytes) → Bytes → Bytes → Result Bytes → BuiltinStatus
unfolding diff_host_lists parse_hosts_list sample_strings
pending_status hash seeded shipped (err e) = record no_update { update_available = true }
pending_status hash seeded shipped (ok live) =
    let diff = diff_host_lists (parse_hosts_list live) (parse_hosts_list shipped) in
    record {
      update_available = true;
      live_diverged = not (equal (hash live) seeded);
      added_count = length diff.0;
      removed_count = length diff.1;
      added_sample = sample_strings diff.0 diff_sample_limit;
      removed_sample = sample_strings diff.1 diff_sample_limit;
    }

-- `manifest[BuiltinName]`, empty where it is not set
abbrev pub seeded_hash : Option Bytes → Bytes
seeded_hash none = []
seeded_hash (some hash) = hash

-- `hash` is `hashHex`, SHA-1 in hexadecimal; `env` is the value of DNS_BUILTIN_BLOCKLIST_SOURCE
module _ (sys : System) (hash : Bytes → Bytes) (env : Bytes) where
  unfoldable pub status_of : Bytes → Bytes → Result Bytes → BuiltinStatus
  status_of shipped seeded live =
      if is_empty seeded || equal (hash shipped) seeded
      then no_update
      else pending_status hash seeded shipped live

  unfoldable pub get_builtin_status : Exec Dir BuiltinStatus
  get_builtin_status d =
      (do
        shipped ← read_file sys (shipped_default_path env)
        manifest ← load_manifest sys
        pure (
            status_of shipped (seeded_hash (lookup builtin_name manifest))
              (read_file sys builtin_path d).0))
        d

  unfoldable pub builtin_pull : (Manifest → Manifest) → Exec Dir (Unit {0})
  builtin_pull order = do
    shipped ← read_file sys (shipped_default_path env)
    write_atomic sys builtin_path shipped
    manifest ← load_manifest sys
    save_manifest sys order (put builtin_name (hash shipped) manifest)

  unfoldable pub builtin_ignore : (Manifest → Manifest) → Exec Dir (Unit {0})
  builtin_ignore order = do
    shipped ← read_file sys (shipped_default_path env)
    manifest ← load_manifest sys
    save_manifest sys order (put builtin_name (hash shipped) manifest)
