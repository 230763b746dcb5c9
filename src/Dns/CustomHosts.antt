-- ===== src/Dns/CustomHosts.antt =====
-- backend/internal/dns/customhosts.go and resolver.go: the names that the user maps to addresses,
-- kept in a structured file and rendered for dnsmasq, and the choice of the resolver.
pub mod Agree
pub mod Entries
pub mod Reading
pub mod Resolver
use router_docker.Prelude.Exec.{Exec, continue, ◌>>=◌, ◌>>◌, pure, lift}
use router_docker.Prelude.{
  ◌>>◌ as both, ◌>>=◌ as then_with, Bool, true, false, not, ◌&&◌, ◌||◌, Option, none, some, List,
  [], ◌∷◌, ◌++◌, is_empty, if◌then◌else◌, Result, ok, err, for_each, guard, io, validation,
  invalid_mode,
}
use router_docker.Text.{Bytes, codes, equal, contains, to_lower, is_some}
use router_docker.Net.Address.{parse_ip}
use router_docker.Document
use router_docker.Document.{Codec}
use router_docker.Dns.Hosts.{validate_hostname}

pub record HostEntry : Type 0 where
  pub host : Bytes
  pub ip : Bytes

unfoldable pub validate_host_entry : HostEntry → Result (Unit {0})
validate_host_entry e = both (validate_hostname e.host) (guard (is_some (parse_ip e.ip)) validation)

abbrev pub folded : HostEntry → HostEntry
folded e = record e { host = to_lower e.host }

-- The loop of `SetCustomHosts`, with the hosts seen so far: the entries to store, in lower case. A
-- host that comes twice is refused by a plain error, as the invalid entries are.
unfoldable pub check_entries : List Bytes → List HostEntry → Result (List HostEntry)
check_entries seen [] = ok []
check_entries seen (e ∷ es) = both (validate_host_entry (folded e)) (
    both (guard (not (contains seen (to_lower e.host))) validation)
      (then_with (check_entries (to_lower e.host ∷ seen) es) (λ rest. ok (folded e ∷ rest))))

unfoldable pub render_entries : List HostEntry → Bytes
render_entries [] = []
render_entries (e ∷ es) = e.ip ++ (b' ' ∷ (e.host ++ (b'\n' ∷ render_entries es)))

-- the structured file, and the rendered one
pub record HostFiles (C : Type 0) : Type 0 where
  pub config : Option C
  pub rendered : Option Bytes

module _ {C A : Type 0} where
  abbrev pub on_config_done : HostFiles C → Result A × Option C → Result A × HostFiles C
  on_config_done w (r, f) = (r, record w { config = f })

  abbrev pub on_config : Exec (Option C) A → Exec (HostFiles C) A
  on_config m w = on_config_done w (m w.config)

-- `write_ok` and `remove_ok` are what the system answers for the rendered file
module _ {C : Type 0} (b : Codec (List HostEntry) C) (write_ok remove_ok : Bool) where
  unfoldable pub list_custom_hosts : Exec (HostFiles C) (List HostEntry)
  unfolding Document.load
  list_custom_hosts = on_config (Document.load b [])

  -- an empty list has no rendered file; removing a missing one is no error
  unfoldable pub write_rendered : List HostEntry → Exec (HostFiles C) (Unit {0})
  write_rendered [] w =
      if not (is_some w.rendered) || remove_ok
      then (ok tt, record w { rendered = none })
      else (err io, w)
  write_rendered (e ∷ es) w =
      if write_ok
      then (ok tt, record w { rendered = some (render_entries (e ∷ es)) })
      else (err io, w)

  unfoldable pub set_custom_hosts : List HostEntry → Exec (HostFiles C) (Unit {0})
  unfolding Document.save write_rendered
  set_custom_hosts entries = do
    stored ← lift (check_entries [] entries)
    on_config (Document.save b stored)
    write_rendered stored

pub record ResolverConfig : Type 0 where
  pub mode : Bytes
  pub servers : List Bytes

abbrev pub auto_config : ResolverConfig
auto_config = record { mode = codes "auto"; servers = [] }

-- a file without a mode
unfoldable pub with_mode : ResolverConfig → ResolverConfig
with_mode c = record c { mode = if is_empty c.mode then codes "auto" else c.mode }

-- at least one server, and each an IP address
unfoldable pub check_servers : List Bytes → Result (Unit {0})
check_servers servers =
    both (guard (not (is_empty servers)) validation)
      (for_each (λ s. guard (is_some (parse_ip s)) validation) servers)

unfoldable pub check_resolver : ResolverConfig → Result (Unit {0})
check_resolver c =
    both (guard (equal c.mode (codes "auto") || equal c.mode (codes "custom")) invalid_mode)
      (if equal c.mode (codes "custom") then check_servers c.servers else ok tt)

module _ {C : Type 0} (b : Codec ResolverConfig C) where
  unfoldable pub get_resolver_config : Exec (Option C) ResolverConfig
  unfolding Document.load
  get_resolver_config = do c ← Document.load b auto_config; pure (with_mode c)

  unfoldable pub set_resolver_config : ResolverConfig → Exec (Option C) (Unit {0})
  unfolding Document.save
  set_resolver_config c = do lift (check_resolver c); Document.save b c
