-- ===== src/Dns/Hosts.antt =====
-- backend/internal/dns/blocklist.go: host names, lists of them, and files in the format of
-- /etc/hosts.
pub mod RoundTrip
pub mod Distinct
pub mod Firsts
use router_docker.Prelude.{
  ℕ, Bool, true, false, not, ◌&&◌, ◌||◌, Option, none, some, List, [], ◌∷◌, ◌++◌, map, reverse,
  take, length, leb, ◌==◌, if◌then◌else◌, is_empty, Result, guard, validation, builtin_immutable,
  ◌>>=◌, ◌>>◌,
}
use router_docker.Text.{
  Bytes, codes, equal, contains, has_prefix, is_space, split, to_lower, trim_space,
}
use router_docker.NetGate.Forwards.{is_plain_host}
use router_docker.DevProxy.Validate.{is_label}

abbrev pub builtin_name : Bytes
builtin_name = codes "builtin"

-- with `sourceNameRe`, which is the expression of a Dev Proxy name
unfoldable pub validate_source_name : Bytes → Result (Unit {0})
unfolding equal is_label
validate_source_name name = do
  guard (not (equal name builtin_name)) builtin_immutable
  guard (is_label name) validation

-- `hostnameRe`, which is the expression of a forward's host
unfoldable pub validate_hostname : Bytes → Result (Unit {0})
unfolding is_plain_host
validate_hostname h = guard (not (is_empty h) && is_plain_host h) validation

unfoldable pub render_hosts_file : List Bytes → Bytes
render_hosts_file [] = []
render_hosts_file (h ∷ hs) = codes "0.0.0.0 " ++ (h ++ (b'\n' ∷ render_hosts_file hs))

-- a word that is not empty goes to the words behind it
abbrev pub push_word : Bytes → List Bytes → List Bytes
push_word [] ws = ws
push_word (c ∷ w) ws = (c ∷ w) ∷ ws

-- `strings.Fields` on ASCII, with the word that was begun
unfoldable pub fields_from : Bytes → Bytes → List Bytes
fields_from w [] = push_word w []
fields_from w (c ∷ s) = elim (is_space c) [
  | true ↦ push_word w (fields_from [] s)
  | false ↦ fields_from (w ++ c ∷ []) s
]

-- the second of two fields or more
abbrev pub host_field : List Bytes → List Bytes → List Bytes
host_field [] hs = hs
host_field (f ∷ []) hs = hs
host_field (f ∷ (h ∷ fs)) hs = h ∷ hs

-- the body of the loop over the lines, without the hosts of the lines behind
unfoldable pub host_line : Bytes → List Bytes → List Bytes
unfolding has_prefix
host_line line hs =
    if is_empty line || has_prefix line (codes "#") then hs else host_field (fields_from [] line) hs

unfoldable pub hosts_of : List Bytes → List Bytes
hosts_of [] = []
hosts_of (l ∷ ls) = host_line (trim_space l) (hosts_of ls)

unfoldable pub parse_hosts_list : Bytes → List Bytes
parse_hosts_list content = hosts_of (split b'\n' content)

unfoldable pub lower_hosts : List Bytes → List Bytes
unfolding to_lower
lower_hosts hosts = map to_lower hosts

-- the loop of `dedupe`, with the hosts seen so far
unfoldable pub dedupe_from : List Bytes → List Bytes → List Bytes
dedupe_from seen [] = []
dedupe_from seen (h ∷ hs) = elim (contains seen h) [
  | true ↦ dedupe_from seen hs
  | false ↦ h ∷ dedupe_from (h ∷ seen) hs
]

unfoldable pub dedupe : List Bytes → List Bytes
unfolding dedupe_from contains
dedupe hosts = dedupe_from [] hosts

-- `sampleStrings`
unfoldable pub sample_strings : List Bytes → ℕ → List Bytes
sample_strings s n = if leb (length s) n then s else take n s
