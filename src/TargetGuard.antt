-- ===== src/TargetGuard.antt =====
-- backend/internal/targetguard: which reverse-proxy targets are refused. The environment variables
-- are arguments: the value of `ROUTER_EXTRA_ALLOWED_TARGET_HOSTS`, and of the variable that opts
-- out of the allowlist where the feature names one.
pub mod Safety
pub mod Loopback
use mathlib.Core.Option
use router_docker.Prelude.{
  ℕ, ◌≡◌, Bool, true, false, not, ◌&&◌, ◌||◌, Option, none, some, List, [], ◌∷◌, ◌++◌, map, all,
  if◌then◌else◌, is_empty, reject, ◌==◌, Result, ok, err, Error, validation, guard, ◌>>=◌, ◌>>◌,
}
use router_docker.Text.{Bytes, codes, equal, contains, to_lower, trim, trim_space, split, is_alnum}
use router_docker.Net.Address.{parse_ip, is_loopback, is_unspecified}
use router_docker.Net.HostPort.{split_host_port}

abbrev pub self_hosts : List Bytes
self_hosts =
    codes "localhost" ∷ codes "127.0.0.1" ∷ codes "::1" ∷ codes "router" ∷ codes "forward" ∷ []

abbrev is_bracket : ℕ → Bool
is_bracket c = c == b'[' || c == b']'

-- `ip != nil && (ip.IsLoopback() || ip.IsUnspecified())`
unfoldable pub is_self_address : Option ℕ → Bool
unfolding is_loopback is_unspecified
is_self_address none = false
is_self_address (some ip) = is_loopback ip || is_unspecified ip

-- the name with no brackets and in lower case
unfoldable pub normal_host : Bytes → Bytes
unfolding to_lower trim
normal_host host = to_lower (trim is_bracket host)

unfoldable pub is_self_host : Bytes → Bool
unfolding normal_host contains parse_ip is_self_address
is_self_host host =
    let h = normal_host host in contains self_hosts h || is_self_address (parse_ip h)

-- `deniedTargets[host][port]`
unfoldable pub is_denied : Bytes → Bytes → Bool
unfolding equal contains
is_denied host port = equal host (codes "dind") && contains (codes "2375" ∷ codes "2376" ∷ []) port

-- the loop of `WithExtraHosts` over the variable's parts
unfoldable pub extra_hosts : Bytes → List Bytes
unfolding to_lower trim_space split
extra_hosts env = reject is_empty (map (λ h. to_lower (trim_space h)) (split b',' env))

unfoldable pub with_extra_hosts : List Bytes → Bytes → List Bytes
unfolding extra_hosts
with_extra_hosts base env = base ++ extra_hosts env

unfoldable pub default_allowed_hosts : Bytes → List Bytes
unfolding with_extra_hosts
default_allowed_hosts = with_extra_hosts (codes "code-docker" ∷ codes "dind" ∷ [])

-- `targetRe`, `^[a-zA-Z0-9_.:\[\]-]+$`
abbrev pub is_target_byte : ℕ → Bool
is_target_byte c =
    is_alnum c || c == b'_' || c == b'.' || c == b':' || c == b'[' || c == b']' || c == b'-'

unfoldable pub is_target_text : Bytes → Bool
is_target_text s = not (is_empty s) && all is_target_byte s

-- `allowExternalEnv != "" && os.Getenv(allowExternalEnv) == "true"`
unfoldable pub opts_out : Option Bytes → Bool
unfolding equal
opts_out none = false
opts_out (some value) = equal value (codes "true")

unfoldable pub validate_host : Bytes → Bytes → List Bytes → Option Bytes → Result (Unit {0})
unfolding to_lower is_self_host is_denied opts_out contains
validate_host host port allowed external = do
  let h = to_lower host
  guard (not (is_self_host h)) validation
  guard (not (is_denied h port)) validation
  guard (opts_out external || contains allowed h) validation

-- the host and the port that `Validate` goes on with
unfoldable pub target_parts : Bytes → Bytes × Bytes
unfolding split_host_port
target_parts target = Option.get_or (split_host_port target) (target, [])

unfoldable pub validate : Bytes → List Bytes → Option Bytes → Result (Unit {0})
unfolding is_target_text target_parts validate_host
validate target allowed external = do
  guard (is_target_text target) validation
  validate_host (target_parts target).0 (target_parts target).1 allowed external
