-- ===== src/Tailscale/Config.antt =====
-- backend/internal/tailscale/config.go: the data of config.yaml, and the checks on its fields.
use router_docker.Prelude.{
  Bool, false, not, ◌&&◌, ◌||◌, Option, none, some, List, [], leb, all, is_empty, length, Result,
  validation, guard, ◌>>◌,
}
use router_docker.Text.{Bytes, codes, equal, is_digit, cut}
use router_docker.Text.Decimal.{ℤ, pos, between, itoa}
use router_docker.NetGate.Forwards.{is_plain_host}
use router_docker.TargetGuard
use router_docker.TargetGuard.{is_self_host}

pub record Forward : Type 0 where
  pub name : Bytes
  pub local_port : ℤ
  pub remote_host : Bytes
  pub remote_port : ℤ
  pub retry_interval : ℤ

pub record Publish : Type 0 where
  pub name : Bytes
  pub tailscale_port : ℤ
  pub target_host : Bytes
  pub local_port : ℤ
  pub mode : Bytes

pub record GlobalConfig : Type 0 where
  pub socks_address : Bytes
  pub retry_interval : ℤ
  pub login_server : Bytes

pub record FileConfig : Type 0 where
  pub socks_address : Bytes
  pub retry_interval : ℤ
  pub login_server : Bytes
  pub forwards : List Forward
  pub publish : List Publish

-- `fileConfig{}`, for a missing file
abbrev pub empty_config : FileConfig
empty_config = record {
  socks_address = [];
  retry_interval = pos 0;
  login_server = [];
  forwards = [];
  publish = [];
}

unfoldable pub validate_host : Bytes → Result (Unit {0})
unfolding is_plain_host is_self_host
validate_host host = do
  guard (not (is_empty host) && is_plain_host host) validation
  guard (not (is_self_host host)) validation

unfoldable pub validate_port : ℤ → Result (Unit {0})
unfolding between
validate_port port = guard (between 1 65535 port) validation

-- `socksAddrRe`: a plain host, a colon, and one to five digits
unfoldable pub is_socks_address : Option (Bytes × Bytes) → Bool
unfolding is_plain_host
is_socks_address none = false
is_socks_address (some (host, port)) =
    is_plain_host host && (all is_digit port && (leb 1 (length port) && leb (length port) 5))

unfoldable pub validate_socks_address : Bytes → Result (Unit {0})
unfolding is_socks_address cut
validate_socks_address addr =
    guard (not (is_empty addr) && is_socks_address (cut b':' addr)) validation

-- the scheme and the host of a parsed URL
is_http_url : Option (Bytes × Bytes) → Bool
unfolding equal
is_http_url none = false
is_http_url (some (scheme, host)) =
    (equal scheme (codes "http") || equal scheme (codes "https")) && not (is_empty host)

-- `parse_url` is `url.Parse`, of which the scheme and the host are read
unfoldable pub validate_login_server : (Bytes → Option (Bytes × Bytes)) → Bytes → Result (Unit {0})
unfolding is_http_url
validate_login_server parse_url server =
    guard (is_empty server || is_http_url (parse_url server)) validation

-- with the hosts that may be published, and no opt-out
unfoldable pub validate_publish_target : List Bytes → Publish → Result (Unit {0})
unfolding validate_host TargetGuard.validate_host itoa
validate_publish_target allowed p = do
  validate_host p.target_host
  TargetGuard.validate_host p.target_host (itoa p.local_port) allowed none
