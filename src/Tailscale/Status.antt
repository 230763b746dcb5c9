-- ===== src/Tailscale/Status.antt =====
-- backend/internal/tailscale/state.go and status.go: what is read from `tailscale status --json`.
-- The run of the binary and its decoded answer are parameters.
pub mod Peers
use mathlib.Core.Option
use router_docker.Prelude.{
  Bool, true, false, not, Option, none, some, List, [], ◌∷◌, map, if◌then◌else◌, is_empty, Result,
  ok, err, ◌>>=◌,
}
use router_docker.Text.{Bytes, codes}
use router_docker.Keyed.Order.{sort}
use router_docker.Tailscale.Global.{enabled}

pub record RawState : Type 0 where
  pub backend_state : Bytes
  pub auth_url : Bytes

pub record State : Type 0 where
  pub backend_state : Bytes
  pub auth_url : Option Bytes
  pub enabled : Bool

abbrev pub state_of : RawState → State
state_of raw = record {
  backend_state = raw.backend_state;
  auth_url = if is_empty raw.auth_url then none else some raw.auth_url;
  enabled = true;
}

-- `value` is that of `TAILSCALE_ENABLED`; with `false`, the binary is not run
unfoldable pub get_state : Bytes → Result RawState → Result State
unfolding enabled
get_state value run =
    if not (enabled value)
    then ok (record { backend_state = codes "Disabled"; auth_url = none; enabled = false })
    else do raw ← run; ok (state_of raw)

pub record RawPeer : Type 0 where
  pub host_name : Bytes
  pub dns_name : Bytes
  pub tailscale_ips : List Bytes
  pub relay : Bytes
  pub cur_addr : Bytes
  pub online : Bool
  pub tags : List Bytes
  pub os : Bytes

pub record PeerInfo : Type 0 where
  pub host_name : Bytes
  pub dns_name : Bytes
  pub tailscale_ips : List Bytes
  pub relay : Bytes
  pub direct : Bool
  pub online : Bool
  pub tags : List Bytes
  pub os : Bytes

-- `toPeerInfo`; a list that is not there decodes to the empty one
unfoldable pub to_peer_info : RawPeer → PeerInfo
to_peer_info r = record {
  host_name = r.host_name;
  dns_name = r.dns_name;
  tailscale_ips = r.tailscale_ips;
  relay = r.relay;
  direct = not (is_empty r.cur_addr);
  online = r.online;
  tags = r.tags;
  os = r.os;
}

-- `peer` are the values of the map, in the order of the range over it
pub record RawStatus : Type 0 where
  pub backend_state : Bytes
  pub auth_url : Bytes
  pub current_tailnet : Option Bytes
  pub self : Option RawPeer
  pub peer : List RawPeer

pub record Status : Type 0 where
  pub backend_state : Bytes
  pub auth_url : Bytes
  pub tailnet_name : Bytes
  pub self : Option PeerInfo
  pub peers : List PeerInfo

abbrev pub raw_name : RawPeer → Bytes
raw_name r = r.host_name

abbrev tailnet_of : Option Bytes → Bytes
tailnet_of none = []
tailnet_of (some name) = name

unfoldable pub status_of : RawStatus → Status
unfolding to_peer_info sort
status_of raw = record {
  backend_state = raw.backend_state;
  auth_url = raw.auth_url;
  tailnet_name = tailnet_of raw.current_tailnet;
  self = Option.map to_peer_info raw.self;
  peers = map to_peer_info (sort raw_name raw.peer);
}

unfoldable pub get_status : Result RawStatus → Result Status
unfolding status_of
get_status run = do raw ← run; ok (status_of raw)
