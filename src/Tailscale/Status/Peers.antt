-- ===== src/Tailscale/Status/Peers.antt =====
-- The peers of a status, by their host names.
use router_docker.Prelude.{◌≡◌, refl, ap, ◌∙◌, true, ◌||◌, List, [], ◌∷◌, map}
use router_docker.Text.{Bytes, equal}
use router_docker.Keyed.{has, distinct}
use router_docker.Keyed.Order.{sort, is_first, ascending, has-sort, ascending-sort}
use router_docker.Tailscale.Status.{RawPeer, PeerInfo, RawStatus, to_peer_info, raw_name, status_of}

abbrev name_of : PeerInfo → Bytes
name_of p = p.host_name

has-peers :
    (n : Bytes) (rs : List RawPeer) → has name_of n (map to_peer_info rs) ≡ has raw_name n rs
unfolding has to_peer_info
has-peers n [] = refl
has-peers n (r ∷ rs) = ap (λ b. equal r.host_name n || b) (has-peers n rs)

is_first-peers :
    (k : Bytes) (rs : List RawPeer)
    → is_first name_of k (map to_peer_info rs) ≡ is_first raw_name k rs
unfolding is_first to_peer_info
is_first-peers k [] = refl
is_first-peers k (r ∷ rs) = rw (is_first-peers k rs) refl

ascending-peers :
    (rs : List RawPeer) → ascending name_of (map to_peer_info rs) ≡ ascending raw_name rs
unfolding ascending to_peer_info
ascending-peers [] = refl
ascending-peers (r ∷ rs) = rw (is_first-peers r.host_name rs, ascending-peers rs) refl

-- The status lists a peer under a host name exactly if the answer of the binary has one of that
-- name, and where no two share a host name, the peers stand in the order of their host names.
status_of-peers :
    (raw : RawStatus)
    → ((n : Bytes) → has name_of n (status_of raw).peers ≡ has raw_name n raw.peer)
      × (distinct raw_name raw.peer ≡ true → ascending name_of (status_of raw).peers ≡ true)
unfolding status_of
status_of-peers raw = (
  (λ n. has-peers n (sort raw_name raw.peer) ∙ has-sort raw_name n raw.peer),
  (λ d. ascending-peers (sort raw_name raw.peer) ∙ ascending-sort raw_name raw.peer d),
)
