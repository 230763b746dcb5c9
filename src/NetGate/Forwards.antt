-- ===== src/NetGate/Forwards.antt =====
-- backend/internal/netgate/config.go: the port forwards and the bandwidth limits.
pub mod Unique
pub mod Invariant
pub mod Plain
use mathlib.Core.Option
use router_docker.Prelude.Exec.{Exec, continue, ◌>>=◌, ◌>>◌, pure, lift, require}
use router_docker.Prelude.{
  ℕ, suc, ◌≡◌, Bool, true, false, not, ◌&&◌, ◌||◌, Option, none, some, List, [], ◌∷◌, ◌++◌,
  if◌then◌else◌, leb, ◌==◌, any, all, is_empty, split_last, Error, Result, ok, err, validation,
  already_exists, not_found, guard,
}
use router_docker.Text.{Bytes, codes, equal, is_alnum, contains}
use router_docker.Text.Decimal.{ℤ, pos, negsuc, int_eq, between, itoa}
use router_docker.NetGate.Config.{
  Forward, ServiceLimit, Bandwidth, FileConfig, Backend, Live, load, save,
}
use router_docker.NetGate.Outbound.{both}
use router_docker.TargetGuard

abbrev pub is_middle_byte : ℕ → Bool
is_middle_byte c = is_alnum c || c == b'.' || c == b'-'

-- the group `([a-zA-Z0-9.-]*[a-zA-Z0-9])?`
host_rest : Option (Bytes × ℕ) → Bool
host_rest none = true
host_rest (some (inner, last)) = all is_middle_byte inner && is_alnum last

-- `hostRe`, `^[a-zA-Z0-9]([a-zA-Z0-9.-]*[a-zA-Z0-9])?$`
unfoldable pub is_plain_host : Bytes → Bool
unfolding host_rest
is_plain_host [] = false
is_plain_host (c ∷ s) = is_alnum c && host_rest (split_last s)

unfoldable pub validate_host : Bytes → Result (Unit {0})
unfolding is_plain_host
validate_host host = guard (not (is_empty host) && is_plain_host host) validation

unfoldable pub validate_port : ℤ → Result (Unit {0})
unfolding between
validate_port port = guard (between 1 65535 port) validation

-- the checks of `AddForward` before the file is read, with the hosts that the environment adds
unfoldable pub check_forward : List Bytes → Forward → Result (Unit {0})
unfolding validate_port validate_host TargetGuard.validate_host itoa
check_forward allowed f = both (validate_port f.host_port) (
    both (validate_host f.target_host) (
      both (validate_port f.target_port)
        (TargetGuard.validate_host f.target_host (itoa f.target_port) allowed none)))

unfoldable pub has_port : ℤ → List Forward → Bool
unfolding int_eq
has_port port [] = false
has_port port (e ∷ es) = int_eq e.host_port port || has_port port es

-- the forwards that `DeleteForward` keeps
unfoldable pub without_port : ℤ → List Forward → List Forward
unfolding int_eq
without_port port [] = []
without_port port (e ∷ es) =
    let rest = without_port port es in if int_eq e.host_port port then rest else e ∷ rest

-- the loop of `SetBandwidth`, with the hosts seen so far
unfoldable pub check_services : List Bytes → List ServiceLimit → Result (Unit {0})
unfolding validate_host contains between
check_services seen [] = ok tt
check_services seen (s ∷ ss) = both (validate_host s.target_host) (
    both (guard (is_positive s.limit_mbps) validation) (
      both (guard (not (contains seen s.target_host)) validation)
        (check_services (s.target_host ∷ seen) ss)))
  where
    is_positive : ℤ → Bool
    is_positive (pos n) = leb 1 n
    is_positive (negsuc n) = false

is_natural : ℤ → Bool
is_natural (pos n) = true
is_natural (negsuc n) = false

unfoldable pub check_bandwidth : Bandwidth → Result (Unit {0})
unfolding is_natural check_services
check_bandwidth bw =
    both (guard (is_natural bw.total_mbps) validation) (check_services [] bw.services)

module _ {C : Type 0} (b : Backend C) where
  unfoldable pub list_forwards : Live C (List Forward)
  unfolding load
  list_forwards = do cfg ← load b; pure cfg.forwards

  unfoldable pub add_forward : List Bytes → Forward → Live C Forward
  unfolding load save
  add_forward allowed f = do
    lift (check_forward allowed f)
    cfg ← load b
    require (not (has_port f.host_port cfg.forwards)) already_exists
    save b (record cfg { forwards = cfg.forwards ++ f ∷ [] })
    pure f

  unfoldable pub delete_forward : ℤ → Live C (Unit {0})
  unfolding load save
  delete_forward port = do
    cfg ← load b
    require (has_port port cfg.forwards) not_found
    save b (record cfg { forwards = without_port port cfg.forwards })

  unfoldable pub get_bandwidth : Live C Bandwidth
  unfolding load
  get_bandwidth = do cfg ← load b; pure cfg.bandwidth

  unfoldable pub set_bandwidth : Bandwidth → Live C Bandwidth
  unfolding load save
  set_bandwidth bw = do
    lift (check_bandwidth bw)
    cfg ← load b
    save b (record cfg { bandwidth = bw })
    pure bw
