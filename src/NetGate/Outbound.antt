-- ===== src/NetGate/Outbound.antt =====
-- backend/internal/netgate/config.go: the ordered outbound list, and what it must keep blocked.
pub mod Prefix
pub mod Backstop
use mathlib.Core.Option
use router_docker.Prelude.Exec.{Exec, continue, ◌>>=◌, ◌>>◌, pure, lift}
use router_docker.Prelude.{
  ℕ, zero, suc, ◌+◌, ◌-◌, ◌*◌, ◌/◌, ◌%◌, ◌^◌, ◌≡◌, refl, Bool, true, false, not, ◌&&◌, ◌||◌, Option,
  none, some, List, [], ◌∷◌, if◌then◌else◌, leb, ◌==◌, is_empty, Error, Result, ok, err, validation,
  invalid_action, guard, for_each,
}
use router_docker.Text.{Bytes, codes, equal, is_some}
use router_docker.Net.Address.{parse_ip, to4}
use router_docker.Net.Cidr.{IpNet, parse_cidr}
use router_docker.NetGate.Config.{OutboundRule, FileConfig, Backend, Live, load, save}

unfoldable pub validate_cidr : Bytes → Result (Unit {0})
unfolding parse_cidr parse_ip
validate_cidr cidr =
    guard (not (is_empty cidr) && (is_some (parse_cidr cidr) || is_some (parse_ip cidr))) validation

abbrev net4 : ℕ → ℕ → IpNet
net4 base ones = record { base = base; ones = ones; bits = 32 }

abbrev pub private_v4 : List IpNet
private_v4 =
    net4 (10 * 2 ^ 24) 8
    ∷ net4 (172 * 2 ^ 24 + 16 * 2 ^ 16) 12
    ∷ net4 (192 * 2 ^ 24 + 168 * 2 ^ 16) 16
    ∷ []

abbrev pub fixed_block_v4 : List IpNet
fixed_block_v4 = net4 (127 * 2 ^ 24) 8 ∷ net4 (169 * 2 ^ 24 + 254 * 2 ^ 16) 16 ∷ net4 0 8 ∷ []

constants_parse :
    (parse_cidr (codes "172.16.0.0/12") ≡ some (net4 (172 * 2 ^ 24 + 16 * 2 ^ 16) 12))
    × (parse_cidr (codes "169.254.0.0/16") ≡ some (net4 (169 * 2 ^ 24 + 254 * 2 ^ 16) 16))
unfolding parse_cidr
constants_parse = (refl, refl)

-- a network with a 16-byte mask whose address is an IPv4 one
unfoldable pub is_v4 : IpNet → Bool
unfolding to4
is_v4 n = n.bits == 32 || is_some (to4 n.base)

-- `ruleNet`: the network, if it is an IPv4 one
unfoldable pub rule_net : Bytes → Option IpNet
unfolding parse_cidr parse_ip to4 is_v4
rule_net cidr = elim (parse_cidr cidr) [
  | some n ↦ if is_v4 n then some n else none
  | none ↦ elim (parse_ip cidr) [
    | none ↦ none
    | some ip ↦ elim (to4 ip) [ none ↦ none | some v ↦ some (net4 v 32) ]
  ]
]

-- the address and the prefix of an IPv4 network in 32 bits, as `Contains` reads them
abbrev pub v4_base : IpNet → ℕ
v4_base n = if n.bits == 32 then n.base else n.base % 2 ^ 32

abbrev pub v4_ones : IpNet → ℕ
v4_ones n = if n.bits == 32 then n.ones else n.ones - 96

unfoldable pub shift_right : ℕ → ℕ → ℕ
shift_right zero v = v
shift_right (suc k) v = shift_right k (v / 2)

-- `Contains`, of an IPv4 network and address: they agree on the bits of the prefix
unfoldable pub contains : IpNet → ℕ → Bool
unfolding shift_right
contains n v = shift_right (32 - v4_ones n) (v4_base n) == shift_right (32 - v4_ones n) v

unfoldable pub covers : IpNet → IpNet → Bool
unfolding contains
covers outer inner = leb outer.ones inner.ones && contains outer (v4_base inner)

unfoldable pub overlaps : IpNet → IpNet → Bool
unfolding contains
overlaps a b = contains a (v4_base b) || contains b (v4_base a)

unfoldable pub is_allow : OutboundRule → Bool
unfolding equal
is_allow r = equal r.action (codes "allow")

unfoldable pub covered : IpNet → Option IpNet → Bool
unfolding covers
covered priv none = false
covered priv (some n) = covers n priv

-- the inner loop over the rules: whether one of them keeps the range blocked
unfoldable pub scan : IpNet → List OutboundRule → Bool → Result Bool
unfolding rule_net covered is_allow
scan priv [] blocked = ok blocked
scan priv (r ∷ rs) blocked =
    if not (covered priv (rule_net r.cidr))
    then scan priv rs blocked
    else if is_allow r
    then err validation
    else scan priv rs true

abbrev pub require_blocked : Result Bool → Result (Unit {0})
require_blocked (err x) = err x
require_blocked (ok blocked) = guard blocked validation

unfoldable pub check_private : List OutboundRule → IpNet → Result (Unit {0})
unfolding scan
check_private rules priv = require_blocked (scan priv rules false)

unfoldable pub check_fixed_of : Option IpNet → Result (Unit {0})
unfolding overlaps
check_fixed_of none = ok tt
check_fixed_of (some n) =
    for_each (λ fixed. guard (not (overlaps n fixed)) validation) fixed_block_v4

unfoldable pub check_fixed : OutboundRule → Result (Unit {0})
unfolding rule_net is_allow check_fixed_of
check_fixed r = if is_allow r then check_fixed_of (rule_net r.cidr) else ok tt

abbrev pub both : Result (Unit {0}) → Result (Unit {0}) → Result (Unit {0})
both (ok tt) k = k
both (err x) k = err x

unfoldable pub check_v4_backstop : List OutboundRule → Result (Unit {0})
unfolding check_private check_fixed
check_v4_backstop rules =
    both (for_each (check_private rules) private_v4) (for_each check_fixed rules)

unfoldable pub check_rule : OutboundRule → Result (Unit {0})
unfolding equal validate_cidr
check_rule r =
    both (guard (equal r.action (codes "allow") || equal r.action (codes "block")) invalid_action)
      (validate_cidr r.cidr)

module _ {C : Type 0} (b : Backend C) where
  unfoldable pub list_outbound : Live C (List OutboundRule)
  unfolding load
  list_outbound = do cfg ← load b; pure cfg.outbound

  unfoldable pub replace_outbound : List OutboundRule → Live C (List OutboundRule)
  unfolding check_rule check_v4_backstop load save
  replace_outbound rules = do
    lift (for_each check_rule rules)
    lift (check_v4_backstop rules)
    cfg ← load b
    save b (record cfg { outbound = rules })
    pure rules
