-- ===== src/Net/Cidr.antt =====
-- `net.ParseCIDR`, and what the program asks of a network. The network's address is masked, and
-- `bits` is the length of its mask, 32 for IPv4.
use router_docker.Prelude.Maybe.{◌>>=◌, ◌>>◌, check}
use router_docker.Prelude.{
  ℕ, ◌+◌, ◌-◌, ◌*◌, ◌/◌, ◌^◌, not, ◌&&◌, Option, some, [], ◌∷◌, leb, ltb, ◌==◌, if◌then◌else◌,
  is_empty, all,
}
use router_docker.Text.{Bytes, cut, is_digit}
use router_docker.Net.Address.{parse_addr, mapped}

pub record IpNet : Type 0 where
  -- the network number, `ones` bits of prefix in an address of `bits` bits
  pub base : ℕ
  pub ones : ℕ
  pub bits : ℕ

number_from : ℕ → Bytes → ℕ
number_from acc [] = acc
number_from acc (c ∷ s) = number_from (acc * 10 + (c - b'0')) s

-- `dtoi` on a whole text; it gives up at 0xFFFFFF
prefix_length : Bytes → Option ℕ
unfolding number_from
prefix_length s = do
  check (not (is_empty s) && all is_digit s)
  check (ltb (number_from 0 s) 0xffffff)
  some (number_from 0 s)

-- the value of an address without the bits behind the prefix
abbrev pub masked : ℕ → ℕ → ℕ → ℕ
masked v ones bits = v / 2 ^ (bits - ones) * 2 ^ (bits - ones)

abbrev own_value : ℕ → ℕ → ℕ
own_value ip bits = if bits == 32 then ip - mapped 0 else ip

unfoldable pub parse_cidr : Bytes → Option IpNet
unfolding cut parse_addr prefix_length
parse_cidr s = do
  parts ← cut b'/' s
  addr ← parse_addr parts.0
  ones ← prefix_length parts.1
  check (leb ones addr.1)
  some (record { base = masked (own_value addr.0 addr.1) ones addr.1; ones = ones; bits = addr.1 })
