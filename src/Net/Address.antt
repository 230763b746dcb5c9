-- ===== src/Net/Address.antt =====
-- `net.ParseIP` (`netip.ParseAddr` with no zone), and the tests on an address.
pub mod Characters
use mathlib.Core.Option
use router_docker.Prelude.Maybe.{◌>>=◌, ◌>>◌, check}
use router_docker.Prelude.{
  ℕ, zero, suc, ◌+◌, ◌-◌, ◌*◌, ◌/◌, ◌%◌, ◌^◌, Bool, true, false, not, ◌&&◌, ◌||◌, Option, none,
  some, List, [], ◌∷◌, ltb, leb, ◌==◌, if◌then◌else◌, is_empty, any, take, drop,
}
use router_docker.Text.{Bytes, split, is_digit, within, is_some}

-- the digits of one field of a dotted quad, behind `acc`: at most 255, and no leading zero
octet_from : ℕ → Bool → Bytes → Option ℕ
octet_from acc started [] = if started then some acc else none
octet_from acc started (c ∷ s) =
    let next = acc * 10 + (c - b'0') in
    let rest = octet_from next true s in
    if not (is_digit c) || (started && acc == 0) || ltb 255 next then none else rest

unfoldable pub octet : Bytes → Option ℕ
unfolding octet_from
octet = octet_from 0 false

unfoldable pub quad_of : List Bytes → Option ℕ
unfolding octet
quad_of (a ∷ b ∷ c ∷ d ∷ []) = do
  i ← octet a
  j ← octet b
  k ← octet c
  l ← octet d
  some (((i * 256 + j) * 256 + k) * 256 + l)
quad_of _ = none

-- `parseIPv4Fields`, as a 32-bit value
unfoldable pub parse_ipv4 : Bytes → Option ℕ
unfolding quad_of split
parse_ipv4 s = quad_of (split b'.' s)

abbrev pub mapped : ℕ → ℕ
mapped v = 0xffff * 2 ^ 32 + v

hex_digit : ℕ → Option ℕ
hex_digit c =
    if is_digit c
    then some (c - b'0')
    else if within b'a' b'f' c
    then some (c - b'a' + 10)
    else if within b'A' b'F' c
    then some (c - b'A' + 10)
    else none

-- the hex number at the front of a text: its value, how many digits it has, and what follows
hex_field : Bytes → ℕ → ℕ → ℕ × ℕ × Bytes
unfolding hex_digit
hex_field [] acc n = (acc, n, [])
hex_field (c ∷ s) acc n = elim (hex_digit c) [
  | none ↦ (acc, n, c ∷ s)
  | some d ↦ hex_field s (acc * 16 + d) (n + 1)
]

-- the groups read so far, last one first, and where `::` stands among them
pub record Groups : Type 0 where
  pub read : List ℕ
  pub count : ℕ
  pub ellipsis : Option ℕ

add_group : ℕ → Groups → Groups
add_group v g = record g { read = v ∷ g.read; count = g.count + 1 }

-- behind a group and its colon: a second colon is the ellipsis, allowed once
after_colon : (Bytes → Groups → Option (Groups × Bytes)) → Bytes → Groups → Option (Groups × Bytes)
after_colon next [] g = none
after_colon next (c ∷ s) g =
    if not (c == b':')
    then next (c ∷ s) g
    else if is_some g.ellipsis
    then none
    else let h : Groups = record g { ellipsis = some g.count } in
      if is_empty s then some (h, []) else next s h

-- behind the digits of a group
after_number :
    (Bytes → Groups → Option (Groups × Bytes)) → ℕ → Bytes → Groups → Option (Groups × Bytes)
unfolding add_group after_colon
after_number next v [] g = some (add_group v g, [])
after_number next v (c ∷ s) g = if c == b':' then after_colon next s (add_group v g) else none

-- an IPv4 address at the end fills the last two groups
embed_ipv4 : Bytes → Groups → Option (Groups × Bytes)
unfolding add_group parse_ipv4
embed_ipv4 s g = do
  check (is_some g.ellipsis || g.count == 6)
  check (leb g.count 6)
  v ← parse_ipv4 s
  some (add_group (v % 2 ^ 16) (add_group (v / 2 ^ 16) g), [])

starts_with_dot : Bytes → Bool
starts_with_dot [] = false
starts_with_dot (c ∷ s) = c == b'.'

parse_group : (Bytes → Groups → Option (Groups × Bytes)) → Bytes → Groups → Option (Groups × Bytes)
unfolding hex_field embed_ipv4 after_number starts_with_dot
parse_group next s g =
    let field = hex_field s 0 0 in
    if field.1 == 0 || ltb 4 field.1
    then none
    else if starts_with_dot field.2
    then embed_ipv4 s g
    else after_number next field.0 field.2 g

-- The loop of `parseIPv6`, over the groups that are still free: the groups, and the text not read.
parse_groups : ℕ → Bytes → Groups → Option (Groups × Bytes)
unfolding parse_group
parse_groups zero s g = some (g, s)
parse_groups (suc room) s g = parse_group (λ t h. parse_groups room t h) s g

groups_value : List ℕ → ℕ
groups_value [] = 0
groups_value (v ∷ older) = groups_value older * 2 ^ 16 + v

-- `::` stands for the missing groups: one at least
expand : Groups → Option ℕ
unfolding groups_value
expand g = elim g.ellipsis [
  | none ↦ if g.count == 8 then some (groups_value g.read) else none
  | some e ↦
      let after = g.count - e in
      if g.count == 8
      then none
      else some
          (groups_value (drop after g.read) * 2 ^ (16 * (8 - e)) + groups_value (take after g.read))
]

start_groups : Bytes → Groups × Bytes
start_groups (c ∷ d ∷ s) =
    if c == b':' && d == b':'
    then (record { read = []; count = 0; ellipsis = some 0 }, s)
    else (record { read = []; count = 0; ellipsis = none }, c ∷ d ∷ s)
start_groups s = (record { read = []; count = 0; ellipsis = none }, s)

parse_ipv6_from : Groups × Bytes → Option ℕ
unfolding parse_groups expand
parse_ipv6_from (g, s) =
    if is_some g.ellipsis && is_empty s
    then some 0
    else (do found ← parse_groups 8 s g; check (is_empty found.1); expand found.0)

unfoldable pub parse_ipv6 : Bytes → Option ℕ
unfolding start_groups parse_ipv6_from
parse_ipv6 s = parse_ipv6_from (start_groups s)

-- which of `.` and `:` comes first
unfoldable pub family : Bytes → Option ℕ
family [] = none
family (c ∷ s) = if c == b'.' || c == b':' then some c else family s

-- `net.ParseIP`, and the address length in bits beside the value. An address with a zone is none.
unfoldable pub parse_addr : Bytes → Option (ℕ × ℕ)
unfolding family parse_ipv4 parse_ipv6
parse_addr s = do
  check (not (any (λ c. c == b'%') s))
  f ← family s
  (if f == b'.'
      then Option.map (λ v. (mapped v, 32)) (parse_ipv4 s)
      else Option.map (λ v. (v, 128)) (parse_ipv6 s))

unfoldable pub parse_ip : Bytes → Option ℕ
unfolding parse_addr
parse_ip s = Option.map (λ a. a.0) (parse_addr s)

-- `IP.To4`
unfoldable pub to4 : ℕ → Option ℕ
to4 ip = if ip / 2 ^ 32 == 0xffff then some (ip % 2 ^ 32) else none

-- `IP.IsLoopback`
unfoldable pub is_loopback : ℕ → Bool
unfolding to4
is_loopback ip = elim (to4 ip) [ some v ↦ v / 2 ^ 24 == 127 | none ↦ ip == 1 ]

-- `IP.IsUnspecified`
unfoldable pub is_unspecified : ℕ → Bool
is_unspecified ip = ip == mapped 0 || ip == 0
