-- ===== src/Dns/CustomHosts/Reading.antt =====
-- The hosts format, as a reader of it takes a file: a line is an address, a blank and a name.
use router_docker.Prelude.{
  ◌≡◌, refl, ap, ◌∙◌, true, Option, none, some, List, [], ◌∷◌, ◌++◌, map, all, All, arith,
}
use router_docker.Text.{Bytes, split, cut, is_some}
use router_docker.Text.Cut.{cut-append}
use router_docker.Text.Lines.{lacks, lacks-append, unlines, split-unlines, IsLine}
use router_docker.Net.Address.{parse_ip}
use router_docker.Net.Address.Characters.{parse_ip-lacks}
use router_docker.NetGate.Forwards.{is_middle_byte, is_plain_host}
use router_docker.NetGate.Forwards.Plain.{is_plain_host-bytes}

-- the two fields of a line, where it has two
abbrev pub add_line : Option (Bytes × Bytes) → List (Bytes × Bytes) → List (Bytes × Bytes)
add_line none rest = rest
add_line (some p) rest = p ∷ rest

unfoldable pub read_lines : List Bytes → List (Bytes × Bytes)
unfolding cut
read_lines [] = []
read_lines (l ∷ ls) = add_line (cut b' ' l) (read_lines ls)

unfoldable pub read_hosts : Bytes → List (Bytes × Bytes)
unfolding read_lines split
read_hosts content = read_lines (split b'\n' content)

-- an address and a name
abbrev pub IsPair : Bytes × Bytes → Type 0
IsPair (ip, host) = (is_some (parse_ip ip) ≡ true) × (is_plain_host host ≡ true)

abbrev pub line_of : Bytes × Bytes → Bytes
line_of (ip, host) = ip ++ (b' ' ∷ host)

middle-lacks : (s : Bytes) → all is_middle_byte s ≡ true → lacks b'\n' s ≡ true
unfolding lacks
middle-lacks [] h = refl
middle-lacks (c ∷ s) h = ground (arith, middle-lacks s)

line-IsLine : (p : Bytes × Bytes) → IsPair p → IsLine (line_of p)
line-IsLine (ip, host) (address, plain) =
    lacks-append b'\n' ip (b' ' ∷ host) (parse_ip-lacks b'\n' refl ip address)
      (unfold lacks in middle-lacks host (is_plain_host-bytes host plain).1)

lines-IsLine : (ps : List (Bytes × Bytes)) → All IsPair ps → All IsLine (map line_of ps)
lines-IsLine [] a = tt
lines-IsLine (p ∷ ps) a = (line-IsLine p a.0, lines-IsLine ps a.1)

read_lines-lines :
    (ps : List (Bytes × Bytes)) → All IsPair ps → read_lines (map line_of ps ++ [] ∷ []) ≡ ps
unfolding read_lines
read_lines-lines [] a = unfold cut in refl
read_lines-lines ((ip, host) ∷ ps) a =
    rw (cut-append b' ' ip host (parse_ip-lacks b' ' refl ip a.0.0), read_lines-lines ps a.1) refl

-- The lines of such pairs are read back as the pairs.
pub read_hosts-unlines :
    (ps : List (Bytes × Bytes)) → All IsPair ps → read_hosts (unlines (map line_of ps)) ≡ ps
unfolding read_hosts
read_hosts-unlines ps a =
    ap read_lines (split-unlines (map line_of ps) (lines-IsLine ps a)) ∙ read_lines-lines ps a
