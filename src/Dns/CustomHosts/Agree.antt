-- ===== src/Dns/CustomHosts/Agree.antt =====
-- The two files of the custom hosts.
use router_docker.Prelude.{◌≡◌, Option, none, some, List, [], ◌∷◌, map}
use router_docker.Text.{Bytes}
use mathlib.Core.Option
use router_docker.Dns.CustomHosts.Reading.{read_hosts, line_of}
use router_docker.Text.Lines.{unlines}
use router_docker.Document
use router_docker.Dns.CustomHosts.{HostEntry}

abbrev pub pair_of : HostEntry → Bytes × Bytes
pair_of e = (e.ip, e.host)

-- No file without entries; else one that holds the line of each, and that a reader of the hosts
-- format reads as their addresses and names.
abbrev pub Renders : List HostEntry → Option Bytes → Type 0
Renders [] file = file ≡ none
Renders (e ∷ es) file =
    (file ≡ some (unlines (map (λ x. line_of (pair_of x)) (e ∷ es))))
    × (Option.map read_hosts file ≡ some (map pair_of (e ∷ es)))
