-- ===== src/Tests/Net.antt =====
-- Runs of the address parser.
use router_docker.Prelude.{◌≡◌, refl, some, none, ◌+◌, ◌*◌, ◌^◌}
use router_docker.Net.Address.{parse_ip, mapped}
use router_docker.Text.{codes}

ips :
    (parse_ip (codes "127.0.0.1") ≡ some (mapped (127 * 2 ^ 24 + 1)))
    × (parse_ip (codes "::1") ≡ some 1)
    × (parse_ip (codes "::") ≡ some 0)
    × (parse_ip (codes "::ffff:127.0.0.1") ≡ some (mapped (127 * 2 ^ 24 + 1)))
    × (parse_ip (codes "1:2:3:4:5:6:7:8") ≡ parse_ip (codes "1:2:3:4:5:6:0.7.0.8"))
    × (parse_ip (codes "fe80::1%eth0") ≡ none)
    × (parse_ip (codes "01.2.3.4") ≡ none)
    × (parse_ip (codes "1::2::3") ≡ none)
    × (parse_ip (codes "1:2:3:4:5:6:7:8:9") ≡ none)
    × (parse_ip (codes "1:2:3:4:5:6:7::8") ≡ none)
    × (parse_ip (codes "1::8") ≡ some (2 ^ 112 + 8))
    × (parse_ip (codes "1.2.3.") ≡ none)
    × (parse_ip (codes "dind") ≡ none)
unfolding parse_ip
ips = (refl, refl, refl, refl, refl, refl, refl, refl, refl, refl, refl, refl, refl)
