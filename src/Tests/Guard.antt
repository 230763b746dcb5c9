-- ===== src/Tests/Guard.antt =====
-- The target guard and the outbound backstop, at concrete inputs.
use router_docker.Prelude.{
  ◌≡◌, ◌⊎◌, refl, true, false, none, some, List, [], ◌∷◌, ok, err, validation, All, ℕ, ◌+◌, ◌*◌,
  ◌^◌, arith,
}
use router_docker.Text.{Bytes, codes, to_lower}
use router_docker.Text
use router_docker.TargetGuard
use router_docker.TargetGuard.Safety.{validate-safe}
use router_docker.TargetGuard.Loopback.{loopback_text, validate_host-loopback}
use router_docker.NetGate.Config.{OutboundRule}
use router_docker.NetGate.Outbound.{fixed_block_v4, contains, is_allow, check_v4_backstop}
use router_docker.NetGate.Outbound.Backstop.{matches, check_v4_backstop-fixed}

abbrev hosts : List Bytes
hosts = codes "code-docker" ∷ codes "dind" ∷ []

abbrev web : Bytes
web = codes "code-docker:8080"

web-accepted : TargetGuard.validate web hosts none ≡ ok tt
unfolding TargetGuard.validate TargetGuard.validate_host TargetGuard.is_self_host
web-accepted = refl

validate-safe_example :
    (TargetGuard.is_self_host (codes "code-docker") ≡ false)
    × (TargetGuard.is_denied (to_lower (codes "code-docker")) (codes "8080") ≡ false)
    × ((TargetGuard.opts_out none ≡ true)
        ⊎ (Text.contains hosts (to_lower (codes "code-docker")) ≡ true))
unfolding TargetGuard.target_parts
validate-safe_example = validate-safe web hosts none web-accepted

validate_host-loopback_example :
    TargetGuard.validate_host (loopback_text 0 255 3) (codes "80") hosts (some (codes "true"))
    ≡ err validation
validate_host-loopback_example =
    validate_host-loopback 0 255 3 (codes "80") hosts (some (codes "true")) (omega arith)
      (omega arith) (omega arith)

abbrev rule : Bytes → Bytes → OutboundRule
rule action cidr = record { action = action; cidr = cidr }

abbrev fenced : List OutboundRule
fenced =
    rule (codes "allow") (codes "10.1.2.3")
    ∷ rule (codes "block") (codes "10.0.0.0/8")
    ∷ rule (codes "block") (codes "172.16.0.0/12")
    ∷ rule (codes "block") (codes "192.168.0.0/16")
    ∷ []

fenced-accepted : check_v4_backstop fenced ≡ ok tt
unfolding check_v4_backstop
fenced-accepted = refl

-- 10.1.2.3
abbrev excepted_host : ℕ
excepted_host = 10 * 2 ^ 24 + 2 ^ 16 + 515

check_v4_backstop-fixed_example :
    All
      (λ r.
        is_allow r ≡ true
        → All
            (λ fixed. contains fixed excepted_host ≡ true → matches r excepted_host ≡ false)
            fixed_block_v4)
      fenced
check_v4_backstop-fixed_example = check_v4_backstop-fixed fenced excepted_host fenced-accepted

-- Two allow rules that each cover half of 10.0.0.0/8 pass, and every address of it is allowed.
halves_pass :
    check_v4_backstop (
      rule (codes "allow") (codes "10.0.0.0/9")
      ∷ rule (codes "allow") (codes "10.128.0.0/9")
      ∷ fenced)
    ≡ ok tt
unfolding check_v4_backstop
halves_pass = refl
