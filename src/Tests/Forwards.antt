-- ===== src/Tests/Forwards.antt =====
-- The port forwards, over a file that holds the config itself.
use mathlib.Core.Option.{some-injective}
use router_docker.Prelude.{◌≡◌, refl, true, none, some, List, [], ◌∷◌, ok, subst}
use router_docker.Text.{Bytes, codes}
use router_docker.Text.Decimal.{pos}
use router_docker.NetGate.Config.{Forward, FileConfig, Backend, IsBackend, empty_config, load_from}
use router_docker.NetGate.Forwards.{has_port, check_forward, add_forward, delete_forward}
use router_docker.NetGate.Forwards.Unique.{unique_ports, IsValid}
use router_docker.NetGate.Forwards.Invariant.{
  HoldsValid, held, start, add, Calls-HoldsValid, delete_forward-add_forward,
}
use router_docker.TargetGuard

abbrev backend : Backend FileConfig
backend = record { marshal = λ c. c; unmarshal = λ c. some c; read_ok = true; write_ok = true }

abbrev backend-IsBackend : IsBackend backend
backend-IsBackend = record { unmarshal-marshal = λ _. refl }

abbrev hosts : List Bytes
hosts = codes "code-docker" ∷ []

abbrev ssh : Forward
ssh = record { host_port = pos 2222; target_host = codes "code-docker"; target_port = pos 22 }

no_file-HoldsValid : HoldsValid backend hosts none
no_file-HoldsValid cfg h =
    subst (λ (c : FileConfig). IsValid hosts c.forwards) (some-injective _ _ h)
      (record { checked = tt; distinct = unfold unique_ports in refl })

ssh_added : (add_forward backend hosts ssh none).0 ≡ ok ssh
unfolding add_forward check_forward TargetGuard.validate_host TargetGuard.is_self_host load_from
    has_port
ssh_added = refl

none_loaded : load_from backend none ≡ ok empty_config
unfolding load_from
none_loaded = refl

delete_forward-add_forward_example :
    held backend (delete_forward backend (pos 2222) (add_forward backend hosts ssh none).1).1
    ≡ some empty_config
delete_forward-add_forward_example =
    delete_forward-add_forward backend hosts backend-IsBackend ssh none empty_config refl refl
      none_loaded ssh_added

Calls-HoldsValid_example :
    HoldsValid backend hosts
      (add_forward (record backend { read_ok = true; write_ok = true }) hosts ssh none).1
Calls-HoldsValid_example =
    Calls-HoldsValid backend-IsBackend no_file-HoldsValid (add true true ssh start)
