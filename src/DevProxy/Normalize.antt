-- ===== src/DevProxy/Normalize.antt =====
-- backend/internal/devproxy/normalize.go: `Normalize`, the repair of the fragments at start-up.
use router_docker.Prelude.{◌≡◌, true, List, Result, ok, if◌then◌else◌}
use router_docker.Text.{Bytes, contains}
use router_docker.Fragments.{System}
use router_docker.Fragments.Files.{Dir, lookup}
use router_docker.Fragments.Laws.{IsReliable}
use router_docker.Fragments.Normalize as Loop
use router_docker.Fragments.Normalize.{Repair, is_distinct, settled, normalize_names-settled}
use router_docker.DevProxy.Fragment.{render, parse_structured}

unfoldable pub normalize : System → Result (List Bytes) → Dir → Repair
unfolding Loop.normalize
normalize sys listed d = Loop.normalize sys parse_structured render listed d

-- On a system whose reads and writes do not fail, `Normalize` over a listing of distinct names
-- reports no error, turns each listed fragment that `parseStructured` reads into what `Render`
-- writes for it, and leaves every other fragment, and every text that does not parse, as it is.
pub normalize-settled :
    (sys : System) (names : List Bytes) (j : Bytes) (d : Dir)
    → IsReliable sys
    → is_distinct names ≡ true
    → ((normalize sys (ok names) d).0.1 ≡ ok tt)
      × (lookup j (normalize sys (ok names) d).1 ≡ (
          if contains names j
          then settled sys parse_structured render j (lookup j d)
          else lookup j d))
unfolding normalize
normalize-settled sys names j d r u =
    normalize_names-settled sys parse_structured render names j d r u
