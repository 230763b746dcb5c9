-- ===== src/AppRoutes/Validate.antt =====
-- backend/internal/approutes/approutes.go: `validateApp`, and what an App Route that passes it
-- keeps through its fragment.
use router_docker.Prelude.{◌≡◌, Result, ok, ◌>>◌, >>-eq-ok, some}
use router_docker.DevProxy.Validate.{Settings, validate_name, validate_target}
use router_docker.DevProxy.Validate.Lines.{validate_name-IsLine, validate_target-IsLine}
use router_docker.AppRoutes.Fragment.{App, render, parse_structured}
use router_docker.AppRoutes.Fragment.RoundTrip.{IsRenderable, parse_structured-render}

unfoldable pub validate_app : Settings → App → Result (Unit {0})
unfolding validate_name validate_target
validate_app st a = do validate_name a.name; validate_target st a.target

pub validate_app-IsRenderable :
    (st : Settings) (a : App) → validate_app st a ≡ ok tt → IsRenderable a
unfolding validate_app
validate_app-IsRenderable st a h =
    let (name, target) = >>-eq-ok (validate_name a.name) _ h in
    record {
      name_line = validate_name-IsLine a.name name;
      target_line = validate_target-IsLine st a.target target;
    }

-- An App Route that `validateApp` accepts, under any settings of the environment, is recovered
-- exactly by `parseStructured` from the fragment that `Render` writes for it.
pub parse_structured-render_of_valid_app :
    (st : Settings) (a : App)
    → validate_app st a ≡ ok tt
    → parse_structured a.name (render a) ≡ some a
parse_structured-render_of_valid_app st a h =
    parse_structured-render a (validate_app-IsRenderable st a h)
