-- ===== src/Vnc/Target.antt =====
-- backend/internal/vnc/vnc.go: a target, its backend, and what may be stored.
use router_docker.Prelude.{
  ℕ, Bool, true, false, not, ◌&&◌, ◌||◌, Option, none, some, List, [], ◌∷◌, ltb, leb, ◌==◌, any,
  length, is_empty, if◌then◌else◌, Result, guard, validation, ◌>>◌,
}
use router_docker.Text.{Bytes, codes, equal, contains, is_some}
use router_docker.DevProxy.Validate.{Settings, validate_name, validate_target}

pub record Target : Type 0 where
  pub name : Bytes
  pub label : Bytes
  pub target : Bytes
  pub backend : Bytes
  pub require_auth : Bool
  pub resize_mode : Bytes

abbrev pub name_of : Target → Bytes
name_of t = t.name

pub data Backend : Type 0 where
  rfb : Backend
  novnc : Backend

-- `backends`, the map from the names
unfoldable pub backend_named : Bytes → Option Backend
unfolding equal
backend_named name =
    if equal name (codes "rfb")
    then some rfb
    else if equal name (codes "novnc")
    then some novnc
    else none

-- the field `appRoute` of each backend, `false` for an unknown one
abbrev has_app_route : Option Backend → Bool
has_app_route none = false
has_app_route (some rfb) = false
has_app_route (some novnc) = true

unfoldable pub uses_app_route : Target → Bool
unfolding backend_named
uses_app_route t = has_app_route (backend_named t.backend)

-- `resizeModes`
abbrev pub resize_modes : List Bytes
resize_modes = codes "remote" ∷ (codes "scale" ∷ (codes "off" ∷ []))

unfoldable pub resize_mode : Target → Bytes
resize_mode t = if is_empty t.resize_mode then codes "remote" else t.resize_mode

abbrev pub is_control : ℕ → Bool
is_control c = ltb c 32 || c == 127

unfoldable pub validate : Settings → Target → Result (Unit {0})
unfolding validate_name backend_named contains uses_app_route validate_target
validate st t = do
  validate_name t.name
  guard (is_some (backend_named t.backend)) validation
  guard (contains resize_modes t.resize_mode || is_empty t.resize_mode) validation
  guard (not (t.require_auth && not (uses_app_route t))) validation
  guard (leb (length t.label) 200) validation
  guard (not (any is_control t.label)) validation
  validate_target st t.target
