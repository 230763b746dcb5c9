-- ===== src/AppRoutes/Fragment.antt =====
-- backend/internal/approutes/approutes.go: `App`, `Render` and `parseStructured`.
pub mod RoundTrip
use mathlib.Core.Option
use router_docker.Prelude.Maybe.{◌>>=◌, ◌>>◌, check}
use router_docker.Prelude.{
  ℕ, Option, none, some, List, [], ◌∷◌, ◌++◌, Bool, true, false, not, ◌&&◌, ◌==◌, if◌then◌else◌,
  split_last, is_empty,
}
use router_docker.Text.{
  Bytes, codes, equal, has_prefix, has_suffix, trim_prefix, trim_suffix, split, trim_blank,
}
use router_docker.Text.Quote.{quote}
use router_docker.DevProxy.ForwardAuth.{
  render_forward_auth, match_forward_auth, strip_tinyauth_cookies,
}
use router_docker.DevProxy.Fragment.{line}

pub record App : Type 0 where
  pub name : Bytes
  pub target : Bytes
  pub require_auth : Bool

abbrev pub location_rewrite_search : Bytes
location_rewrite_search = codes "^(https?://[^/]+)/"

abbrev pub location_rewrite_replace : Bytes → Bytes
location_rewrite_replace name = codes "${1}/app/" ++ (name ++ codes "/")

abbrev pub header_line : Bytes → Bytes
header_line name = codes "handle_path /app/" ++ (name ++ codes "/* {")

unfoldable pub header_down : Bytes → Bytes
unfolding quote
header_down name =
    codes "\t\theader_down Location "
    ++ (quote location_rewrite_search ++ (codes " " ++ quote (location_rewrite_replace name)))

unfoldable pub render : App → Bytes
unfolding render_forward_auth
render a =
    line (header_line a.name)
    ++ ((if a.require_auth then render_forward_auth (codes "\t") else [])
        ++ (line (codes "\treverse_proxy " ++ (a.target ++ codes " {"))
            ++ (line (header_down a.name)
                ++ (line (codes "\t\t" ++ strip_tinyauth_cookies)
                    ++ (line (codes "\t}") ++ line (codes "}"))))))

next_is_auth : List Bytes → Bool
unfolding has_prefix
next_is_auth [] = false
next_is_auth (l ∷ _) = has_prefix l (codes "\tforward_auth ")

pub parse_auth : List Bytes → Option (Bool × List Bytes)
unfolding match_forward_auth next_is_auth
parse_auth body = elim (match_forward_auth body (codes "\t")) [
  | some rest ↦ some (true, rest)
  | none ↦ if next_is_auth body then none else some (false, body)
]

pub parse_target : List Bytes → Option (Bytes × List Bytes)
parse_target [] = none
parse_target (l ∷ body) = do
  check (has_prefix l (codes "\treverse_proxy "))
  check (has_suffix l (codes " {"))
  some (trim_suffix (trim_prefix l (codes "\treverse_proxy ")) (codes " {"), body)

-- `i >= len(body) || body[i] != want`
pub expect : Bytes → List Bytes → Option (List Bytes)
unfolding equal
expect want [] = none
expect want (l ∷ body) = if equal l want then some body else none

-- a line that may be missing
pub skip : Bytes → List Bytes → List Bytes
unfolding equal
skip want [] = []
skip want (l ∷ body) = if equal l want then body else l ∷ body

pub parse_body : Bytes → List Bytes → Option App
unfolding parse_auth parse_target expect skip
parse_body name body = do
  auth ← parse_auth body
  target ← parse_target auth.1
  rest ← expect (header_down name) target.1
  close ← expect (codes "\t}") (skip (codes "\t\t" ++ strip_tinyauth_cookies) rest)
  check (is_empty close)
  some (record { name = name; target = target.0; require_auth = auth.0 })

-- Three lines at least, so that the body between the first and the last has one.
pub parse_lines : Bytes → List Bytes → Option App
unfolding equal parse_body
parse_lines name [] = none
parse_lines name (l ∷ ls) = do
  check (equal l (header_line name))
  ends ← split_last ls
  check (not (is_empty ends.0))
  check (equal ends.1 (codes "}"))
  parse_body name ends.0

unfoldable pub parse_structured : Bytes → Bytes → Option App
unfolding parse_lines trim_blank split
parse_structured name content = parse_lines name (trim_blank (split b'\n' content))
