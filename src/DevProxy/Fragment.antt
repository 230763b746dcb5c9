-- ===== src/DevProxy/Fragment.antt =====
-- backend/internal/devproxy/devproxy.go: `Expose`, `Route`, `Render` and `parseStructured`.
pub mod Lines
pub mod RoundTrip
pub mod Whole
use mathlib.Core.Option
use router_docker.Prelude.Maybe.{◌>>=◌, ◌>>◌, check}
use router_docker.Prelude.{
  ℕ, zero, suc, Option, none, some, List, [], ◌∷◌, ◌++◌, map, reverse, Bool, true, false, not, ◌&&◌,
  ltb, ◌==◌, if◌then◌else◌, is_empty, split_last, length,
}
use router_docker.Text.{Bytes, codes, equal, cut_prefix, cut_suffix, has_prefix, split, trim_blank}
use router_docker.DevProxy.ForwardAuth.{
  render_forward_auth, match_forward_auth, strip_tinyauth_cookies, or_else,
}

-- The fields stand in the order in which `validateExpose` and `renderRoute` read them.
pub record Route : Type 0 where
  pub path : Bytes
  pub target : Bytes
  pub strip_prefix : Bytes
  pub rewrite_prefix : Bytes
  pub mode : Bytes
  pub require_auth : Bool

pub record Expose : Type 0 where
  pub name : Bytes
  pub host : Bytes
  pub routes : List Route

abbrev pub line : Bytes → Bytes
line s = s ++ b'\n' ∷ []

unfoldable pub directive_of : Bytes → Bytes
unfolding equal
directive_of mode = if equal mode (codes "route") then codes "route" else codes "handle"

unfoldable pub header_text : Bytes → Bytes → Bytes
header_text directive path =
    if not (is_empty path)
    then codes "\t" ++ (directive ++ (codes " " ++ (path ++ codes " {")))
    else codes "\t" ++ (directive ++ codes " {")

abbrev pub route_header : Route → Bytes
route_header rt = header_text (directive_of rt.mode) rt.path

unfoldable pub render_route : Route → Bytes
unfolding header_text directive_of render_forward_auth
render_route rt =
    line (route_header rt)
    ++ ((if rt.require_auth then render_forward_auth (codes "\t\t") else [])
        ++ ((if not (is_empty rt.strip_prefix)
              then line (codes "\t\turi strip_prefix " ++ rt.strip_prefix)
              else [])
            ++ ((if not (is_empty rt.rewrite_prefix)
                  then line (codes "\t\trewrite * " ++ (rt.rewrite_prefix ++ codes "{uri}"))
                  else [])
                ++ (line (codes "\t\treverse_proxy " ++ (rt.target ++ codes " {"))
                    ++ (line (codes "\t\t\t" ++ strip_tinyauth_cookies)
                        ++ (line (codes "\t\t}") ++ line (codes "\t}")))))))

unfoldable pub render_routes : List Route → Bytes
unfolding render_route
render_routes [] = []
render_routes (rt ∷ rts) = render_route rt ++ render_routes rts

unfoldable pub render : Expose → Bytes
unfolding render_routes
render e =
    line (codes "@" ++ (e.name ++ (codes " host " ++ e.host)))
    ++ (line (codes "handle @" ++ (e.name ++ codes " {"))
        ++ ((if is_empty e.routes then line (codes "\trespond 404") else [])
            ++ (render_routes e.routes ++ line (codes "}"))))

-- the optional group `(?: (.+))?` of `routeHeaderRe`
pub header_path : Bytes → Option Bytes
header_path [] = some []
header_path (c ∷ []) = none
header_path (c ∷ d ∷ s) = if c == 32 then some (d ∷ s) else none

unfoldable pub header_of : Bytes → Bytes → Option Bytes
unfolding cut_prefix header_path
header_of l directive = do
  rest ← cut_prefix l (codes "\t" ++ directive)
  middle ← cut_suffix rest (codes " {")
  header_path middle

-- `routeHeaderRe`, `^\t(route|handle)(?: (.+))? \{$`, on a line: its groups 1 and 2
unfoldable pub match_header : Bytes → Option (Bytes × Bytes)
unfolding header_of
match_header l =
    or_else (Option.map (λ p. (codes "route", p)) (header_of l (codes "route")))
      (Option.map (λ p. (codes "handle", p)) (header_of l (codes "handle")))

next_is_auth : List Bytes → Bool
unfolding has_prefix
next_is_auth [] = false
next_is_auth (l ∷ _) = has_prefix l (codes "\t\tforward_auth ")

-- the auth block; a `forward_auth` of another shape refuses the fragment
unfoldable pub parse_auth : List Bytes → Option (Bool × List Bytes)
unfolding match_forward_auth next_is_auth
parse_auth body = elim (match_forward_auth body (codes "\t\t")) [
  | some rest ↦ some (true, rest)
  | none ↦ if next_is_auth body then none else some (false, body)
]

unfoldable pub parse_strip : List Bytes → Bytes × List Bytes
unfolding cut_prefix
parse_strip [] = ([], [])
parse_strip (l ∷ body) = elim (cut_prefix l (codes "\t\turi strip_prefix ")) [
  | some p ↦ (p, body)
  | none ↦ ([], l ∷ body)
]

unfoldable pub parse_rewrite : List Bytes → Bytes × List Bytes
unfolding cut_prefix
parse_rewrite [] = ([], [])
parse_rewrite (l ∷ body) =
    elim (do p ← cut_prefix l (codes "\t\trewrite * "); cut_suffix p (codes "{uri}")) [
      | some p ↦ (p, body)
      | none ↦ ([], l ∷ body)
    ]

-- the current shape of the `reverse_proxy` block, behind its first line
unfoldable pub parse_proxy_body : Bytes → List Bytes → Option (Bytes × List Bytes)
unfolding equal
parse_proxy_body target (cookies ∷ close ∷ body) =
    if equal cookies (codes "\t\t\t" ++ strip_tinyauth_cookies) && equal close (codes "\t\t}")
    then some (target, body)
    else none
parse_proxy_body target _ = none

proxy_shape : Option Bytes → Bytes → List Bytes → Option (Bytes × List Bytes)
unfolding parse_proxy_body
proxy_shape (some target) line body = parse_proxy_body target body
proxy_shape none line body = some (line, body)

-- both shapes of the `reverse_proxy` directive
unfoldable pub parse_proxy : List Bytes → Option (Bytes × List Bytes)
unfolding cut_prefix proxy_shape
parse_proxy [] = none
parse_proxy (l ∷ body) = do
  p ← cut_prefix l (codes "\t\treverse_proxy ")
  proxy_shape (cut_suffix p (codes " {")) p body

unfoldable pub parse_close : List Bytes → Option (List Bytes)
unfolding equal
parse_close [] = none
parse_close (l ∷ body) = if equal l (codes "\t}") then some body else none

-- `parseRoute(body, i)`, with the lines past the route
unfoldable pub parse_route : List Bytes → Option (Route × List Bytes)
unfolding match_header parse_auth parse_strip parse_rewrite parse_proxy parse_close
parse_route [] = none
parse_route (l ∷ body) = do
  header ← match_header l
  auth ← parse_auth body
  let strip = parse_strip auth.1
  let rewrite = parse_rewrite strip.1
  proxy ← parse_proxy rewrite.1
  rest ← parse_close proxy.1
  some (
    record {
      path = header.1;
      target = proxy.0;
      strip_prefix = strip.0;
      rewrite_prefix = rewrite.0;
      mode = header.0;
      require_auth = auth.0;
    },
    rest,
  )

-- `for i < len(body)`, with as much fuel as there are lines
unfoldable pub parse_routes : ℕ → List Bytes → Option (List Route)
unfolding parse_route
parse_routes fuel [] = some []
parse_routes zero (l ∷ body) = none
parse_routes (suc fuel) (l ∷ body) = do
  found ← parse_route (l ∷ body)
  rts ← parse_routes fuel found.1
  some (found.0 ∷ rts)

abbrev pub is_placeholder : List Bytes → Bool
is_placeholder (l ∷ []) = equal l (codes "\trespond 404")
is_placeholder _ = false

-- the checks on the first two lines and the last one; three lines at least
unfoldable pub parse_lines : Bytes → List Bytes → Option Expose
unfolding cut_prefix equal parse_routes
parse_lines name (l0 ∷ l1 ∷ ls) = do
  host ← cut_prefix l0 (codes "@" ++ (name ++ codes " host "))
  check (equal l1 (codes "handle @" ++ (name ++ codes " {")))
  ends ← split_last ls
  check (equal ends.1 (codes "}"))
  routes ← if is_placeholder ends.0 then some [] else parse_routes (length ends.0) ends.0
  some (record { name = name; host = host; routes = routes })
parse_lines name _ = none

unfoldable pub parse_structured : Bytes → Bytes → Option Expose
unfolding trim_blank split parse_lines
parse_structured name content = parse_lines name (trim_blank (split b'\n' content))
