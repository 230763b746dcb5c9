-- ===== src/DevProxy/Fragment/RoundTrip.antt =====
-- `parseStructured` reads back what `Render` writes, route by route.
use router_docker.Prelude.{◌≡◌, refl, inl, inr, Bool, true, false, some, List, [], ◌∷◌, ◌++◌}
use router_docker.Text.{Bytes, codes, equal, cut_suffix}
use router_docker.Text.Laws.{equal_refl, cut_prefix-append, cut_suffix-append}
use router_docker.DevProxy.ForwardAuth.{match_lines, match_forward_auth, forward_auth_block}
use router_docker.DevProxy.Fragment.Lines.{
  IsRenderableRoute, tail_lines, auth_lines, proxy_lines, rewrite_lines, route_lines,
}
use router_docker.DevProxy.Fragment.{
  Route, directive_of, header_text, route_header, header_of, match_header, header_path, parse_auth,
  parse_strip, parse_rewrite, parse_proxy, parse_route,
}

pub match_lines-append : (w rest : List Bytes) → match_lines (w ++ rest) w ≡ some rest
unfolding match_lines
match_lines-append [] [] = refl
match_lines-append [] (l ∷ rest) = refl
match_lines-append (l ∷ w) rest = rw (equal_refl l, match_lines) (match_lines-append w rest)

match_forward_auth-block :
    (rest : List Bytes)
    → match_forward_auth (forward_auth_block (codes "\t\t") ++ rest) (codes "\t\t") ≡ some rest
unfolding match_forward_auth
match_forward_auth-block rest =
    rw (match_lines-append (forward_auth_block (codes "\t\t")) rest, match_forward_auth) refl

parse_proxy-lines :
    (target : Bytes) (rest : List Bytes)
    → parse_proxy (proxy_lines target ++ rest) ≡ some (target, codes "\t}" ∷ rest)
unfolding parse_proxy
parse_proxy-lines target rest = rw (cut_suffix-append target (codes " {"), parse_proxy) refl

parse_rewrite-lines :
    (rewrite target : Bytes) (rest : List Bytes)
    → parse_rewrite ((rewrite_lines rewrite ++ proxy_lines target) ++ rest)
      ≡ (rewrite, proxy_lines target ++ rest)
unfolding parse_rewrite
parse_rewrite-lines [] target rest = refl
parse_rewrite-lines (c ∷ r) target rest =
    rw (cut_suffix-append (c ∷ r) (codes "{uri}"), parse_rewrite) refl

parse_strip-lines :
    (strip rewrite target : Bytes) (rest : List Bytes)
    → parse_strip (tail_lines strip rewrite target ++ rest)
      ≡ (strip, (rewrite_lines rewrite ++ proxy_lines target) ++ rest)
unfolding parse_strip
parse_strip-lines [] [] target rest = refl
parse_strip-lines [] (c ∷ r) target rest = refl
parse_strip-lines (c ∷ s) rewrite target rest = refl

-- after the auth block comes one of three lines, and none of them is a `forward_auth`
parse_auth-tail :
    (strip rewrite target : Bytes) (rest : List Bytes)
    → parse_auth (tail_lines strip rewrite target ++ rest)
      ≡ some (false, tail_lines strip rewrite target ++ rest)
unfolding parse_auth equal
parse_auth-tail [] [] target rest = refl
parse_auth-tail [] (c ∷ r) target rest = refl
parse_auth-tail (c ∷ s) rewrite target rest = refl

auth_found :
    (rest : List Bytes) → parse_auth (forward_auth_block (codes "\t\t") ++ rest) ≡ some (true, rest)
auth_found rest = unfold parse_auth in rw (match_forward_auth-block rest, parse_auth) refl

parse_auth-lines :
    (b : Bool) (strip rewrite target : Bytes) (rest : List Bytes)
    → parse_auth ((auth_lines b ++ tail_lines strip rewrite target) ++ rest)
      ≡ some (b, tail_lines strip rewrite target ++ rest)
unfolding forward_auth_block
parse_auth-lines true strip rewrite target rest =
    auth_found (tail_lines strip rewrite target ++ rest)
parse_auth-lines false strip rewrite target rest = parse_auth-tail strip rewrite target rest

header_of-framed :
    (d path : Bytes)
    → header_of (codes "\t" ++ (d ++ (32 ∷ (path ++ codes " {")))) d ≡ header_path (32 ∷ path)
unfolding header_of
header_of-framed d path =
    rw (cut_prefix-append (codes "\t" ++ d) (32 ∷ (path ++ codes " {")), header_of)
      (rw (cut_suffix-append (32 ∷ path) (codes " {")) refl)

match_header-route :
    (path : Bytes) → match_header (header_text (codes "route") path) ≡ some (codes "route", path)
unfolding header_text match_header
match_header-route [] = unfold header_of cut_suffix in refl
match_header-route (c ∷ p) =
    rw (header_of-framed (codes "route") (c ∷ p), match_header) (unfold header_path in refl)

match_header-handle :
    (path : Bytes) → match_header (header_text (codes "handle") path) ≡ some (codes "handle", path)
unfolding header_text match_header
match_header-handle [] = unfold header_of cut_suffix in refl
match_header-handle (c ∷ p) =
    rw (header_of-framed (codes "handle") (c ∷ p), match_header) (unfold header_path in refl)

match_header-lines :
    (rt : Route) → IsRenderableRoute rt → match_header (route_header rt) ≡ some (rt.mode, rt.path)
unfolding directive_of equal
match_header-lines rt h = elim h.known_mode [
  | inl e ↦ simp e (match_header-route rt.path)
  | inr e ↦ simp e (match_header-handle rt.path)
]

-- One route is read back, and the lines behind it are left.
pub parse_route-lines :
    (rt : Route) (rest : List Bytes)
    → IsRenderableRoute rt
    → parse_route (route_lines rt ++ rest) ≡ some (rt, rest)
unfolding parse_route
parse_route-lines rt rest h =
    rw (match_header-lines rt h, parse_route)
      (rw (parse_auth-lines rt.require_auth rt.strip_prefix rt.rewrite_prefix rt.target rest) (
        rw (parse_strip-lines rt.strip_prefix rt.rewrite_prefix rt.target rest) (
          rw (parse_rewrite-lines rt.rewrite_prefix rt.target rest)
            (rw (parse_proxy-lines rt.target rest) refl))))
