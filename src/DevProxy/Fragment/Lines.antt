-- ===== src/DevProxy/Fragment/Lines.antt =====
-- The fragment that `Render` writes, as the list of its lines.
use mathlib.Core.List.{append_assoc}
use router_docker.Prelude.{
  ◌≡◌, refl, sym, ap, ap₂, ◌∙◌, ◌⊎◌, inl, inr, Bool, true, false, not, List, [], ◌∷◌, ◌++◌, All,
  All-append, if◌then◌else◌, is_empty, Bool-cases,
}
use router_docker.Text.{Bytes, codes, equal}
use router_docker.Text.Lines.{
  lacks, IsLine, unlines, unlines-append, lacks-append, All-IsLine, IsLine-framed,
}
use router_docker.DevProxy.ForwardAuth.{
  forward_auth_block, render_forward_auth, strip_tinyauth_cookies,
}
use router_docker.DevProxy.Fragment.{
  Route, Expose, line, directive_of, header_text, route_header, render_route, render_routes, render,
}

-- A route that fits the template: no field holds a newline, and the mode is one of the two.
pub record IsRenderableRoute (rt : Route) : Type 0 where
  pub path_line : IsLine rt.path
  pub target_line : IsLine rt.target
  pub strip_line : IsLine rt.strip_prefix
  pub rewrite_line : IsLine rt.rewrite_prefix
  pub known_mode : (rt.mode ≡ codes "route") ⊎ (rt.mode ≡ codes "handle")

pub record IsRenderable (e : Expose) : Type 0 where
  pub name_line : IsLine e.name
  pub host_line : IsLine e.host
  pub each_route : All IsRenderableRoute e.routes

abbrev optional : Bytes → Bytes → List Bytes
optional value l = if not (is_empty value) then l ∷ [] else []

abbrev pub auth_lines : Bool → List Bytes
auth_lines b = if b then forward_auth_block (codes "\t\t") else []

abbrev pub proxy_lines : Bytes → List Bytes
proxy_lines target =
    (codes "\t\treverse_proxy " ++ (target ++ codes " {"))
    ∷ (codes "\t\t\t" ++ strip_tinyauth_cookies)
    ∷ codes "\t\t}"
    ∷ codes "\t}"
    ∷ []

abbrev pub strip_lines : Bytes → List Bytes
strip_lines strip = optional strip (codes "\t\turi strip_prefix " ++ strip)

abbrev pub rewrite_lines : Bytes → List Bytes
rewrite_lines rewrite = optional rewrite (codes "\t\trewrite * " ++ (rewrite ++ codes "{uri}"))

-- what follows the auth block
abbrev pub tail_lines : Bytes → Bytes → Bytes → List Bytes
tail_lines strip rewrite target = strip_lines strip ++ (rewrite_lines rewrite ++ proxy_lines target)

abbrev pub body_lines : Route → List Bytes
body_lines rt = auth_lines rt.require_auth ++ tail_lines rt.strip_prefix rt.rewrite_prefix rt.target

abbrev pub route_lines : Route → List Bytes
route_lines rt = route_header rt ∷ body_lines rt

abbrev pub all_route_lines : List Route → List Bytes
all_route_lines [] = []
all_route_lines (rt ∷ rts) = route_lines rt ++ all_route_lines rts

abbrev pub inner_lines : List Route → List Bytes
inner_lines rts = if is_empty rts then codes "\trespond 404" ∷ [] else all_route_lines rts

abbrev pub lines_of : Expose → List Bytes
lines_of e =
    (codes "@" ++ (e.name ++ (codes " host " ++ e.host)))
    ∷ (codes "handle @" ++ (e.name ++ codes " {"))
    ∷ (inner_lines e.routes ++ codes "}" ∷ [])

unlines-auth_lines :
    (b : Bool) → unlines (auth_lines b) ≡ (if b then render_forward_auth (codes "\t\t") else [])
unfolding render_forward_auth
unlines-auth_lines true = refl
unlines-auth_lines false = refl

unlines-optional :
    (value l : Bytes) → unlines (optional value l) ≡ (if not (is_empty value) then line l else [])
unlines-optional [] l = refl
unlines-optional (c ∷ value) l = refl

pub line-cons : (l : Bytes) (ls : List Bytes) → unlines (l ∷ ls) ≡ line l ++ unlines ls
line-cons l ls = sym (append_assoc l (b'\n' ∷ []) (unlines ls))

unlines_parts :
    (h : Bytes) (ks ls ms ns : List Bytes)
    → unlines (h ∷ (ks ++ (ls ++ (ms ++ ns))))
      ≡ line h ++ (unlines ks ++ (unlines ls ++ (unlines ms ++ unlines ns)))
unlines_parts h ks ls ms ns =
    line-cons h (ks ++ (ls ++ (ms ++ ns)))
    ∙ ap (λ (t : Bytes). line h ++ t)
        (unlines-append ks (ls ++ (ms ++ ns))
          ∙ ap (λ (t : Bytes). unlines ks ++ t)
              (unlines-append ls (ms ++ ns)
                ∙ ap (λ (t : Bytes). unlines ls ++ t) (unlines-append ms ns)))

render_route-lines : (rt : Route) → render_route rt ≡ unlines (route_lines rt)
unfolding render_route
render_route-lines rt = sym (
    unlines_parts (route_header rt) (auth_lines rt.require_auth) (strip_lines rt.strip_prefix)
      (rewrite_lines rt.rewrite_prefix) (proxy_lines rt.target)
    ∙ rw unlines-auth_lines (
        rw (unlines-optional rt.strip_prefix) (
          rw (unlines-optional rt.rewrite_prefix)
            (rw (line-cons (codes "\t\treverse_proxy " ++ (rt.target ++ codes " {"))) refl))))

render_routes-lines : (rts : List Route) → render_routes rts ≡ unlines (all_route_lines rts)
unfolding render_routes
render_routes-lines [] = refl
render_routes-lines (rt ∷ rts) =
    ap₂ (λ (x y : Bytes). x ++ y) (render_route-lines rt) (render_routes-lines rts)
    ∙ sym (unlines-append (route_lines rt) (all_route_lines rts))

inner-lines :
    (rts : List Route)
    → (if is_empty rts then line (codes "\trespond 404") else [])
        ++ (render_routes rts ++ line (codes "}"))
      ≡ unlines (inner_lines rts ++ codes "}" ∷ [])
inner-lines [] = rw (render_routes-lines [])
inner-lines (rt ∷ rts) =
    rw (render_routes-lines (rt ∷ rts))
      (sym (unlines-append (all_route_lines (rt ∷ rts)) (codes "}" ∷ [])))

-- `Render` writes exactly these lines.
pub render-lines : (e : Expose) → render e ≡ unlines (lines_of e)
unfolding render
render-lines e =
    let matcher = codes "@" ++ (e.name ++ (codes " host " ++ e.host)) in
    let handle = codes "handle @" ++ (e.name ++ codes " {") in
    let rest = inner_lines e.routes ++ codes "}" ∷ [] in
    rw (inner-lines e.routes) (
      sym (
        line-cons matcher (handle ∷ rest)
        ∙ ap (λ (t : Bytes). line matcher ++ t) (line-cons handle rest)))

auth_lines-IsLine : (b : Bool) → All IsLine (auth_lines b)
unfolding forward_auth_block lacks
auth_lines-IsLine true = All-IsLine (forward_auth_block (codes "\t\t")) refl
auth_lines-IsLine false = tt

optional-IsLine : (value l : Bytes) → IsLine l → All IsLine (optional value l)
optional-IsLine [] l h = tt
optional-IsLine (c ∷ value) l h = (h, tt)

header_text-IsLine : (d path : Bytes) → IsLine d → IsLine path → IsLine (header_text d path)
unfolding header_text lacks
header_text-IsLine d [] hd hp = lacks-append b'\n' d (codes " {") hd refl
header_text-IsLine d (c ∷ p) hd hp =
    lacks-append b'\n' d (codes " " ++ ((c ∷ p) ++ codes " {")) hd
      (lacks-append b'\n' (c ∷ p) (codes " {") hp refl)

directive_of-IsLine : (mode : Bytes) → IsLine (directive_of mode)
unfolding directive_of lacks
directive_of-IsLine mode = elim (Bool-cases (equal mode (codes "route"))) [
  | inl e ↦ rw e refl
  | inr e ↦ rw e refl
]

route_lines-IsLine : (rt : Route) → IsRenderableRoute rt → All IsLine (route_lines rt)
unfolding lacks
route_lines-IsLine rt h = (
  header_text-IsLine (directive_of rt.mode) rt.path (directive_of-IsLine rt.mode) h.path_line,
  All-append IsLine (auth_lines rt.require_auth) _ (auth_lines-IsLine rt.require_auth) (
      All-append IsLine (strip_lines rt.strip_prefix) _
        (optional-IsLine rt.strip_prefix _ h.strip_line)
        (All-append IsLine (rewrite_lines rt.rewrite_prefix) (proxy_lines rt.target)
          (optional-IsLine rt.rewrite_prefix _
            (lacks-append b'\n' rt.rewrite_prefix (codes "{uri}") h.rewrite_line refl))
          (
            lacks-append b'\n' rt.target (codes " {") h.target_line refl,
            (refl, (refl, (refl, tt))),
          ))),
)

all_route_lines-IsLine :
    (rts : List Route) → All IsRenderableRoute rts → All IsLine (all_route_lines rts)
all_route_lines-IsLine [] h = tt
all_route_lines-IsLine (rt ∷ rts) h =
    All-append IsLine (route_lines rt) (all_route_lines rts) (route_lines-IsLine rt h.0)
      (all_route_lines-IsLine rts h.1)

inner_lines-IsLine : (rts : List Route) → All IsRenderableRoute rts → All IsLine (inner_lines rts)
unfolding lacks
inner_lines-IsLine [] h = (refl, tt)
inner_lines-IsLine (rt ∷ rts) h = all_route_lines-IsLine (rt ∷ rts) h

pub lines_of-IsLine : (e : Expose) → IsRenderable e → All IsLine (lines_of e)
unfolding lacks
lines_of-IsLine e h = (
  IsLine-framed (codes "@") e.name (codes " host " ++ e.host) refl h.name_line h.host_line,
  (
    IsLine-framed (codes "handle @") e.name (codes " {") refl h.name_line refl,
    All-append IsLine (inner_lines e.routes) (codes "}" ∷ [])
        (inner_lines-IsLine e.routes h.each_route) (refl, tt),
  ),
)
