-- ===== src/DevProxy/Fragment/Whole.antt =====
-- The round trip of a whole fragment.
use mathlib.Core.List.{append_assoc}
use router_docker.Prelude.{
  ℕ, zero, suc, ◌≤◌, ◌≡◌, refl, Bool, true, false, some, List, [], ◌∷◌, ◌++◌, All, arith,
  if◌then◌else◌, is_empty, length, length-append, split_last-append,
}
use router_docker.Text.{Bytes, codes, equal, trim_blank, trim_space, cut_prefix}
use router_docker.Text.Laws.{equal_refl, cut_prefix-append}
use router_docker.Text.Lines.{split-unlines, trim_blank-append}
use router_docker.DevProxy.ForwardAuth.{forward_auth_block}
use router_docker.DevProxy.Fragment.Lines.{
  IsRenderableRoute, IsRenderable, auth_lines, tail_lines, body_lines, all_route_lines, inner_lines,
  lines_of, render-lines, lines_of-IsLine,
}
use router_docker.DevProxy.Fragment.RoundTrip.{parse_route-lines}
use router_docker.DevProxy.Fragment.{
  Route, Expose, route_header, is_placeholder, render, parse_routes, parse_lines, parse_structured,
}

parse_routes-lines :
    (rts : List Route) (fuel : ℕ)
    → All IsRenderableRoute rts
    → length rts ≤ fuel
    → parse_routes fuel (all_route_lines rts) ≡ some rts
unfolding parse_routes
parse_routes-lines [] zero h le = refl
parse_routes-lines [] (suc fuel) h le = refl
parse_routes-lines (rt ∷ rts) zero h le = absurd (omega arith)
parse_routes-lines (rt ∷ rts) (suc fuel) h le =
    rw (parse_route-lines rt (all_route_lines rts) h.0, parse_routes)
      (rw (parse_routes-lines rts fuel h.1 (omega arith)) refl)

length-all_route_lines : (rts : List Route) → length rts ≤ length (all_route_lines rts)
length-all_route_lines [] = omega arith
length-all_route_lines (rt ∷ rts) =
    omega (arith, length-append (body_lines rt) (all_route_lines rts), length-all_route_lines rts)

body_lines-cons :
    (b : Bool) (strip rewrite target : Bytes) (rest : List Bytes)
    → is_empty ((auth_lines b ++ tail_lines strip rewrite target) ++ rest) ≡ false
unfolding forward_auth_block
body_lines-cons true strip rewrite target rest = refl
body_lines-cons false [] [] target rest = refl
body_lines-cons false [] (c ∷ r) target rest = refl
body_lines-cons false (c ∷ s) rewrite target rest = refl

is_placeholder-cons :
    (h : Bytes) (ls : List Bytes) → is_empty ls ≡ false → is_placeholder (h ∷ ls) ≡ false
is_placeholder-cons h [] e = cc
is_placeholder-cons h (l ∷ ls) e = refl

parse_inner-lines :
    (rts : List Route)
    → All IsRenderableRoute rts
    → (if is_placeholder (inner_lines rts)
        then some []
        else parse_routes (length (inner_lines rts)) (inner_lines rts))
      ≡ some rts
parse_inner-lines [] h = unfold equal in refl
parse_inner-lines (rt ∷ rts) h =
    let ls = body_lines rt ++ all_route_lines rts in
    let more =
      body_lines-cons rt.require_auth rt.strip_prefix rt.rewrite_prefix rt.target
        (all_route_lines rts) in
    rw (is_placeholder-cons (route_header rt) ls more) (
      parse_routes-lines (rt ∷ rts) (length (all_route_lines (rt ∷ rts))) h
        (length-all_route_lines (rt ∷ rts)))

cut_prefix-host :
    (name host : Bytes)
    → cut_prefix (name ++ (codes " host " ++ host)) (name ++ codes " host ") ≡ some host
cut_prefix-host name host =
    rw (← append_assoc name (codes " host ") host) (cut_prefix-append (name ++ codes " host ") host)

parse_lines-lines : (e : Expose) → IsRenderable e → parse_lines e.name (lines_of e) ≡ some e
unfolding parse_lines
parse_lines-lines e h = rw (cut_prefix-host e.name e.host) (
    rw (equal_refl (codes "handle @" ++ (e.name ++ codes " {"))) (
      rw (split_last-append (inner_lines e.routes) (codes "}"))
        (rw (parse_inner-lines e.routes h.each_route) refl)))

lines_of-trimmed : (e : Expose) → trim_blank (lines_of e ++ [] ∷ []) ≡ lines_of e
lines_of-trimmed e =
    trim_blank-append
      ((codes "@" ++ (e.name ++ (codes " host " ++ e.host)))
        ∷ (codes "handle @" ++ (e.name ++ codes " {"))
        ∷ inner_lines e.routes)
      (codes "}") (unfold trim_space in refl)

-- An expose whose fields hold no newline and whose modes are `route` or `handle` is recovered
-- exactly from the text that `Render` writes for it.
pub parse_structured-render :
    (e : Expose) → IsRenderable e → parse_structured e.name (render e) ≡ some e
unfolding parse_structured
parse_structured-render e h = rw (render-lines e) (
    rw (split-unlines (lines_of e) (lines_of-IsLine e h))
      (rw (lines_of-trimmed e) (parse_lines-lines e h)))
